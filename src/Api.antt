-- ===== src/Api.antt =====
-- src/api: what an exchange reports, the storages that take it, the table of orders on their way, and
-- the API of Binance with its controller.
pub mod Entry
pub mod Signals
pub mod TemporaryOrders
pub mod Hub
pub mod Controller
pub mod Binance
