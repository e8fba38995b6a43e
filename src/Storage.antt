-- ===== src/Storage.antt =====
-- src/storage: the storages of an exchange API.
pub mod Keyed
pub mod Markets
pub mod Balances
pub mod Orders
pub mod TradeHistory
pub mod MarketOrders
pub mod OpenOrders
