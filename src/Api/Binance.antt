-- ===== src/Api/Binance.antt =====
-- src/api/binance_api.h and binance_api.cpp, binance_api_p.h and binance_api_p.cpp.
pub mod Codes
pub mod EndPoints
pub mod Read
pub mod Markets
pub mod Orders
pub mod Session
pub mod Lifecycle
pub mod Receive
pub mod Submit
pub mod Requests
pub mod Calls
