-- ===== src/Models.antt =====
-- src/models: the list models of the views, and the pool of exchanges.
pub mod Rows
pub mod MarketsModel
pub mod BalancesModel
pub mod OpenOrdersModel
pub mod MarketOrdersModel
pub mod TradeHistoryModel
pub mod Proxies
pub mod ExchangeEntry
pub mod ExchangePool
