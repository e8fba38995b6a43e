-- ===== src/Algo.antt =====
-- src/algo: the trading algorithm Hanukkah, and the searcher of trends that looks after its markets.
pub mod Chain
pub mod Average
pub mod Action
pub mod Trade
pub mod Trend
pub mod Spreder
pub mod Step
pub mod ZeroStep
pub mod Hanukkah
