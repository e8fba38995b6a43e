-- ===== src/Base/Market.antt =====
-- src/base/market.h and market.cpp.
pub mod Data
pub mod Setters
pub mod UserConfig
