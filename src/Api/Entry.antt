-- ===== src/Api/Entry.antt =====
-- src/api/i_exchange_api_entry.h: one reported market, order or balance.
use crypto_shloma.Prelude.{String}
use crypto_shloma.Qt.{Qt}
use crypto_shloma.Base.Balance
use crypto_shloma.Base.Order
use crypto_shloma.Base.Market.Data as Market

module _ ⦃q : Qt⦄ where
  pub record MarketEntry : Type 0 where
    pub trade_currency_id : String
    pub base_currency_id : String
    pub params : Market.Config

  pub record OrderEntry : Type 0 where
    pub market_id : String
    pub params : Order.Config

  pub record BalanceEntry : Type 0 where
    pub currency_id : String
    pub params : Balance.Config
