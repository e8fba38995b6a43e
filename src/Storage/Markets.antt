-- ===== src/Storage/Markets.antt =====
-- src/storage/markets_storage.cpp. The locks are not modelled: one call is one step.
pub mod Lookups
pub mod Trading
use crypto_shloma.Prelude.{
  String, Bool, List, [], Option, none, some, str_eq, any, find, filter, modify_first,
}
use crypto_shloma.Qt.{Qt}
use crypto_shloma.Base.Currency
use crypto_shloma.Base.Currency.{Currency}
use crypto_shloma.Base.Market.Data.{Market, UserConfig}
use crypto_shloma.Base.Market.Setters as Market
use crypto_shloma.Base.Market.UserConfig as User
use crypto_shloma.Api.Entry.{MarketEntry}
use crypto_shloma.Storage.Keyed.{lookup, upsert_all}

abbrev pub currency_id : Currency → String
currency_id c = c.config.id

abbrev pub entry_currency_id : Currency.Config → String
entry_currency_id c = c.id

module _ ⦃q : Qt⦄ where
  pub record MarketsStorage : Type 0 where
    pub currencys : List Currency
    pub markets : List Market

  abbrev pub market_id : Market → String
  market_id m = m.config.id

  abbrev pub entry_market_id : MarketEntry → String
  entry_market_id e = e.params.id

  -- `m_tradeCurrency` is set before a market is stored, so it is not null where it is read.
  abbrev pub trades_currency : (String → Bool) → Market → Bool
  trades_currency p m = elim m.trade_currency [ none ↦ Bool.false | some id ↦ p id ]

  unfoldable pub find_currency_by_id : MarketsStorage → String → Option Currency
  unfolding lookup
  find_currency_by_id s id = lookup currency_id str_eq id s.currencys

  unfoldable pub find_currency_by_symbol : MarketsStorage → String → Option Currency
  unfolding find
  find_currency_by_symbol s symbol =
      find (λ c. q.equal_ignoring_case c.config.id symbol) s.currencys

  unfoldable pub find_market_by_id : MarketsStorage → String → Option Market
  unfolding lookup
  find_market_by_id s id = lookup market_id str_eq id s.markets

  unfoldable pub find_market_by_currency_id : MarketsStorage → String → Option Market
  unfolding find
  find_market_by_currency_id s id = find (trades_currency (λ c. str_eq c id)) s.markets

  unfoldable pub find_market_by_symbol : MarketsStorage → String → Option Market
  unfolding find
  find_market_by_symbol s symbol =
      find (trades_currency (λ c. q.equal_ignoring_case c symbol)) s.markets

  unfoldable pub find_market_by_label : MarketsStorage → String → Option Market
  unfolding find
  find_market_by_label s label = find (λ m. q.equal_ignoring_case m.config.id label) s.markets

  -- The default `MarketId` is the empty text.
  unfoldable pub find_market_id_by_symbol : MarketsStorage → String → String
  unfolding find_market_by_symbol
  find_market_id_by_symbol s symbol = elim (find_market_by_symbol s symbol) [
    | none ↦ ""
    | some m ↦ m.config.id
  ]

  unfoldable pub filter_trading_pairs : MarketsStorage → List Market
  unfolding filter
  filter_trading_pairs s = filter (λ m. m.user_config.is_tradable) s.markets

  abbrev pub update_market : MarketEntry → Market → Market
  update_market e m = (Market.set_config e.params m).0

  unfoldable pub merge_market_data : List MarketEntry → MarketsStorage → MarketsStorage
  unfolding upsert_all
  merge_market_data data' s = record s {
    markets = upsert_all market_id entry_market_id str_eq update_market (λ _. none) data' s.markets;
  }

  unfoldable pub update_market_user_config : String → UserConfig → MarketsStorage → MarketsStorage
  unfolding modify_first
  update_market_user_config id config s = record s {
    markets =
        modify_first (λ m. str_eq m.config.id id) (λ m. (User.set_user_config config m).0)
          s.markets;
  }

  unfoldable pub cancel_trading_market : String → MarketsStorage → MarketsStorage
  unfolding modify_first
  cancel_trading_market id s = record s {
    markets =
        modify_first (λ m. str_eq m.config.id id) (λ m. (User.set_is_tradable Bool.false m).0)
          s.markets;
  }

  -- A market is made only if both of its currencies are known.
  abbrev pub new_market : MarketEntry → Option Currency → Option Currency → Option Market
  new_market e (some currency) (some base_currency) = some (
      Market.set_base_currency (some base_currency.config.id)
        (Market.set_currency (some currency.config.id) (Market.create e.params)))
  new_market e _ _ = none

  unfoldable pub make_market : MarketsStorage → MarketEntry → Option Market
  make_market s e =
      new_market e (find_currency_by_id s e.trade_currency_id)
        (find_currency_by_id s e.base_currency_id)

  unfoldable pub merge_market_info : List MarketEntry → MarketsStorage → MarketsStorage
  unfolding upsert_all filter
  merge_market_info data' s = record s {
    markets =
        upsert_all market_id entry_market_id str_eq update_market (make_market s) data'
          (filter (λ m. any (λ e. str_eq e.params.id m.config.id) data') s.markets);
  }

  unfoldable pub merge_currencies : List Currency.Config → MarketsStorage → MarketsStorage
  unfolding upsert_all filter
  merge_currencies data' s = record s {
    currencys =
        upsert_all currency_id entry_currency_id str_eq (λ e c. (Currency.set_config e c).0)
          (λ e. some (Currency.create e)) data'
          (filter (λ c. any (λ e. str_eq e.id c.config.id) data') s.currencys);
  }
