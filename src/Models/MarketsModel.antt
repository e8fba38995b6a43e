-- ===== src/Models/MarketsModel.antt =====
-- src/models/markets_model.h and markets_model.cpp.
use crypto_shloma.Prelude.{
  ℕ, String, Bool, true, false, not, List, [], ◌∷◌, Option, none, some, str_eq, any, filter, find,
  modify_first, get_elem?, length, set, if◌then◌else◌,
}
use crypto_shloma.Qt.{Qt}
use crypto_shloma.Base.Currency
use crypto_shloma.Base.Currency.{Currency}
use crypto_shloma.Base.Market.Data.{Market, UserConfig}
use crypto_shloma.Base.Market.UserConfig as User
use crypto_shloma.Api.Entry.{MarketEntry}
use crypto_shloma.Storage.Keyed.{lookup, upsert_all}
use crypto_shloma.Storage.Markets.{
  currency_id, entry_currency_id, market_id, entry_market_id, update_market, new_market,
}
use crypto_shloma.Models.Rows.{Change, Rows, row_of, erase_rows, upsert_rows, then_rows}

module _ ⦃q : Qt⦄ where
  -- `m_Data` and `m_Currencys`.
  pub record MarketsModel : Type 0 where
    pub rows : List Market
    pub currencys : List Currency

  pub data Role : Type 0 where
    market_role is_tradable_role : Role

  pub data Datum : Type 0 where
    market : Market → Datum
    is_tradable : Bool → Datum

  unfoldable pub find_market_by_id : MarketsModel → String → Option Market
  unfolding lookup
  find_market_by_id m id = lookup market_id str_eq id m.rows

  unfoldable pub find_currency_by_id : MarketsModel → String → Option Currency
  unfolding lookup
  find_currency_by_id m id = lookup currency_id str_eq id m.currencys

  unfoldable pub row_count : MarketsModel → ℕ
  row_count m = length m.rows

  abbrev datum_of : Role → Market → Datum
  datum_of Role.market_role m = Datum.market m
  datum_of Role.is_tradable_role m = Datum.is_tradable m.user_config.is_tradable

  -- `none` is the invalid variant.
  unfoldable pub datum_at : ℕ → Role → MarketsModel → Option Datum
  datum_at row role m = elim (get_elem? m.rows row) [
    | none ↦ none
    | some x ↦ some (datum_of role x)
  ]

  abbrev set_row :
      ℕ → Bool → MarketsModel → Option Market → Bool × MarketsModel × List (Change Market)
  set_row row value m none = (false, m, [])
  set_row row value m (some x) =
      let y = (User.set_is_tradable value x).0 in
      (true, record m { rows = set m.rows row y }, Change.changed row y ∷ [])

  -- Whether the value was taken, the model, and the change.
  unfoldable pub set_data :
      ℕ → Role → Bool → MarketsModel → Bool × MarketsModel × List (Change Market)
  unfolding set
  set_data row Role.is_tradable_role value m = set_row row value m (get_elem? m.rows row)
  set_data row _ value m = (false, m, [])

  abbrev pub with_rows : MarketsModel → Rows Market → MarketsModel × List (Change Market)
  with_rows m r = (record m { rows = r.0 }, r.1)

  abbrev change_found :
      (Market → Bool) → (Market → Market) → List Market → Option Market → Rows Market
  change_found p f xs none = (xs, [])
  change_found p f xs (some x) = (modify_first p f xs, Change.changed (row_of p xs) (f x) ∷ [])

  -- The row of a market that `std::find_if` found is changed, and the views are told.
  unfoldable pub change_market : (Market → Bool) → (Market → Market) → List Market → Rows Market
  unfolding find modify_first row_of
  change_market p f xs = change_found p f xs (find p xs)

  -- `Models.ExchangeEntry` counts the signal `mergeCompeleted` that follows.
  unfoldable pub merge_market_data :
      List MarketEntry → MarketsModel → MarketsModel × List (Change Market)
  unfolding upsert_rows
  merge_market_data data' m = with_rows m (
      upsert_rows market_id entry_market_id str_eq (λ _ _. true) update_market (λ _. none) data'
        m.rows)

  abbrev update_found :
      String → UserConfig → MarketsModel → Option Market → MarketsModel × List (Change Market)
  update_found id config m none = (m, [])
  update_found id config m (some x) =
      if User.user_config_eq x.user_config config
      then (m, [])
      else with_rows m (
          change_market (λ y. str_eq id y.config.id) (λ y. (User.set_user_config config y).0)
            m.rows)

  unfoldable pub update_market_config :
      String → UserConfig → MarketsModel → MarketsModel × List (Change Market)
  unfolding find User.user_config_eq change_market
  update_market_config id config m =
      update_found id config m (find (λ x. str_eq id x.config.id) m.rows)

  -- The views are not told.
  unfoldable pub cancel_trading_market : String → MarketsModel → MarketsModel
  unfolding modify_first
  cancel_trading_market id m = record m {
    rows = modify_first (λ x. str_eq x.config.id id) (λ x. (User.set_is_tradable false x).0) m.rows;
  }

  unfoldable pub make_market : MarketsModel → MarketEntry → Option Market
  make_market m e =
      new_market e (find_currency_by_id m e.trade_currency_id)
        (find_currency_by_id m e.base_currency_id)

  abbrev pub is_gone : List MarketEntry → Market → Bool
  is_gone data' m = not (any (λ e. str_eq e.params.id m.config.id) data')

  unfoldable pub merge_market_info :
      List MarketEntry → MarketsModel → MarketsModel × List (Change Market)
  unfolding upsert_rows erase_rows then_rows
  merge_market_info data' m = with_rows m (
      then_rows (erase_rows (is_gone data') 0)
        (upsert_rows market_id entry_market_id str_eq (λ _ _. true) update_market (make_market m)
          data')
        m.rows)

  -- No view shows the currencies.
  unfoldable pub merge_currencies : List Currency.Config → MarketsModel → MarketsModel
  unfolding upsert_all filter
  merge_currencies data' m = record m {
    currencys =
        upsert_all currency_id entry_currency_id str_eq (λ e c. (Currency.set_config e c).0)
          (λ e. some (Currency.create e)) data'
          (filter (λ c. any (λ e. str_eq e.id c.config.id) data') m.currencys);
  }
