-- ===== src/Models/TradeHistoryModel.antt =====
-- src/models/trade_history_model.h and trade_history_model.cpp.
use crypto_shloma.Prelude.{
  ℕ, String, false, List, [], ◌∷◌, ◌++◌, Option, none, str_eq, ◌==◌, filter, not, get_elem?,
  if◌then◌else◌,
}
use crypto_shloma.Qt.{Qt}
use crypto_shloma.Base.Order.{Order}
use crypto_shloma.Api.Entry.{OrderEntry}
use crypto_shloma.Storage.Orders.{is_of, order_id, entry_order_id}
use crypto_shloma.Storage.MarketOrders.{contains}
use crypto_shloma.Models.Rows.{Change, erase_rows, upsert_rows}
use crypto_shloma.Models.MarketsModel.{MarketsModel}
use crypto_shloma.Models.OpenOrdersModel.{make_order}

module _ ⦃q : Qt⦄ where
  -- `m_Data` and `m_Filters`.
  pub record TradeHistoryModel : Type 0 where
    pub rows : List Order
    pub filters : List String

  -- The null pointer behind the end; a negative index is not modelled.
  unfoldable pub find_by_index : ℕ → TradeHistoryModel → Option Order
  find_by_index index m = get_elem? m.rows index

  unfoldable pub insert : String → TradeHistoryModel → TradeHistoryModel
  insert id m = if contains m.filters id then m else record m { filters = m.filters ++ id ∷ [] }

  unfoldable pub make_followed : MarketsModel → List String → OrderEntry → Option Order
  make_followed markets filters e =
      if contains filters e.market_id then make_order markets e else none

  -- An order whose id has a row stays as it is.
  unfoldable pub merge :
      MarketsModel → List OrderEntry → TradeHistoryModel → TradeHistoryModel × List (Change Order)
  unfolding upsert_rows
  merge markets data' m =
      let r =
        upsert_rows order_id entry_order_id ◌==◌ (λ _ _. false) (λ e o. o)
          (make_followed markets m.filters) data' m.rows in
      (record m { rows = r.0 }, r.1)

  unfoldable pub remove : String → TradeHistoryModel → TradeHistoryModel × List (Change Order)
  unfolding erase_rows filter
  remove id m =
      let r = erase_rows (is_of id) 0 m.rows in
      (record { rows = r.0; filters = filter (λ f. not (str_eq f id)) m.filters }, r.1)
