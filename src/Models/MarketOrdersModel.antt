-- ===== src/Models/MarketOrdersModel.antt =====
-- src/models/market_orders_model.h and market_orders_model.cpp.
use crypto_shloma.Prelude.{
  String, List, [], ◌∷◌, ◌++◌, Option, none, str_eq, filter, not, if◌then◌else◌,
}
use crypto_shloma.Qt.{Qt}
use crypto_shloma.Base.Order.{Order}
use crypto_shloma.Api.Entry.{OrderEntry}
use crypto_shloma.Storage.Orders.{is_of}
use crypto_shloma.Storage.MarketOrders.{contains, reported_ids, is_of_any}
use crypto_shloma.Models.Rows.{Change, erase_rows, append_row, each_row, then_rows}
use crypto_shloma.Models.MarketsModel.{MarketsModel}
use crypto_shloma.Models.OpenOrdersModel.{make_order}

module _ ⦃q : Qt⦄ where
  -- `m_Data` and `m_Filters`.
  pub record MarketOrdersModel : Type 0 where
    pub rows : List Order
    pub filters : List String

  unfoldable pub insert : String → MarketOrdersModel → MarketOrdersModel
  insert id m = if contains m.filters id then m else record m { filters = m.filters ++ id ∷ [] }

  unfoldable pub make_followed : MarketsModel → List String → OrderEntry → Option Order
  make_followed markets filters e =
      if contains filters e.market_id then make_order markets e else none

  unfoldable pub merge :
      MarketsModel → List OrderEntry → MarketOrdersModel → MarketOrdersModel × List (Change Order)
  unfolding then_rows erase_rows each_row append_row reported_ids
  merge markets data' m =
      let r =
        then_rows (erase_rows (is_of_any (reported_ids data' [])) 0)
          (each_row (λ e. append_row (make_followed markets m.filters e)) data') m.rows in
      (record m { rows = r.0 }, r.1)

  unfoldable pub remove : String → MarketOrdersModel → MarketOrdersModel × List (Change Order)
  unfolding erase_rows filter
  remove id m =
      let r = erase_rows (is_of id) 0 m.rows in
      (record { rows = r.0; filters = filter (λ f. not (str_eq f id)) m.filters }, r.1)
