-- ===== src/Models/OpenOrdersModel.antt =====
-- src/models/open_orders_model.h and open_orders_model.cpp.
pub mod Removal
use crypto_shloma.Prelude.{
  ℕ, String, Bool, List, [], ◌∷◌, ◌++◌, Option, none, some, ◌==◌, any, filter, map, erase_first,
}
use crypto_shloma.Qt.{Qt}
use crypto_shloma.Base.Order as Order
use crypto_shloma.Base.Order.{Order}
use crypto_shloma.Api.Entry.{OrderEntry}
use crypto_shloma.Storage.Orders.{order_id, entry_order_id, order_of}
use crypto_shloma.Storage.OpenOrders.{
  Pointer, place, pointers, copy_of_market, copy_of_markets, is_reported,
}
use crypto_shloma.Models.Rows.{Change, Rows, row_of, erase_rows, upsert_rows, then_rows}
use crypto_shloma.Models.MarketsModel.{MarketsModel, find_market_by_id}

module _ ⦃q : Qt⦄ where
  abbrev pub is_newer : OrderEntry → Order → Bool
  is_newer e o = q.date_le o.config.updated_time_stamp e.params.updated_time_stamp

  abbrev pub update_order : OrderEntry → Order → Order
  update_order e o = (Order.set_config e.params o).0

  unfoldable pub make_order : MarketsModel → OrderEntry → Option Order
  make_order markets e = order_of e (find_market_by_id markets e.market_id)

  -- `indexOf` and `removeOne` for each pointer; the row is that of the pointer at its turn.
  unfoldable pub remove_pointer_rows :
      List Pointer → List Pointer → List Pointer × List (Change Order)
  unfolding row_of erase_first
  remove_pointer_rows [] ps = (ps, [])
  remove_pointer_rows (r ∷ rs) ps =
      let rest = remove_pointer_rows rs (erase_first (λ p. place p == place r) ps) in
      (rest.0, Change.removed (row_of (λ p. place p == place r) ps) ∷ rest.1)

  abbrev pub filtered : List OrderEntry → List Order → List Pointer
  filtered data' rows =
      filter (λ p. is_reported data' p.1) (copy_of_markets data' (pointers 0 rows) [])

  unfoldable pub remove_reported : List OrderEntry → List Order → Rows Order
  unfolding remove_pointer_rows pointers copy_of_markets copy_of_market filter
  remove_reported data' rows =
      let r = remove_pointer_rows (filtered data' rows) (pointers 0 rows) in
      (map (λ p. p.1) r.0, r.1)

  -- The rows are `m_Data`.
  unfoldable pub merge : MarketsModel → List OrderEntry → List Order → Rows Order
  unfolding then_rows remove_reported upsert_rows
  merge markets data' =
      then_rows (remove_reported data')
        (upsert_rows order_id entry_order_id ◌==◌ is_newer update_order (make_order markets) data')

  unfoldable pub remove : List ℕ → List Order → Rows Order
  unfolding erase_rows
  remove ids = erase_rows (λ o. any (λ id. order_id o == id) ids) 0
