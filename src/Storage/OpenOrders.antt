-- ===== src/Storage/OpenOrders.antt =====
-- src/storage/open_orders_storage.cpp.
pub mod Pointers
pub mod Merge
use crypto_shloma.Prelude.{
  ℕ, suc, ◌+◌, String, Bool, List, [], ◌∷◌, ◌++◌, Option, none, some, ◌==◌, any, filter, length,
  erase_first, map, not, ◌&&◌, if◌then◌else◌,
}
use crypto_shloma.Qt.{Qt}
use crypto_shloma.Base.Order as Order
use crypto_shloma.Base.Order.{Order, OrderType}
use crypto_shloma.Api.Entry.{OrderEntry}
use crypto_shloma.Storage.Keyed.{upsert_all}
use crypto_shloma.Storage.Markets.{MarketsStorage}
use crypto_shloma.Storage.Orders.{
  is_of, order_id, entry_order_id, newest_first, matches, make_order,
}

module _ ⦃q : Qt⦄ where
  pub record OpenOrders : Type 0 where
    pub orders : List Order

  unfoldable pub filter_type : String → OrderType → OpenOrders → List Order
  unfolding filter
  filter_type id type s = newest_first (filter (matches id type) s.orders)

  unfoldable pub count : OpenOrders → ℕ
  count s = length s.orders

  unfoldable pub orders_by_market_id : String → OpenOrders → List Order
  unfolding filter
  orders_by_market_id id s = filter (is_of id) s.orders

  -- A pointer to a stored order: its place in the list and the order. Pointers are compared by place.
  abbrev pub Pointer : Type 0
  Pointer = ℕ × Order

  abbrev pub place : Pointer → ℕ
  place p = p.0

  unfoldable pub pointers : ℕ → List Order → List Pointer
  pointers n [] = []
  pointers n (o ∷ os) = (n, o) ∷ pointers (n + 1) os

  abbrev pub points_in : List Pointer → ℕ → Bool
  points_in ps n = any (λ p. place p == n) ps

  -- `std::copy_if` for one reported entry: the orders of its market that are not copied yet.
  unfoldable pub copy_of_market : OrderEntry → List Pointer → List Pointer → List Pointer
  copy_of_market e [] filtered = filtered
  copy_of_market e (p ∷ ps) filtered = copy_of_market e ps (
      if is_of e.market_id p.1 && not (points_in filtered (place p))
      then filtered ++ p ∷ []
      else filtered)

  unfoldable pub copy_of_markets : List OrderEntry → List Pointer → List Pointer → List Pointer
  copy_of_markets [] ps filtered = filtered
  copy_of_markets (e ∷ es) ps filtered = copy_of_markets es ps (copy_of_market e ps filtered)

  abbrev pub is_reported : List OrderEntry → Order → Bool
  is_reported data' o = any (λ e. order_id o == entry_order_id e) data'

  -- `removeOne` for each pointer.
  unfoldable pub remove_pointers : List Pointer → List Pointer → List Pointer
  remove_pointers [] ps = ps
  remove_pointers (r ∷ rs) ps = remove_pointers rs (erase_first (λ p. place p == place r) ps)

  -- The first part of `merge`: of the orders of the reported markets those that are reported are
  -- removed.
  unfoldable pub remove_reported : List OrderEntry → List Order → List Order
  unfolding pointers copy_of_markets copy_of_market remove_pointers filter erase_first
  remove_reported data' orders =
      let ps = pointers 0 orders in
      map (λ p. p.1)
        (remove_pointers (filter (λ p. is_reported data' p.1) (copy_of_markets data' ps [])) ps)

  -- A stored order is changed by a report that is not older.
  abbrev pub update_order : OrderEntry → Order → Order
  update_order e o =
      if q.date_le o.config.updated_time_stamp e.params.updated_time_stamp
      then (Order.set_config e.params o).0
      else o

  unfoldable pub merge : MarketsStorage → List OrderEntry → OpenOrders → OpenOrders
  unfolding remove_reported upsert_all
  merge markets data' s = record {
    orders =
        upsert_all order_id entry_order_id ◌==◌ update_order (make_order markets) data'
          (remove_reported data' s.orders);
  }

  unfoldable pub remove : List ℕ → OpenOrders → OpenOrders
  unfolding filter
  remove ids s = record { orders = filter (λ o. not (any (λ id. order_id o == id) ids)) s.orders }
