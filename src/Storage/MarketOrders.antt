-- ===== src/Storage/MarketOrders.antt =====
-- src/storage/market_orders_storage.cpp: the order books of the followed markets.
pub mod Laws
use crypto_shloma.Prelude.{
  String, Bool, List, [], ◌∷◌, ◌++◌, Option, none, some, str_eq, any, filter, not, if◌then◌else◌,
}
use crypto_shloma.Qt.{Qt}
use crypto_shloma.Base.Order.{Order, OrderType}
use crypto_shloma.Api.Entry.{OrderEntry}
use crypto_shloma.Storage.Keyed.{append_option}
use crypto_shloma.Storage.Markets.{MarketsStorage}
use crypto_shloma.Storage.Orders.{is_of, newest_first, matches, make_order}

-- `QList::contains`.
abbrev pub contains : List String → String → Bool
contains ids id = any (λ i. str_eq i id) ids

module _ ⦃q : Qt⦄ where
  pub record MarketOrders : Type 0 where
    pub orders : List Order
    pub filters : List String

  unfoldable pub filter_type : String → OrderType → MarketOrders → List Order
  unfolding filter
  filter_type id type s = newest_first (filter (matches id type) s.orders)

  unfoldable pub insert : String → MarketOrders → MarketOrders
  insert id s = if contains s.filters id then s else record s { filters = s.filters ++ id ∷ [] }

  -- The first loop of `merge`: the ids of the reported markets, each once.
  unfoldable pub reported_ids : List OrderEntry → List String → List String
  reported_ids [] ids = ids
  reported_ids (e ∷ es) ids =
      reported_ids es (if contains ids e.market_id then ids else ids ++ e.market_id ∷ [])

  -- Whether the market of an order is in a list; it is set before the order is stored.
  abbrev pub is_of_any : List String → Order → Bool
  is_of_any ids o = elim o.market [ none ↦ Bool.false | some m ↦ contains ids m ]

  unfoldable pub make_followed : MarketsStorage → List String → OrderEntry → Option Order
  make_followed markets filters e =
      if contains filters e.market_id then make_order markets e else none

  -- The last loop of `merge`.
  unfoldable pub append_all :
      MarketsStorage → List String → List OrderEntry → List Order → List Order
  append_all markets filters [] orders = orders
  append_all markets filters (e ∷ es) orders =
      append_all markets filters es (append_option orders (make_followed markets filters e))

  -- A report of a market replaces all that is stored of it.
  unfoldable pub merge : MarketsStorage → List OrderEntry → MarketOrders → MarketOrders
  unfolding reported_ids append_all make_followed filter
  merge markets data' s = record s {
    orders =
        append_all markets s.filters data'
          (filter (λ o. not (is_of_any (reported_ids data' []) o)) s.orders);
  }

  unfoldable pub remove : String → MarketOrders → MarketOrders
  unfolding filter
  remove id s = record {
    orders = filter (λ o. not (is_of id o)) s.orders;
    filters = filter (λ f. not (str_eq f id)) s.filters;
  }
