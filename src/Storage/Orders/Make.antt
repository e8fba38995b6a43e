-- ===== src/Storage/Orders/Make.antt =====
-- `Order::Ptr::create` and `setMarket` in the merges of src/storage: the fields of the new order.
use mathlib.Core.Option.{some-injective}
use crypto_shloma.Prelude.{
  ℕ, String, true, false, not, Option, none, some, ◌≡◌, refl, ap, subst, arith, ◌==◌, str_eq,
  eq_iff,
}
use crypto_shloma.Qt.{Qt}
use crypto_shloma.Base.Method.{assign}
use crypto_shloma.Base.Order as Order
use crypto_shloma.Base.Order.{Order, OrderType, type_eq}
use crypto_shloma.Base.Market.Data.{Market}
use crypto_shloma.Api.Entry.{OrderEntry}
use crypto_shloma.Storage.Keyed.Laws.{key-lookup}
use crypto_shloma.Storage.Markets.{MarketsStorage, find_market_by_id, market_id}
use crypto_shloma.Storage.Orders.{is_of, order_id, entry_order_id, order_of, make_order}

assign_type : (old v : OrderType) → assign (not (type_eq old v)) old v ≡ v
assign_type old v = ground arith

assign_id : (old v : ℕ) → assign (not (old == v)) old v ≡ v
assign_id old v = ground arith

module _ ⦃q : Qt⦄ where
  create_lem :
      (c : Order.Config)
      → ((Order.create c).config.order_id ≡ c.order_id) × ((Order.create c).config.type ≡ c.type)
  unfolding Order.create
  create_lem c = (assign_id 0 c.order_id, assign_type OrderType.buy c.type)

  -- What `make_order` returns.
  pub record MadeFrom (e : OrderEntry) (o : Order) : Type 0 where
    pub id : order_id o ≡ entry_order_id e
    pub market : o.market ≡ some e.market_id
    pub type : o.config.type ≡ e.params.type

  found_id :
      (markets : MarketsStorage) (id : String) (m : Market)
      → find_market_by_id markets id ≡ some m
      → market_id m ≡ id
  unfolding find_market_by_id
  found_id markets id m h = key-lookup market_id str_eq eq_iff id markets.markets m h

  order_of-MadeFrom :
      (e : OrderEntry) (found : Option Market) (o : Order)
      → ((m : Market) → found ≡ some m → market_id m ≡ e.market_id)
      → order_of e found ≡ some o
      → MadeFrom e o
  unfolding Order.set_market
  order_of-MadeFrom e none o known h = cc
  order_of-MadeFrom e (some m) o known h = subst (MadeFrom e) (some-injective _ _ h) (record {
    id = (create_lem e.params).0;
    market = ap some (known m refl);
    type = (create_lem e.params).1;
  })

  pub make_order-MadeFrom :
      (markets : MarketsStorage) (e : OrderEntry) (o : Order)
      → make_order markets e ≡ some o
      → MadeFrom e o
  unfolding make_order
  make_order-MadeFrom markets e o = order_of-MadeFrom e _ o (found_id markets e.market_id)

  pub is_of-false :
      (o : Order) (m id : String)
      → o.market ≡ some m
      → not (is_of id o) ≡ true
      → str_eq m id ≡ false
  is_of-false o m id e t = ground arith
