-- ===== src/Storage/Orders.antt =====
-- What the three storages of orders share: the market of an order, `std::copy_if` with `std::sort`,
-- and the making of an order from a report.
pub mod Filter
pub mod Make
use crypto_shloma.Prelude.{ℕ, String, Bool, ◌&&◌, List, Option, none, some, str_eq, filter}
use crypto_shloma.Qt.{Qt}
use crypto_shloma.Base.Order as Order
use crypto_shloma.Base.Order.{Order, OrderType, type_eq}
use crypto_shloma.Base.Market.Data.{Market}
use crypto_shloma.Api.Entry.{OrderEntry}
use crypto_shloma.Storage.Markets.{MarketsStorage, find_market_by_id}

module _ ⦃q : Qt⦄ where
  -- `order->getMarket()->getId() == id`. The market is set before an order is stored, so it is not
  -- null where it is read.
  abbrev pub is_of : String → Order → Bool
  is_of id o = elim o.market [ none ↦ Bool.false | some m ↦ str_eq m id ]

  abbrev pub order_id : Order → ℕ
  order_id o = o.config.order_id

  abbrev pub entry_order_id : OrderEntry → ℕ
  entry_order_id e = e.params.order_id

  -- The comparison of the sorts: newest first.
  abbrev pub newer : Order → Order → Bool
  newer a b = q.date_lt b.config.time_stamp a.config.time_stamp

  abbrev pub newest_first : List Order → List Order
  newest_first = q.sort Order newer

  abbrev pub matches : String → OrderType → Order → Bool
  matches id type o = is_of id o && type_eq o.config.type type

  -- An order of a market that is not known is dropped.
  abbrev pub order_of : OrderEntry → Option Market → Option Order
  order_of e none = none
  order_of e (some m) = some (Order.set_market (some m.config.id) (Order.create e.params))

  unfoldable pub make_order : MarketsStorage → OrderEntry → Option Order
  make_order markets e = order_of e (find_market_by_id markets e.market_id)
