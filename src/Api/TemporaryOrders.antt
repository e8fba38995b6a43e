-- ===== src/Api/TemporaryOrders.antt =====
-- src/api/temporary_orders_table.h and temporary_orders_table.cpp: the orders that were sent to the
-- exchange and are not confirmed yet.
pub mod Laws
use crypto_shloma.Prelude.{
  ℕ, String, Bool, true, false, ◌&&◌, List, [], ◌∷◌, ◌++◌, str_eq, ◌==◌, any, modify_first,
  erase_first, if◌then◌else◌,
}
use crypto_shloma.Qt.{Qt}
use crypto_shloma.Base.Order.{OrderType, type_eq, id_is_valid}

module _ ⦃q : Qt⦄ where
  open q use {Qreal, QDateTime, fuzzy_compare}

  pub record OrderRecord : Type 0 where
    pub market_id : String
    pub order_id : ℕ
    pub order_type : OrderType
    pub volume : Qreal
    pub base_volume : Qreal
    pub price : Qreal
    pub timestamp : QDateTime

  -- The constructor for a new order; `now` is the current time.
  unfoldable pub new_record : QDateTime → String → OrderType → Qreal → Qreal → Qreal → OrderRecord
  new_record now market_id type price base_volume volume = record {
    market_id = market_id;
    order_id = 0;
    order_type = type;
    volume = volume;
    base_volume = base_volume;
    price = price;
    timestamp = now;
  }

  -- The constructor for an order that the exchange knows.
  unfoldable pub known_record :
      String → ℕ → QDateTime → Qreal → Qreal → OrderType → Qreal → OrderRecord
  known_record market_id order_id timestamp price base_volume type volume = record {
    market_id = market_id;
    order_id = order_id;
    order_type = type;
    volume = volume;
    base_volume = base_volume;
    price = price;
    timestamp = timestamp;
  }

  -- `m_data`.
  abbrev pub Table : Type 0
  Table = List OrderRecord

  -- The test of the searches that have no order id.
  abbrev pub same_order : OrderRecord → OrderRecord → Bool
  same_order r x =
      str_eq x.market_id r.market_id
      && (fuzzy_compare x.price r.price
          && (fuzzy_compare x.base_volume r.base_volume && fuzzy_compare x.volume r.volume))

  abbrev pub has_id : ℕ → OrderRecord → Bool
  has_id id x = x.order_id == id

  abbrev pub same_kind : OrderRecord → OrderRecord → Bool
  same_kind r x = type_eq r.order_type x.order_type && str_eq r.market_id x.market_id

  unfoldable pub update_place_order : OrderRecord → Table → Table
  unfolding modify_first
  update_place_order r =
      modify_first (same_order r) (λ x. record x { order_id = r.order_id; timestamp = r.timestamp })

  -- `updateEraseOrder` for a record: by its id if that is valid and found, else by what it orders.
  unfoldable pub erase_record : OrderRecord → Table → Table
  unfolding erase_first
  erase_record r t =
      if id_is_valid r.order_id && any (has_id r.order_id) t
      then erase_first (has_id r.order_id) t
      else erase_first (same_order r) t

  -- `updateEraseOrder` for an order id.
  unfoldable pub erase_order : ℕ → Table → Table
  unfolding erase_first
  erase_order id = erase_first (has_id id)

  unfoldable pub submit_order : OrderRecord → Table → Table × Bool
  submit_order r t = if any (same_kind r) t then (t, false) else (t ++ r ∷ [], true)
