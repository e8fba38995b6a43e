-- ===== src/Base/Order.antt =====
-- src/base/order.h and order.cpp.
use crypto_shloma.Prelude.{ℕ, String, Bool, not, ◌&&◌, Option, none, ltb, ◌==◌}
use crypto_shloma.Qt.{Qt}
use crypto_shloma.Base.Method.{Method, ◌>>◌, assign, emit}

pub data OrderType : Type 0 where
  buy sell no_type : OrderType

abbrev pub type_eq : OrderType → OrderType → Bool
type_eq OrderType.buy OrderType.buy = Bool.true
type_eq OrderType.sell OrderType.sell = Bool.true
type_eq OrderType.no_type OrderType.no_type = Bool.true
type_eq _ _ = Bool.false

-- An `OrderId` is a `quint64`; it is valid if it is above 0.
abbrev pub id_is_valid : ℕ → Bool
id_is_valid id = ltb 0 id

unfoldable pub to_order_type_string : OrderType → String
to_order_type_string OrderType.buy = "Buy"
to_order_type_string _ = "Sell"

pub data Signal : Type 0 where
  time_stamp_changed updated_time_stamp_changed price_changed currency_volume_changed : Signal
  base_volume_changed fee_changed remaining_changed order_id_changed type_changed : Signal

module _ ⦃q : Qt⦄ where
  open q use {
    Qreal, QDateTime, literal, fuzzy_compare, fuzzy_is_null, null_date, date_eq, date_is_null,
  }

  pub record Config : Type 0 where
    pub time_stamp : QDateTime
    pub updated_time_stamp : QDateTime
    pub price : Qreal
    pub currency_volume : Qreal
    pub base_volume : Qreal
    pub fee : Qreal
    pub remaining : Qreal
    pub order_id : ℕ
    pub type : OrderType

  -- `m_market` points at a market, whose id never changes; `none` is the null pointer.
  pub record Order : Type 0 where
    pub config : Config
    pub market : Option String

  abbrev pub default_config : Config
  default_config = record {
    time_stamp = null_date;
    updated_time_stamp = null_date;
    price = literal 0 0;
    currency_volume = literal 0 0;
    base_volume = literal 0 0;
    fee = literal 0 0;
    remaining = literal 0 0;
    order_id = 0;
    type = OrderType.buy;
  }

  -- The test of most setters: the value differs, and is not null.
  abbrev significant : Qreal → Qreal → Bool
  significant old value = not (fuzzy_compare old value) && not (fuzzy_is_null value)

  abbrev fresh_stamp : QDateTime → QDateTime → Bool
  fresh_stamp old value = not (date_eq old value) && not (date_is_null value)

  unfoldable pub set_market : Option String → Order → Order
  set_market value o = record o { market = value }

  unfoldable pub set_time_stamp : QDateTime → Method Order Signal
  set_time_stamp value o =
      let changed = fresh_stamp o.config.time_stamp value in
      (
        record o {
          config = record (o.config) { time_stamp = assign changed o.config.time_stamp value };
        },
        emit changed Signal.time_stamp_changed,
      )

  unfoldable pub set_updated_time_stamp : QDateTime → Method Order Signal
  set_updated_time_stamp value o =
      let changed = fresh_stamp o.config.updated_time_stamp value in
      (
        record o {
          config = record (o.config) {
            updated_time_stamp = assign changed o.config.updated_time_stamp value;
          };
        },
        emit changed Signal.updated_time_stamp_changed,
      )

  unfoldable pub set_price : Qreal → Method Order Signal
  set_price value o =
      let changed = significant o.config.price value in
      (
        record o { config = record (o.config) { price = assign changed o.config.price value } },
        emit changed Signal.price_changed,
      )

  unfoldable pub set_currency_volume : Qreal → Method Order Signal
  set_currency_volume value o =
      let changed = significant o.config.currency_volume value in
      (
        record o {
          config = record (o.config) {
            currency_volume = assign changed o.config.currency_volume value;
          };
        },
        emit changed Signal.currency_volume_changed,
      )

  unfoldable pub set_base_volume : Qreal → Method Order Signal
  set_base_volume value o =
      let changed = significant o.config.base_volume value in
      (
        record o {
          config = record (o.config) { base_volume = assign changed o.config.base_volume value };
        },
        emit changed Signal.base_volume_changed,
      )

  unfoldable pub set_fee : Qreal → Method Order Signal
  set_fee value o =
      let changed = significant o.config.fee value in
      (
        record o { config = record (o.config) { fee = assign changed o.config.fee value } },
        emit changed Signal.fee_changed,
      )

  unfoldable pub set_remaining : Qreal → Method Order Signal
  set_remaining value o =
      let changed = not (fuzzy_compare o.config.remaining value) in
      (
        record o {
          config = record (o.config) { remaining = assign changed o.config.remaining value };
        },
        emit changed Signal.remaining_changed,
      )

  unfoldable pub set_order_id : ℕ → Method Order Signal
  set_order_id value o =
      let changed = not (o.config.order_id == value) in
      (
        record o {
          config = record (o.config) { order_id = assign changed o.config.order_id value };
        },
        emit changed Signal.order_id_changed,
      )

  unfoldable pub set_type : OrderType → Method Order Signal
  set_type value o =
      let changed = not (type_eq o.config.type value) in
      (
        record o { config = record (o.config) { type = assign changed o.config.type value } },
        emit changed Signal.type_changed,
      )

  unfoldable pub set_config : Config → Method Order Signal
  unfolding set_time_stamp set_updated_time_stamp set_price set_currency_volume set_base_volume
      set_fee set_remaining set_type
  set_config config = do
    set_time_stamp config.time_stamp
    set_updated_time_stamp config.updated_time_stamp
    set_price config.price
    set_currency_volume config.currency_volume
    set_base_volume config.base_volume
    set_fee config.fee
    set_remaining config.remaining
    set_type config.type

  -- `Order(const Config &)`.
  unfoldable pub create : Config → Order
  unfolding set_order_id set_config
  create config =
      ((set_order_id config.order_id >> set_config config)
        (record { config = default_config; market = none })).0
