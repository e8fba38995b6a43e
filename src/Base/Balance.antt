-- ===== src/Base/Balance.antt =====
-- src/base/balance.h and balance.cpp.
use crypto_shloma.Prelude.{String, Bool, not, [], Option, none, str_eq}
use crypto_shloma.Qt.{Qt}
use crypto_shloma.Base.Method.{Method, ◌>>◌, assign, emit}

pub data Status : Type 0 where
  ok maintenance : Status

abbrev pub status_eq : Status → Status → Bool
status_eq Status.ok Status.ok = Bool.true
status_eq Status.maintenance Status.maintenance = Bool.true
status_eq _ _ = Bool.false

pub data Signal : Type 0 where
  status_message_changed total_changed available_changed held_for_trades_changed status_changed :
      Signal

module _ ⦃q : Qt⦄ where
  open q use {Qreal, QDateTime, literal, fuzzy_compare, null_date, date_eq}

  pub record Config : Type 0 where
    pub timestamp : QDateTime
    pub status_message : String
    pub total : Qreal
    pub available : Qreal
    pub held_for_trades : Qreal
    pub status : Status

  -- `m_currency` points at a currency, whose id never changes; `none` is the null pointer.
  pub record Balance : Type 0 where
    pub currency : Option String
    pub config : Config

  abbrev pub default_config : Config
  default_config = record {
    timestamp = null_date;
    status_message = "";
    total = literal 0 0;
    available = literal 0 0;
    held_for_trades = literal 0 0;
    status = Status.ok;
  }

  unfoldable pub set_currency : Option String → Balance → Balance
  set_currency value o = record o { currency = value }

  unfoldable pub set_status_message : String → Method Balance Signal
  set_status_message value o =
      let changed = not (str_eq o.config.status_message value) in
      (
        record o {
          config = record (o.config) {
            status_message = assign changed o.config.status_message value;
          };
        },
        emit changed Signal.status_message_changed,
      )

  unfoldable pub set_total : Qreal → Method Balance Signal
  set_total value o =
      let changed = not (fuzzy_compare o.config.total value) in
      (
        record o { config = record (o.config) { total = assign changed o.config.total value } },
        emit changed Signal.total_changed,
      )

  unfoldable pub set_available : Qreal → Method Balance Signal
  set_available value o =
      let changed = not (fuzzy_compare o.config.available value) in
      (
        record o {
          config = record (o.config) { available = assign changed o.config.available value };
        },
        emit changed Signal.available_changed,
      )

  unfoldable pub set_held_for_trades : Qreal → Method Balance Signal
  set_held_for_trades value o =
      let changed = not (fuzzy_compare o.config.held_for_trades value) in
      (
        record o {
          config = record (o.config) {
            held_for_trades = assign changed o.config.held_for_trades value;
          };
        },
        emit changed Signal.held_for_trades_changed,
      )

  unfoldable pub set_status : Status → Method Balance Signal
  set_status value o =
      let changed = not (status_eq o.config.status value) in
      (
        record o { config = record (o.config) { status = assign changed o.config.status value } },
        emit changed Signal.status_changed,
      )

  -- No signal belongs to the timestamp.
  unfoldable pub set_timestamp : QDateTime → Method Balance Signal
  set_timestamp value o =
      let changed = not (date_eq o.config.timestamp value) in
      (
        record o {
          config = record (o.config) { timestamp = assign changed o.config.timestamp value };
        },
        [],
      )

  unfoldable pub set_config : Config → Method Balance Signal
  unfolding set_total set_available set_status_message set_held_for_trades set_status set_timestamp
  set_config config = do
    set_total config.total
    set_available config.available
    set_status_message config.status_message
    set_held_for_trades config.held_for_trades
    set_status config.status
    set_timestamp config.timestamp

  -- `Balance(const Config &)`.
  unfoldable pub create : Config → Balance
  unfolding set_config
  create config = (set_config config (record { currency = none; config = default_config })).0
