-- ===== src/Base/Market/Setters.antt =====
-- src/base/market.cpp: the setters of `m_config` and `setConfig`.
use crypto_shloma.Prelude.{String, not, ◌&&◌, [], Option, none, str_eq, is_empty_text}
use crypto_shloma.Qt.{Qt}
use crypto_shloma.Base.Method.{Method, ◌>>◌, assign, emit}
use crypto_shloma.Base.Market.Data.{
  Status, status_eq, Signal, Config, Market, default_config, default_user_config, significant,
}

module _ ⦃q : Qt⦄ where
  open q use {Qreal}

  unfoldable pub set_status_message : String → Method Market Signal
  set_status_message value o =
      let changed = not (str_eq o.config.status_message value) && not (is_empty_text value) in
      (
        record o {
          config = record (o.config) {
            status_message = assign changed o.config.status_message value;
          };
        },
        emit changed Signal.status_message_changed,
      )

  unfoldable pub set_ask_price : Qreal → Method Market Signal
  set_ask_price value o =
      let changed = significant o.config.ask_price value in
      (
        record o {
          config = record (o.config) { ask_price = assign changed o.config.ask_price value };
        },
        emit changed Signal.ask_price_changed,
      )

  unfoldable pub set_bid_price : Qreal → Method Market Signal
  set_bid_price value o =
      let changed = significant o.config.bid_price value in
      (
        record o {
          config = record (o.config) { bid_price = assign changed o.config.bid_price value };
        },
        emit changed Signal.bid_price_changed,
      )

  unfoldable pub set_low : Qreal → Method Market Signal
  set_low value o =
      let changed = significant o.config.low value in
      (
        record o { config = record (o.config) { low = assign changed o.config.low value } },
        emit changed Signal.low_changed,
      )

  unfoldable pub set_high : Qreal → Method Market Signal
  set_high value o =
      let changed = significant o.config.high value in
      (
        record o { config = record (o.config) { high = assign changed o.config.high value } },
        emit changed Signal.high_changed,
      )

  unfoldable pub set_volume : Qreal → Method Market Signal
  set_volume value o =
      let changed = significant o.config.volume value in
      (
        record o { config = record (o.config) { volume = assign changed o.config.volume value } },
        emit changed Signal.volume_changed,
      )

  unfoldable pub set_last_price : Qreal → Method Market Signal
  set_last_price value o =
      let changed = significant o.config.last_price value in
      (
        record o {
          config = record (o.config) { last_price = assign changed o.config.last_price value };
        },
        emit changed Signal.last_price_changed,
      )

  unfoldable pub set_change : Qreal → Method Market Signal
  set_change value o =
      let changed = significant o.config.change value in
      (
        record o { config = record (o.config) { change = assign changed o.config.change value } },
        emit changed Signal.change_changed,
      )

  unfoldable pub set_open : Qreal → Method Market Signal
  set_open value o =
      let changed = significant o.config.open_price value in
      (
        record o {
          config = record (o.config) { open_price = assign changed o.config.open_price value };
        },
        emit changed Signal.open_changed,
      )

  unfoldable pub set_close : Qreal → Method Market Signal
  set_close value o =
      let changed = significant o.config.close_price value in
      (
        record o {
          config = record (o.config) { close_price = assign changed o.config.close_price value };
        },
        emit changed Signal.close_changed,
      )

  unfoldable pub set_base_volume : Qreal → Method Market Signal
  set_base_volume value o =
      let changed = significant o.config.base_volume value in
      (
        record o {
          config = record (o.config) { base_volume = assign changed o.config.base_volume value };
        },
        emit changed Signal.base_volume_changed,
      )

  unfoldable pub set_spread : Qreal → Method Market Signal
  set_spread value o =
      let changed = significant o.config.spread value in
      (
        record o { config = record (o.config) { spread = assign changed o.config.spread value } },
        emit changed Signal.spread_changed,
      )

  unfoldable pub set_min_base_price : Qreal → Method Market Signal
  set_min_base_price value o =
      let changed = significant o.config.min_base_trade_price value in
      (
        record o {
          config = record (o.config) {
            min_base_trade_price = assign changed o.config.min_base_trade_price value;
          };
        },
        emit changed Signal.min_base_trade_price_changed,
      )

  unfoldable pub set_max_base_price : Qreal → Method Market Signal
  set_max_base_price value o =
      let changed = significant o.config.max_base_trade_price value in
      (
        record o {
          config = record (o.config) {
            max_base_trade_price = assign changed o.config.max_base_trade_price value;
          };
        },
        emit changed Signal.max_base_trade_price_changed,
      )

  unfoldable pub set_price_tick_size : Qreal → Method Market Signal
  set_price_tick_size value o =
      let changed = significant o.config.price_tick_size value in
      (
        record o {
          config = record (o.config) {
            price_tick_size = assign changed o.config.price_tick_size value;
          };
        },
        emit changed Signal.price_tick_changed,
      )

  unfoldable pub set_volume_step_size : Qreal → Method Market Signal
  set_volume_step_size value o =
      let changed = significant o.config.volume_step_size value in
      (
        record o {
          config = record (o.config) {
            volume_step_size = assign changed o.config.volume_step_size value;
          };
        },
        [],
      )

  unfoldable pub set_min_base_volume : Qreal → Method Market Signal
  set_min_base_volume value o =
      let changed = significant o.config.min_base_volume value in
      (
        record o {
          config = record (o.config) {
            min_base_volume = assign changed o.config.min_base_volume value;
          };
        },
        emit changed Signal.min_base_volume_changed,
      )

  unfoldable pub set_max_base_volume : Qreal → Method Market Signal
  set_max_base_volume value o =
      let changed = significant o.config.max_base_volume value in
      (
        record o {
          config = record (o.config) {
            max_base_volume = assign changed o.config.max_base_volume value;
          };
        },
        emit changed Signal.max_base_volume_changed,
      )

  unfoldable pub set_min_notional : Qreal → Method Market Signal
  set_min_notional value o =
      let changed = significant o.config.min_notional value in
      (
        record o {
          config = record (o.config) { min_notional = assign changed o.config.min_notional value };
        },
        emit changed Signal.min_notional_changed,
      )

  unfoldable pub set_trade_fee : Qreal → Method Market Signal
  set_trade_fee value o =
      let changed = significant o.config.trade_fee value in
      (
        record o {
          config = record (o.config) { trade_fee = assign changed o.config.trade_fee value };
        },
        emit changed Signal.trade_fee_changed,
      )

  unfoldable pub set_status : Status → Method Market Signal
  set_status value o =
      let changed = not (status_eq o.config.status value) in
      (
        record o { config = record (o.config) { status = assign changed o.config.status value } },
        emit changed Signal.status_changed,
      )

  unfoldable pub set_id : String → Method Market Signal
  set_id value o =
      let changed = not (str_eq o.config.id value) in
      (
        record o { config = record (o.config) { id = assign changed o.config.id value } },
        emit changed Signal.id_changed,
      )

  unfoldable pub set_currency : Option String → Market → Market
  set_currency value o = record o { trade_currency = value }

  unfoldable pub set_base_currency : Option String → Market → Market
  set_base_currency value o = record o { base_currency = value }

  unfoldable pub set_config : Config → Method Market Signal
  unfolding set_status_message set_ask_price set_bid_price set_low set_high set_volume
      set_last_price set_change set_open set_close set_base_volume set_spread set_min_base_price
      set_max_base_price set_price_tick_size set_volume_step_size set_min_base_volume
      set_max_base_volume set_min_notional set_trade_fee set_status
  set_config config = do
    set_status_message config.status_message
    set_ask_price config.ask_price
    set_bid_price config.bid_price
    set_low config.low
    set_high config.high
    set_volume config.volume
    set_last_price config.last_price
    set_change config.change
    set_open config.open_price
    set_close config.close_price
    set_base_volume config.base_volume
    set_spread config.spread
    set_min_base_price config.min_base_trade_price
    set_max_base_price config.max_base_trade_price
    set_price_tick_size config.price_tick_size
    set_volume_step_size config.volume_step_size
    set_min_base_volume config.min_base_volume
    set_max_base_volume config.max_base_volume
    set_min_notional config.min_notional
    set_trade_fee config.trade_fee
    set_status config.status

  -- `Market(const Config &)`.
  unfoldable pub create : Config → Market
  unfolding set_id set_config
  create config =
      ((set_id config.id >> set_config config) (record {
        trade_currency = none;
        base_currency = none;
        user_config = default_user_config;
        config = default_config;
      })).0
