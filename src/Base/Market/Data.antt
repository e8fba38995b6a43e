-- ===== src/Base/Market/Data.antt =====
-- src/base/market.h: the configurations, the object and its signals.
use crypto_shloma.Prelude.{String, Bool, Option, not, ◌&&◌}
use crypto_shloma.Qt.{Qt}

pub data Status : Type 0 where
  ok closed paused : Status

abbrev pub status_eq : Status → Status → Bool
status_eq Status.ok Status.ok = Bool.true
status_eq Status.closed Status.closed = Bool.true
status_eq Status.paused Status.paused = Bool.true
status_eq _ _ = Bool.false

pub data Signal : Type 0 where
  status_changed status_message_changed last_rate_update_time_changed : Signal
  ask_price_changed bid_price_changed low_changed high_changed volume_changed : Signal
  last_price_changed change_changed open_changed close_changed base_volume_changed : Signal
  spread_changed trade_fee_changed min_base_trade_price_changed : Signal
  max_base_trade_price_changed price_tick_changed min_base_volume_changed : Signal
  max_base_volume_changed min_notional_changed current_trend_rate_changed : Signal
  percentage_profit_changed min_trend_changed id_changed is_tradable_changed : Signal
  is_volume_trading_changed pause_mode_changed sell_mode_changed buy_mode_changed : Signal
  meta_config_changed trade_summ_changed : Signal

module _ ⦃q : Qt⦄ where
  open q use {
    Qreal, QDateTime, QJsonObject, literal, null_date, empty_object, fuzzy_compare, fuzzy_is_null,
  }

  pub record UserConfig : Type 0 where
    pub last_rate_update_time : QDateTime
    pub percentage_profit : Qreal
    pub min_trend : Qreal
    pub current_trend_rate : Qreal
    pub is_tradable : Bool
    pub is_volume_trading : Bool
    pub pause_mode : Bool
    pub sell_mode : Bool
    pub buy_mode : Bool
    pub meta_config : QJsonObject
    pub trade_summ : Qreal

  pub record Config : Type 0 where
    pub status_message : String
    pub ask_price : Qreal
    pub bid_price : Qreal
    pub low : Qreal
    pub high : Qreal
    pub volume : Qreal
    pub last_price : Qreal
    pub change : Qreal
    pub open_price : Qreal
    pub close_price : Qreal
    pub base_volume : Qreal
    pub spread : Qreal
    pub min_base_trade_price : Qreal
    pub max_base_trade_price : Qreal
    pub price_tick_size : Qreal
    pub volume_step_size : Qreal
    pub min_base_volume : Qreal
    pub max_base_volume : Qreal
    pub min_notional : Qreal
    pub trade_fee : Qreal
    pub status : Status
    pub id : String

  -- The currencies are pointers at objects whose ids never change; `none` is the null pointer.
  pub record Market : Type 0 where
    pub trade_currency : Option String
    pub base_currency : Option String
    pub user_config : UserConfig
    pub config : Config

  abbrev pub default_config : Config
  default_config = record {
    status_message = "";
    ask_price = literal 0 0;
    bid_price = literal 0 0;
    low = literal 0 0;
    high = literal 0 0;
    volume = literal 0 0;
    last_price = literal 0 0;
    change = literal 0 0;
    open_price = literal 0 0;
    close_price = literal 0 0;
    base_volume = literal 0 0;
    spread = literal 0 0;
    min_base_trade_price = literal 0 0;
    max_base_trade_price = literal 0 0;
    price_tick_size = literal 0 0;
    volume_step_size = literal 0 0;
    min_base_volume = literal 0 0;
    max_base_volume = literal 0 0;
    min_notional = literal 0 0;
    trade_fee = literal 0 0;
    status = Status.ok;
    id = "";
  }

  abbrev pub default_user_config : UserConfig
  default_user_config = record {
    last_rate_update_time = null_date;
    percentage_profit = literal 0 0;
    min_trend = literal 0 0;
    current_trend_rate = literal 0 0;
    is_tradable = Bool.false;
    is_volume_trading = Bool.false;
    pause_mode = Bool.false;
    sell_mode = Bool.false;
    buy_mode = Bool.false;
    meta_config = empty_object;
    trade_summ = literal 0 0;
  }

  -- The test of most setters: the value differs, and is not null.
  abbrev pub significant : Qreal → Qreal → Bool
  significant old value = not (fuzzy_compare old value) && not (fuzzy_is_null value)
