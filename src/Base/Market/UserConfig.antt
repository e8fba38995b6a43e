-- ===== src/Base/Market/UserConfig.antt =====
-- src/base/market.cpp: the setters of `m_userConfig`, `setUserConfig` and its `operator==`.
use crypto_shloma.Prelude.{Bool, not, ◌&&◌, bool_eq}
use crypto_shloma.Qt.{Qt}
use crypto_shloma.Base.Method.{Method, ◌>>◌, assign, emit}
use crypto_shloma.Base.Market.Data.{Signal, UserConfig, Market, significant}

module _ ⦃q : Qt⦄ where
  open q use {
    Qreal, QDateTime, QJsonObject, literal, div, fuzzy_compare, date_eq, date_is_null, object_eq,
  }

  unfoldable pub set_trade_summ : Qreal → Method Market Signal
  set_trade_summ value o =
      let changed = significant o.user_config.trade_summ value in
      (
        record o {
          user_config = record (o.user_config) {
            trade_summ = assign changed o.user_config.trade_summ value;
          };
        },
        emit changed Signal.trade_summ_changed,
      )

  unfoldable pub set_last_rate_update_time : QDateTime → Method Market Signal
  set_last_rate_update_time value o =
      let changed =
        not (date_eq o.user_config.last_rate_update_time value) && not (date_is_null value) in
      (
        record o {
          user_config = record (o.user_config) {
            last_rate_update_time = assign changed o.user_config.last_rate_update_time value;
          };
        },
        emit changed Signal.last_rate_update_time_changed,
      )

  unfoldable pub set_current_trend_rate : Qreal → Method Market Signal
  set_current_trend_rate value o =
      let changed = not (fuzzy_compare o.user_config.current_trend_rate value) in
      (
        record o {
          user_config = record (o.user_config) {
            current_trend_rate = assign changed o.user_config.current_trend_rate value;
          };
        },
        emit changed Signal.current_trend_rate_changed,
      )

  unfoldable pub set_percentage_profit : Qreal → Method Market Signal
  set_percentage_profit value o =
      let changed = not (fuzzy_compare o.user_config.percentage_profit value) in
      (
        record o {
          user_config = record (o.user_config) {
            percentage_profit = assign changed o.user_config.percentage_profit value;
          };
        },
        emit changed Signal.percentage_profit_changed,
      )

  unfoldable pub set_min_trend : Qreal → Method Market Signal
  set_min_trend value o =
      let changed = not (fuzzy_compare o.user_config.min_trend value) in
      (
        record o {
          user_config = record (o.user_config) {
            min_trend = assign changed o.user_config.min_trend value;
          };
        },
        emit changed Signal.min_trend_changed,
      )

  unfoldable pub set_is_tradable : Bool → Method Market Signal
  set_is_tradable value o =
      let changed = not (bool_eq o.user_config.is_tradable value) in
      (
        record o {
          user_config = record (o.user_config) {
            is_tradable = assign changed o.user_config.is_tradable value;
          };
        },
        emit changed Signal.is_tradable_changed,
      )

  unfoldable pub set_is_volume_trading : Bool → Method Market Signal
  set_is_volume_trading value o =
      let changed = not (bool_eq o.user_config.is_volume_trading value) in
      (
        record o {
          user_config = record (o.user_config) {
            is_volume_trading = assign changed o.user_config.is_volume_trading value;
          };
        },
        emit changed Signal.is_volume_trading_changed,
      )

  unfoldable pub set_pause_mode : Bool → Method Market Signal
  set_pause_mode value o =
      let changed = not (bool_eq o.user_config.pause_mode value) in
      (
        record o {
          user_config = record (o.user_config) {
            pause_mode = assign changed o.user_config.pause_mode value;
          };
        },
        emit changed Signal.pause_mode_changed,
      )

  unfoldable pub set_sell_mode : Bool → Method Market Signal
  set_sell_mode value o =
      let changed = not (bool_eq o.user_config.sell_mode value) in
      (
        record o {
          user_config = record (o.user_config) {
            sell_mode = assign changed o.user_config.sell_mode value;
          };
        },
        emit changed Signal.sell_mode_changed,
      )

  unfoldable pub set_buy_mode : Bool → Method Market Signal
  set_buy_mode value o =
      let changed = not (bool_eq o.user_config.buy_mode value) in
      (
        record o {
          user_config = record (o.user_config) {
            buy_mode = assign changed o.user_config.buy_mode value;
          };
        },
        emit changed Signal.buy_mode_changed,
      )

  unfoldable pub set_meta_config : QJsonObject → Method Market Signal
  set_meta_config value o =
      let changed = not (object_eq o.user_config.meta_config value) in
      (
        record o {
          user_config = record (o.user_config) {
            meta_config = assign changed o.user_config.meta_config value;
          };
        },
        emit changed Signal.meta_config_changed,
      )

  unfoldable pub set_user_config : UserConfig → Method Market Signal
  unfolding set_sell_mode set_buy_mode set_pause_mode set_min_trend set_current_trend_rate
      set_last_rate_update_time set_percentage_profit set_is_volume_trading set_is_tradable
      set_meta_config set_trade_summ
  set_user_config config = do
    set_sell_mode config.sell_mode
    set_buy_mode config.buy_mode
    set_pause_mode config.pause_mode
    set_min_trend config.min_trend
    set_current_trend_rate config.current_trend_rate
    set_last_rate_update_time config.last_rate_update_time
    set_percentage_profit config.percentage_profit
    set_is_volume_trading config.is_volume_trading
    set_is_tradable config.is_tradable
    set_meta_config config.meta_config
    set_trade_summ config.trade_summ

  -- `getPercentageProfit100thPercent`.
  unfoldable pub get_percentage_profit_100th : Market → Qreal
  get_percentage_profit_100th o = div o.user_config.percentage_profit (literal 100 0)

  -- `Market::UserConfig::operator==`.
  unfoldable pub user_config_eq : UserConfig → UserConfig → Bool
  user_config_eq a o =
      date_eq a.last_rate_update_time o.last_rate_update_time
      && (fuzzy_compare a.percentage_profit o.percentage_profit
          && (fuzzy_compare a.min_trend o.min_trend
              && (fuzzy_compare a.current_trend_rate o.current_trend_rate
                  && (bool_eq a.is_tradable o.is_tradable
                      && (bool_eq a.is_volume_trading o.is_volume_trading
                          && (bool_eq a.pause_mode o.pause_mode
                              && (bool_eq a.sell_mode o.sell_mode
                                  && (bool_eq a.buy_mode o.buy_mode
                                      && (object_eq a.meta_config o.meta_config
                                          && fuzzy_compare a.trade_summ o.trade_summ)))))))))
