-- ===== src/Algo/Action.antt =====
-- What a step of the algorithm does to the world around it, and src/algo/hanukkah/i_step.cpp's
-- `updateMarketMetaConfig`.
use crypto_shloma.Prelude.{
  ℕ, ℤ, pos, ◌+ℤ◌, String, Bool, ◌&&◌, List, [], ◌∷◌, modify_first, not, if◌then◌else◌,
}
use crypto_shloma.Qt.{Qt}
use crypto_shloma.Base.Order.{OrderType}
use crypto_shloma.Base.Market.Data.{Market, UserConfig}
use crypto_shloma.Storage.Balances.{BalancesStorage}
use crypto_shloma.Storage.OpenOrders.{OpenOrders}
use crypto_shloma.Storage.MarketOrders.{MarketOrders}
use crypto_shloma.Storage.TradeHistory.{TradeHistory}
use crypto_shloma.Algo.Chain.{Step}

module _ ⦃q : Qt⦄ where
  open q use {
    Qreal, QDateTime, QJsonObject, QJsonValue, value, insert, to_int, to_double, to_array,
    to_object, to_string, of_int, of_bool, of_string, of_array, of_object, fuzzy_compare,
  }

  -- A row of the table `markets_cache`, as the statements write it.
  pub record CacheRow : Type 0 where
    pub min_trend : Qreal
    pub cur_trend_rate : Qreal
    pub sell_mode : Bool
    pub pause_mode : Bool
    pub percentage_profit : Qreal
    pub is_volume_trading : Bool
    pub meta_config : QJsonObject
    pub timestamp : QDateTime
    pub trade_summ : Qreal
    pub exchange : ℕ
    pub market_id : String

  pub data Action : Type 0 where
    -- `IExchangeAPI::submitOrder`: market, type, price, base volume, volume.
    submit_order : String → OrderType → Qreal → Qreal → Qreal → Action
    -- `IExchangeAPI::cancelOrder` by order id.
    cancel_order : ℕ → String → Action
    -- `Hanukkah::unlockAllSteps`.
    unlock_all_steps : String → Action
    -- The queued call of `updateMarketConfig`.
    update_market_config : String → UserConfig → Action
    update_row insert_row : CacheRow → Action
    -- `DELETE FROM markets_cache` for an exchange and a market.
    delete_row : ℕ → String → Action

  -- What a step reads: its market, the storages of the exchange, the number of the exchange, and
  -- whether `markets_cache` has a row for the market.
  pub record View : Type 0 where
    pub market : Market
    pub balances : BalancesStorage
    pub open_orders : OpenOrders
    pub market_orders : MarketOrders
    pub trade_history : TradeHistory
    pub exchange : ℕ
    pub cached : Bool

  abbrev pub meta_of : View → QJsonObject
  meta_of v = v.market.user_config.meta_config

  abbrev pub exec_steps : View → ℤ
  exec_steps v = to_int (value (meta_of v) "execSteps")

  abbrev pub max_steps : View → ℤ
  max_steps v = to_int (value (meta_of v) "maxSteps")

  abbrev pub table_of : QJsonObject → List QJsonValue
  table_of meta_config = to_array (value meta_config "hannukahTable")

  abbrev pub cycle_start : QJsonObject → QDateTime
  cycle_start meta_config = q.date_of_iso (to_string (value meta_config "cycleTimeStart"))

  -- The entry of the table for a step, by its two numbers.
  abbrev pub is_entry_of : Step → QJsonValue → Bool
  is_entry_of s e =
      fuzzy_compare (to_double (value (to_object e) "step")) s.decline_perc
      && fuzzy_compare (to_double (value (to_object e) "growth")) s.growth

  abbrev pub with_flags : Bool → Bool → QJsonValue → QJsonValue
  with_flags buy sell e = of_object (
      insert (insert (to_object e) "buyStepBlocked" (of_bool buy)) "sellStepBlocked" (of_bool sell))

  abbrev pub start_cycle : QDateTime → QJsonObject → QJsonObject
  start_cycle cycle_time meta_config =
      if q.date_is_null (cycle_start meta_config) && not (q.date_is_valid (cycle_start meta_config))
      then insert meta_config "cycleTimeStart" (of_string (q.date_to_iso cycle_time))
      else meta_config

  -- The first part: a completed buy is counted, and the first one starts the cycle.
  unfoldable pub count_completed : Bool → Step → QDateTime → QJsonObject → QJsonObject
  count_completed completed s cycle_time meta_config =
      if completed && s.buy_blocked
      then start_cycle cycle_time (
          insert meta_config "execSteps" (of_int (to_int (value meta_config "execSteps") +ℤ pos 1)))
      else meta_config

  -- The loop over the table: the flags of the step go into its entry.
  unfoldable pub write_flags : Step → QJsonObject → QJsonObject
  unfolding modify_first
  write_flags s meta_config = insert meta_config "hannukahTable" (
      of_array (
        modify_first (is_entry_of s) (with_flags s.buy_blocked s.sell_blocked)
          (table_of meta_config)))

  abbrev pub row_of : View → QJsonObject → CacheRow
  row_of v meta_config = record {
    min_trend = v.market.user_config.min_trend;
    cur_trend_rate = v.market.user_config.current_trend_rate;
    sell_mode = v.market.user_config.sell_mode;
    pause_mode = v.market.user_config.pause_mode;
    percentage_profit = v.market.user_config.percentage_profit;
    is_volume_trading = v.market.user_config.is_volume_trading;
    meta_config = meta_config;
    timestamp = v.market.user_config.last_rate_update_time;
    trade_summ = v.market.user_config.trade_summ;
    exchange = v.exchange;
    market_id = v.market.config.id;
  }

  unfoldable pub update_market_meta_config : Bool → QDateTime → View → Step → List Action
  unfolding count_completed write_flags
  update_market_meta_config completed cycle_time v s =
      let meta_config = write_flags s (count_completed completed s cycle_time (meta_of v)) in
      update_market_config v.market.config.id
        (record (v.market.user_config) { meta_config = meta_config })
      ∷ (if v.cached then update_row (row_of v meta_config) else insert_row (row_of v meta_config))
      ∷ []
