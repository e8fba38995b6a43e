-- ===== src/Algo/ZeroStep.antt =====
-- src/algo/hanukkah/zero_step.cpp, as in `Step`.
pub mod Safety
pub mod Selling
use crypto_shloma.Prelude.{
  Bool, true, false, not, ◌&&◌, List, [], ◌∷◌, Option, none, some, is_empty, if◌then◌else◌,
}
use crypto_shloma.Qt.{Qt}
use crypto_shloma.Base.Balance.{Balance}
use crypto_shloma.Base.Order.{Order, OrderType, type_eq}
use crypto_shloma.Algo.Chain.{Step}
use crypto_shloma.Algo.Action.{
  Action, submit_order, View, meta_of, table_of, update_market_meta_config,
}
use crypto_shloma.Algo.Step.{close_sell}
use crypto_shloma.Algo.Trade.{
  Quote, quote, place_sell, outgrown, cancel, own_id, open_of, history_of, balance_in,
}

module _ ⦃q : Qt⦄ where
  open q use {
    Qreal, QJsonValue, literal, add, mul, div, neg, lt, le, fuzzy_is_null, value, to_double,
    to_object,
  }

  -- The decline of step 1, if the table has more than two entries.
  abbrev pub first_step : List QJsonValue → Option Qreal
  first_step (_ ∷ e ∷ _ ∷ _) = some (to_double (value (to_object e) "step"))
  first_step _ = none

  unfoldable pub review_sell : View → Step → Qreal → Balance → Order → Step × List Action
  unfolding close_sell
  review_sell v s step balance o =
      if outgrown v balance o
      then (s, cancel v o ∷ [])
      else if lt v.market.user_config.current_trend_rate (neg step)
      then close_sell v s o
      else (s, [])

  -- The part behind the reading of the table.
  unfoldable pub sell_with : View → Step → Balance → Qreal → Step × List Action
  unfolding place_sell review_sell
  sell_with v s balance step =
      if fuzzy_is_null step then (s, []) else elim (open_of v OrderType.sell) [
        | [] ↦ (s, place_sell v balance)
        | o ∷ _ ↦ review_sell v s step balance o
      ]

  unfoldable pub execute_sell_logic : Option View → Step → Step × List Action
  unfolding sell_with
  execute_sell_logic none s = (s, [])
  execute_sell_logic (some v) s = elim (balance_in v v.market.trade_currency) [
    | none ↦ (s, [])
    | some balance ↦ elim (first_step (table_of (meta_of v))) [
      | none ↦ (s, [])
      | some step ↦ sell_with v s balance step
    ]
  ]

  -- The first purchase is complete if the last trade is a purchase; its time starts the cycle.
  unfoldable pub close_buy : View → Step → Step × List Action
  close_buy v s = elim (history_of v) [
    | [] ↦ (s, [])
    | o ∷ _ ↦
        if type_eq o.config.type OrderType.buy
        then (let s' = record s { buy_blocked = true } in
            (s', update_market_meta_config true o.config.updated_time_stamp v s'))
        else (s, [])
  ]

  unfoldable pub buy_first : View → Quote → List Action
  buy_first v k =
      let summ = v.market.user_config.trade_summ in
      let full = mul summ (add (literal 1 0) v.market.config.trade_fee) in
      if (le full k.top_sell.config.base_volume && le full k.base.config.total)
        && is_empty (open_of v OrderType.buy)
      then submit_order (own_id v) OrderType.buy k.top_sell.config.price full
          (div summ k.top_sell.config.price)
        ∷ []
      else []

  -- The part behind the guards.
  unfoldable pub buy_with : View → Step → Option Quote → Step × List Action
  unfolding close_buy buy_first
  buy_with v s none = (s, [])
  buy_with v s (some k) =
      let total_base = mul k.currency.config.total k.top_sell.config.price in
      if le (mul v.market.user_config.trade_summ (literal 95 2)) total_base
        && le v.market.config.min_base_trade_price total_base
      then close_buy v s
      else (s, buy_first v k)

  unfoldable pub execute_buy_logic : Option View → Step → Step × List Action
  unfolding buy_with quote
  execute_buy_logic none s = (s, [])
  execute_buy_logic (some v) s =
      if v.market.user_config.pause_mode then (s, []) else buy_with v s (quote v)
