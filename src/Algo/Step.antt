-- ===== src/Algo/Step.antt =====
-- src/algo/hanukkah/step.cpp. The functions take the step, the next step of the table and what the
-- step reads (`none` if its market is the null pointer), and return the step and its actions.
pub mod Safety
pub mod Selling
use crypto_shloma.Prelude.{
  ℤ, leb_ℤ, ltb_ℤ, pos, Bool, true, false, not, ◌&&◌, List, [], ◌∷◌, Option, none, some, is_empty,
  if◌then◌else◌,
}
use crypto_shloma.Qt.{Qt}
use crypto_shloma.Base.Balance.{Balance}
use crypto_shloma.Base.Order.{Order, OrderType}
use crypto_shloma.Algo.Chain.{Step}
use crypto_shloma.Algo.Average.{calculate_average, calculate_prev_volume}
use crypto_shloma.Algo.Action.{
  Action, submit_order, View, meta_of, exec_steps, max_steps, cycle_start,
  update_market_meta_config,
}
use crypto_shloma.Algo.Trade.{
  Quote, quote, place_sell, outgrown, cancel, own_id, open_of, history_of, balance_in,
}

module _ ⦃q : Qt⦄ where
  open q use {Qreal, literal, add, mul, neg, lt, le, fuzzy_is_null, null_date}

  -- The market fell below the rebound of the next step: the order goes, the step is closed.
  unfoldable pub close_sell : View → Step → Order → Step × List Action
  close_sell v s o =
      let s' = record s { sell_blocked = true } in
      (s', cancel v o ∷ update_market_meta_config false null_date v s')

  -- The branch with an open sell order.
  unfoldable pub review_sell : View → Step → Option Step → Balance → Order → Step × List Action
  unfolding close_sell
  review_sell v s next balance o =
      if outgrown v balance o
      then (s, cancel v o ∷ [])
      else if leb_ℤ (max_steps v) (exec_steps v)
      then (s, [])
      else elim next [
        | none ↦ (s, [])
        | some n ↦
            if lt v.market.user_config.current_trend_rate (neg n.growth)
            then close_sell v s o
            else (s, [])
      ]

  unfoldable pub execute_sell_logic : Option View → Step → Option Step → Step × List Action
  unfolding place_sell review_sell
  execute_sell_logic none s next = (s, [])
  execute_sell_logic (some v) s next = elim (balance_in v v.market.trade_currency) [
    | none ↦ (s, [])
    | some balance ↦ elim (open_of v OrderType.sell) [
      | [] ↦ (s, place_sell v balance)
      | o ∷ _ ↦ review_sell v s next balance o
    ]
  ]

  -- The rate reached the next step's decline: both sides of this step are closed.
  unfoldable pub close_both : View → Step → Step × List Action
  close_both v s =
      let s' = record s { sell_blocked = true; buy_blocked = true } in
      (s', update_market_meta_config false null_date v s')

  -- The purchase is complete: the buy side of the step is closed.
  unfoldable pub close_buy : View → Step → Step × List Action
  close_buy v s =
      let s' = record s { buy_blocked = true } in
      (s', update_market_meta_config true null_date v s')

  -- Buy as much again as there is, if the newest sell order and the balance allow it.
  unfoldable pub buy_more : View → Quote → List Action
  buy_more v k =
      let full =
        mul (mul k.currency.config.total k.top_sell.config.price)
          (add (literal 1 0) v.market.config.trade_fee) in
      if (le full k.top_sell.config.base_volume && le full k.base.config.total)
        && is_empty (open_of v OrderType.buy)
      then submit_order (own_id v) OrderType.buy k.top_sell.config.price full
          k.currency.config.total
        ∷ []
      else []

  -- The branch on a rebound.
  unfoldable pub rebound : View → Step → Quote → Step × List Action
  unfolding close_buy buy_more
  rebound v s k =
      let total = k.currency.config.total in
      let total_base = mul total k.top_sell.config.price in
      let average = calculate_average (history_of v) (cycle_start (meta_of v)) in
      if fuzzy_is_null total_base
      then (s, [])
      else if ltb_ℤ (exec_steps v) (pos average.orders_count)
      then if le (mul (mul (calculate_prev_volume (history_of v)) (literal 2 0)) (literal 95 2))
            total
          && le v.market.config.min_base_trade_price total_base
        then close_buy v s
        else (s, [])
      else (s, buy_more v k)

  abbrev pub reached : View → Option Step → Bool
  reached v none = false
  reached v (some n) = le v.market.user_config.current_trend_rate (neg n.decline_perc)

  -- The part behind the guards.
  unfoldable pub buy_with : View → Step → Option Step → Option Quote → Step × List Action
  unfolding close_both rebound
  buy_with v s next none = (s, [])
  buy_with v s next (some k) =
      if reached v next
      then close_both v s
      else if le (neg s.growth) v.market.user_config.current_trend_rate
      then rebound v s k
      else (s, [])

  unfoldable pub execute_buy_logic : Option View → Step → Option Step → Step × List Action
  unfolding buy_with quote
  execute_buy_logic none s next = (s, [])
  execute_buy_logic (some v) s next = buy_with v s next (quote v)
