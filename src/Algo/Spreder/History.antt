-- ===== src/Algo/Spreder/History.antt =====
-- src/algo/spreder.cpp: which trades are summed up.
use crypto_shloma.Prelude.{
  ℕ, ◌+◌, Bool, true, false, ◌&&◌, List, [], ◌∷◌, ◌≡◌, refl, ap, arith, filter, Bool-cases, inl,
  inr,
}
use crypto_shloma.Qt.{Qt}
use crypto_shloma.Base.Order.{Order}
use crypto_shloma.Algo.Average.{is_sell}
use crypto_shloma.Algo.Average.Cycle.{from_first, until_sell}
use crypto_shloma.Algo.Spreder.{
  HistoryData, is_buy, add_order, history_loop, no_data, mean_rate, find_previous_buy_orders,
}

module _ ⦃q : Qt⦄ where
  -- The newest purchases: from the newest one up to the sale behind it.
  unfoldable pub newest_buys : List Order → List Order
  newest_buys os = filter is_buy (until_sell (from_first is_buy os))

  pub add_all : HistoryData → ℕ → List Order → HistoryData × ℕ
  add_all d n [] = (d, n)
  add_all d n (o ∷ os) = add_all (add_order d o) (n + 1) os

  sell_no_buy : (o : Order) → is_sell o ≡ true → is_buy o ≡ false
  sell_no_buy o h = ground arith

  loop_found :
      (d : HistoryData) (n : ℕ) (os : List Order)
      → history_loop d n true os ≡ add_all d n (filter is_buy (until_sell os))
  unfolding history_loop add_all until_sell filter
  loop_found d n [] = refl
  loop_found d n (o ∷ os) = elim (Bool-cases (is_sell o)) [
    | inl e ↦ rw (e, sell_no_buy o e) refl
    | inr e ↦ elim (Bool-cases (is_buy o)) [
      | inl c ↦ rw (e, c) (loop_found (add_order d o) (n + 1) os)
      | inr c ↦ rw (e, c) (loop_found d n os)
    ]
  ]

  buy_no_sell : (o : Order) → is_buy o ≡ true → is_sell o ≡ false
  buy_no_sell o h = ground arith

  and_false : (b : Bool) → (b && false) ≡ false
  and_false b = ground arith

  loop_searching :
      (d : HistoryData) (n : ℕ) (os : List Order)
      → history_loop d n false os ≡ add_all d n (newest_buys os)
  unfolding history_loop add_all newest_buys from_first until_sell filter
  loop_searching d n [] = refl
  loop_searching d n (o ∷ os) = elim (Bool-cases (is_buy o)) [
    | inl c ↦ rw (c, buy_no_sell o c, c) (loop_found (add_order d o) (n + 1) os)
    | inr c ↦ rw (c, and_false (is_sell o)) (loop_searching d n os)
  ]

  -- findPreviousBuyOrders of the Spreder is the sums over the newest purchases, those from the
  -- newest one up to the sale behind it, with the sum of their rates divided by their number.
  pub find_previous_buy_orders-newest_buys :
      (os : List Order)
      → find_previous_buy_orders os ≡ mean_rate (add_all no_data 0 (newest_buys os))
  unfolding find_previous_buy_orders
  find_previous_buy_orders-newest_buys os = ap mean_rate (loop_searching no_data 0 os)
