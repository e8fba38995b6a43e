-- ===== src/Algo/Average/Cycle.antt =====
-- Which orders the sums of `calculateAverate` take in.
use crypto_shloma.Prelude.{
  Bool, true, false, ◌&&◌, List, [], ◌∷◌, ◌≡◌, refl, arith, ◌==◌, filter, if◌then◌else◌, Bool-cases,
  inl, inr,
}
use crypto_shloma.Qt.{Qt}
use crypto_shloma.Base.Order.{Order}
use crypto_shloma.Algo.Average.{
  AverageData, no_data, counts, is_sell, add_order, average_loop, calculate_average, round8,
}

module _ ⦃q : Qt⦄ where
  -- The history from the first order that passes on.
  unfoldable pub from_first : (Order → Bool) → List Order → List Order
  from_first p [] = []
  from_first p (o ∷ os) = let rest = from_first p os in if p o then o ∷ os else rest

  -- The history up to the first sale.
  unfoldable pub until_sell : List Order → List Order
  until_sell [] = []
  until_sell (o ∷ os) = let rest = o ∷ until_sell os in if is_sell o then [] else rest

  pub add_all : AverageData → List Order → AverageData
  add_all d [] = d
  add_all d (o ∷ os) = add_all (add_order d o) os

  -- The purchases of the running cycle: behind the newest one, and before the sale that ended the
  -- cycle before it.
  unfoldable pub cycle_buys : q.QDateTime → List Order → List Order
  cycle_buys start os = filter (counts start) (until_sell (from_first (counts start) os))

  pub sell_not_counted :
      (start : q.QDateTime) (o : Order) → is_sell o ≡ true → counts start o ≡ false
  sell_not_counted start o h = ground arith

  loop_found :
      (start : q.QDateTime) (ret : AverageData) (os : List Order)
      → average_loop start ret true os ≡ add_all ret (filter (counts start) (until_sell os))
  unfolding average_loop add_all until_sell filter
  loop_found start ret [] = refl
  loop_found start ret (o ∷ os) = elim (Bool-cases (is_sell o)) [
    | inl e ↦ rw (e, sell_not_counted start o e) refl
    | inr e ↦ elim (Bool-cases (counts start o)) [
      | inl c ↦ rw (e, c) (loop_found start (add_order ret o) os)
      | inr c ↦ rw (e, c) (loop_found start ret os)
    ]
  ]

  pub buy_not_sell : (start : q.QDateTime) (o : Order) → counts start o ≡ true → is_sell o ≡ false
  buy_not_sell start o h = ground arith

  pub sell_and_false : (o : Order) → (is_sell o && false) ≡ false
  sell_and_false o = elim (Bool-cases (is_sell o)) [ inl e ↦ rw e refl | inr e ↦ rw e refl ]

  loop_searching :
      (start : q.QDateTime) (ret : AverageData) (os : List Order)
      → average_loop start ret false os ≡ add_all ret (cycle_buys start os)
  unfolding average_loop add_all cycle_buys from_first until_sell filter
  loop_searching start ret [] = refl
  loop_searching start ret (o ∷ os) = elim (Bool-cases (counts start o)) [
    | inl c ↦ rw (c, buy_not_sell start o c, c) (loop_found start (add_order ret o) os)
    | inr c ↦ rw (c, sell_and_false o) (loop_searching start ret os)
  ]

  -- The sum of the prices made their mean, cut to eight places.
  pub rounded : AverageData → AverageData
  rounded d =
      if d.orders_count == 0
      then d
      else record d { price = round8 (q.div d.price (q.literal d.orders_count 0)) }

  -- The sums of calculateAverate are those over the purchases of the running cycle (from the newest
  -- one that counts, up to the sale behind it), each taken once and in order, with the mean price
  -- rounded.
  pub calculate_average-cycle_buys :
      (start : q.QDateTime) (os : List Order)
      → calculate_average os start ≡ rounded (add_all no_data (cycle_buys start os))
  unfolding calculate_average rounded
  calculate_average-cycle_buys start os = rw (loop_searching start no_data os) refl
