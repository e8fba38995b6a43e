-- ===== src/Algo/Trend/Prices.antt =====
-- src/algo/trend_searcher.cpp: the price that findFirstSellPrice finds.
use crypto_shloma.Prelude.{true, false, List, [], ◌∷◌, ◌≡◌, refl, ap, filter, Bool-cases, inl, inr}
use crypto_shloma.Qt.{Qt}
use crypto_shloma.Base.Order.{Order}
use crypto_shloma.Algo.Average.{counts, is_sell, round8}
use crypto_shloma.Algo.Average.Cycle.{
  from_first, until_sell, cycle_buys, sell_not_counted, buy_not_sell, sell_and_false,
}
use crypto_shloma.Algo.Trend.{first_sell_loop, find_first_sell_price}

module _ ⦃q : Qt⦄ where
  -- The price of the last order of a list.
  pub last_price : q.Qreal → List Order → q.Qreal
  last_price x [] = x
  last_price x (o ∷ os) = last_price o.config.price os

  loop_found :
      (start : q.QDateTime) (ret : q.Qreal) (os : List Order)
      → first_sell_loop start ret true os ≡ last_price ret (filter (counts start) (until_sell os))
  unfolding first_sell_loop last_price until_sell filter
  loop_found start ret [] = refl
  loop_found start ret (o ∷ os) = elim (Bool-cases (is_sell o)) [
    | inl e ↦ rw (e, sell_not_counted start o e) refl
    | inr e ↦ elim (Bool-cases (counts start o)) [
      | inl c ↦ rw (e, c) (loop_found start o.config.price os)
      | inr c ↦ rw (e, c) (loop_found start ret os)
    ]
  ]

  loop_searching :
      (start : q.QDateTime) (ret : q.Qreal) (os : List Order)
      → first_sell_loop start ret false os ≡ last_price ret (cycle_buys start os)
  unfolding first_sell_loop last_price cycle_buys from_first until_sell filter
  loop_searching start ret [] = refl
  loop_searching start ret (o ∷ os) = elim (Bool-cases (counts start o)) [
    | inl c ↦ rw (c, buy_not_sell start o c, c) (loop_found start o.config.price os)
    | inr c ↦ rw (c, sell_and_false o) (loop_searching start ret os)
  ]

  -- findFirstSellPrice is the rounded price of the last purchase of the running cycle (from the
  -- newest one that counts, up to the sale behind it), and the rounded zero if there is none.
  pub find_first_sell_price-cycle_buys :
      (model : List Order) (start : q.QDateTime)
      → find_first_sell_price model start
        ≡ round8 (last_price (q.literal 0 0) (cycle_buys start model))
  unfolding find_first_sell_price
  find_first_sell_price-cycle_buys model start =
      ap round8 (loop_searching start (q.literal 0 0) model)
