-- ===== src/Algo/ZeroStep/Selling.antt =====
-- src/algo/hanukkah/zero_step.cpp: the actions of `executeSellLogic`.
use crypto_shloma.Prelude.{Bool, true, false, List, [], ◌∷◌, Option, none, some, ◌≡◌, refl, arith}
use crypto_shloma.Qt.{Qt}
use crypto_shloma.Base.Balance.{Balance}
use crypto_shloma.Base.Order.{Order, OrderType}
use crypto_shloma.Algo.Chain.{Step}
use crypto_shloma.Algo.Action.{View, table_of, meta_of}
use crypto_shloma.Algo.Trade.{open_of, balance_in}
use crypto_shloma.Algo.Step.Selling.{
  AllSell, nothing-AllSell, place_sell-AllSell, cancel-AllSell, close_sell-AllSell,
}
use crypto_shloma.Algo.ZeroStep.{first_step, review_sell, sell_with, execute_sell_logic}

module _ ⦃q : Qt⦄ where
  review-AllSell :
      (v : View) (s : Step) (step : q.Qreal) (b : Balance) (o : Order) (rest : List Order)
      → open_of v OrderType.sell ≡ o ∷ rest
      → AllSell v (review_sell v s step b o).1
  unfolding review_sell
  review-AllSell v s step b o rest e =
      ground (arith, nothing-AllSell v, cancel-AllSell v o rest e, close_sell-AllSell v s o rest e)

  opened-AllSell :
      (v : View) (s : Step) (b : Balance) (step : q.Qreal) (os : List Order)
      → balance_in v v.market.trade_currency ≡ some b
      → open_of v OrderType.sell ≡ os
      → q.fuzzy_is_null step ≡ false
      → AllSell v (sell_with v s b step).1
  unfolding sell_with
  opened-AllSell v s b step [] found e n = rw (sell_with, n, e) (place_sell-AllSell v b found e)
  opened-AllSell v s b step (o ∷ rest) found e n =
      rw (sell_with, n, e) (review-AllSell v s step b o rest e)

  sell_with-AllSell :
      (v : View) (s : Step) (b : Balance) (step : q.Qreal) (null : Bool)
      → q.fuzzy_is_null step ≡ null
      → balance_in v v.market.trade_currency ≡ some b
      → AllSell v (sell_with v s b step).1
  unfolding sell_with
  sell_with-AllSell v s b step true n found = rw (sell_with, n) (nothing-AllSell v)
  sell_with-AllSell v s b step false n found =
      opened-AllSell v s b step (open_of v OrderType.sell) found refl n

  stepped-AllSell :
      (v : View) (s : Step) (b : Balance) (o : Option q.Qreal)
      → balance_in v v.market.trade_currency ≡ some b
      → first_step (table_of (meta_of v)) ≡ o
      → AllSell v (execute_sell_logic (some v) s).1
  unfolding execute_sell_logic
  stepped-AllSell v s b none found e = rw (execute_sell_logic, found, e) (nothing-AllSell v)
  stepped-AllSell v s b (some step) found e =
      rw (execute_sell_logic, found, e)
        (sell_with-AllSell v s b step (q.fuzzy_is_null step) refl found)

  found-AllSell :
      (v : View) (s : Step) (f : Option Balance)
      → balance_in v v.market.trade_currency ≡ f
      → AllSell v (execute_sell_logic (some v) s).1
  unfolding execute_sell_logic
  found-AllSell v s none found = rw (execute_sell_logic, found) (nothing-AllSell v)
  found-AllSell v s (some b) found =
      stepped-AllSell v s b (first_step (table_of (meta_of v))) found refl

  -- The zero step that is asked to sell submits only a sale of its own market, of all that is
  -- available with nothing of it held, worth the least notional value, with no sale open; it
  -- cancels only the first open sale, unlocks only with no sale open, and never buys.
  pub zero_sell-AllSell : (v : View) (s : Step) → AllSell v (execute_sell_logic (some v) s).1
  zero_sell-AllSell v s = found-AllSell v s (balance_in v v.market.trade_currency) refl
