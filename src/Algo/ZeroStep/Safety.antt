-- ===== src/Algo/ZeroStep/Safety.antt =====
-- src/algo/hanukkah/zero_step.cpp: the actions of `executeBuyLogic`.
use crypto_shloma.Prelude.{true, List, [], ◌∷◌, Option, none, some, ◌≡◌, refl, arith, All, if-cases}
use crypto_shloma.Qt.{Qt}
use crypto_shloma.Base.Order.{Order}
use crypto_shloma.Algo.Chain.{Step}
use crypto_shloma.Algo.Action.{View}
use crypto_shloma.Algo.Trade.{Quote, quote, history_of}
use crypto_shloma.Algo.Step.Safety.{
  Sizes, Justified, Acts, acts, waits, meta_Justified, bought-Justified,
}
use crypto_shloma.Algo.ZeroStep.{execute_buy_logic, close_buy, buy_first, buy_with}

module _ ⦃q : Qt⦄ where
  -- The sum of the market with the fee, and what it buys at the price.
  abbrev pub bought_first : Sizes
  bought_first v k =
      let summ = v.market.user_config.trade_summ in
      (
        q.mul summ (q.add (q.literal 1 0) v.market.config.trade_fee),
        q.div summ k.top_sell.config.price,
      )

  buy_first-Justified :
      (v : View) (k : Quote) → quote v ≡ some k → All (Justified bought_first v) (buy_first v k)
  unfolding buy_first
  buy_first-Justified v k e =
      if-cases (All (Justified bought_first v)) _ (bought-Justified bought_first v k e) (λ _. tt)

  close_with :
      (v : View) (s : Step) (os : List Order)
      → history_of v ≡ os
      → Acts bought_first v (close_buy v s)
  unfolding close_buy
  close_with v s [] e = rw (e, close_buy) (waits bought_first v s)
  close_with v s (o ∷ os) e =
      rw (e, close_buy)
        (ground (
          arith,
          waits bought_first v s,
          acts bought_first v (record s { buy_blocked = true }) _
              (meta_Justified bought_first true o.config.updated_time_stamp v
                (record s { buy_blocked = true })),
        ))

  buy_with-Justified :
      (v : View) (s : Step) (o : Option Quote) → quote v ≡ o → Acts bought_first v (buy_with v s o)
  unfolding buy_with
  buy_with-Justified v s none e = waits bought_first v s
  buy_with-Justified v s (some k) e = ground (
    arith,
    close_with v s (history_of v) refl,
    acts bought_first v s _ (buy_first-Justified v k e),
  )

  -- The zero step that is asked to buy submits only a purchase of its own market at the price of
  -- the newest sell offer, with exactly the volume and the base volume of the step, within that
  -- offer and the balance, with no purchase open; it cancels and unlocks nothing, and while the
  -- market is paused it does nothing.
  pub zero_buy-Justified :
      (v : View) (s : Step)
      → Acts bought_first v (execute_buy_logic (some v) s)
        × (v.market.user_config.pause_mode ≡ true → execute_buy_logic (some v) s ≡ (s, []))
  unfolding execute_buy_logic
  zero_buy-Justified v s = (
    ground (arith, waits bought_first v s, buy_with-Justified v s (quote v) refl),
    (λ e. rw e refl),
  )
