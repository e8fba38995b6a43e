-- ===== src/Algo/Step/Safety.antt =====
-- src/algo/hanukkah/step.cpp: the actions of `executeBuyLogic`.
use crypto_shloma.Prelude.{
  Bool, true, false, ◌&&◌, List, [], ◌∷◌, Option, none, some, ◌≡◌, refl, arith, is_empty, All,
  if-cases,
}
use crypto_shloma.Qt.{Qt}
use crypto_shloma.Base.Order.{Order, OrderType}
use crypto_shloma.Algo.Chain.{Step}
use crypto_shloma.Algo.Action.{
  Action, submit_order, cancel_order, unlock_all_steps, update_market_config, update_row,
  insert_row, delete_row, View, update_market_meta_config,
}
use crypto_shloma.Algo.Trade.{Quote, quote, own_id, open_of}
use crypto_shloma.Algo.Step.{execute_buy_logic, close_both, rebound, close_buy, buy_more, buy_with}

module _ ⦃q : Qt⦄ where
  -- The base volume and the volume of a purchase, from what it works with.
  abbrev pub Sizes : Type 0
  Sizes = View → Quote → q.Qreal × q.Qreal

  -- The orders that a purchase may send: one purchase of the own market at the price of the newest sell
  -- offer, with these volumes, whose base volume is within that offer and within the balance, while no
  -- purchase is open. It cancels and unlocks nothing.
  abbrev pub Justified : Sizes → View → Action → Type 0
  Justified sizes v (submit_order id type price base_volume volume) =
      (id ≡ own_id v)
      × (type ≡ OrderType.buy)
      × (open_of v OrderType.buy ≡ [])
      × ((k : Quote) × (quote v ≡ some k)
          × (price ≡ k.top_sell.config.price)
          × (base_volume ≡ (sizes v k).0)
          × (volume ≡ (sizes v k).1)
          × (q.le base_volume k.top_sell.config.base_volume ≡ true)
          × (q.le base_volume k.base.config.total ≡ true))
  Justified sizes v (cancel_order id market) = ⊥
  Justified sizes v (unlock_all_steps id) = ⊥
  Justified sizes v (update_market_config id config) = id ≡ own_id v
  Justified sizes v (update_row r) = v.cached ≡ true
  Justified sizes v (insert_row r) = v.cached ≡ false
  Justified sizes v (delete_row e id) = ⊥

  -- The same of the actions beside a step.
  unfoldable pub Acts : Sizes → View → Step × List Action → Type 0
  Acts sizes v r = All (Justified sizes v) r.1

  pub acts :
      (sizes : Sizes) (v : View) (s : Step) (as' : List Action)
      → All (Justified sizes v) as'
      → Acts sizes v (s, as')
  unfolding Acts
  acts sizes v s as' h = h

  pub waits : (sizes : Sizes) (v : View) (s : Step) → Acts sizes v (s, [])
  unfolding Acts
  waits sizes v s = tt

  pub meta_Justified :
      (sizes : Sizes) (completed : Bool) (time : q.QDateTime) (v : View) (s : Step)
      → All (Justified sizes v) (update_market_meta_config completed time v s)
  unfolding update_market_meta_config
  meta_Justified sizes completed time v s =
      (refl, (if-cases (Justified sizes v) v.cached (λ e. e) (λ e. e), tt))

  and_left : (a b : Bool) → (a && b) ≡ true → a ≡ true
  and_left a b h = ground arith

  and_right : (a b : Bool) → (a && b) ≡ true → b ≡ true
  and_right a b h = ground arith

  empty_nil : (xs : List Order) → is_empty xs ≡ true → xs ≡ []
  empty_nil [] h = refl
  empty_nil (x ∷ xs) h = cc

  pub bought-Justified :
      (sizes : Sizes) (v : View) (k : Quote)
      → quote v ≡ some k
      → let full = (sizes v k).0 in
        ((q.le full k.top_sell.config.base_volume && q.le full k.base.config.total)
            && is_empty (open_of v OrderType.buy))
          ≡ true
        → All (Justified sizes v) (
            submit_order
              (own_id v)
              OrderType.buy
              k.top_sell.config.price
              (sizes v k).0
              (sizes v k).1
            ∷ [])
  bought-Justified sizes v k e h =
      let both = and_left _ _ h in
      (
        (
          refl,
          refl,
          empty_nil _ (and_right _ _ h),
          (k, e, refl, refl, refl, and_left _ _ both, and_right _ _ both),
        ),
        tt,
      )

  -- As much again as there is of the coin, and what it costs with the fee.
  abbrev pub bought_again : Sizes
  bought_again v k = (
    q.mul (q.mul k.currency.config.total k.top_sell.config.price)
        (q.add (q.literal 1 0) v.market.config.trade_fee),
    k.currency.config.total,
  )

  buy_more-Justified :
      (v : View) (k : Quote) → quote v ≡ some k → All (Justified bought_again v) (buy_more v k)
  unfolding buy_more
  buy_more-Justified v k e =
      if-cases (All (Justified bought_again v)) _ (bought-Justified bought_again v k e) (λ _. tt)

  rebound-Justified :
      (v : View) (s : Step) (k : Quote) → quote v ≡ some k → Acts bought_again v (rebound v s k)
  unfolding rebound close_buy
  rebound-Justified v s k e = ground (
    arith,
    waits bought_again v s,
    acts bought_again v s _ (buy_more-Justified v k e),
    acts bought_again v (record s { buy_blocked = true }) _
        (meta_Justified bought_again true q.null_date v (record s { buy_blocked = true })),
  )

  buy_with-Justified :
      (v : View) (s : Step) (next : Option Step) (o : Option Quote)
      → quote v ≡ o
      → Acts bought_again v (buy_with v s next o)
  unfolding buy_with close_both
  buy_with-Justified v s next none e = waits bought_again v s
  buy_with-Justified v s next (some k) e = ground (
    arith,
    waits bought_again v s,
    rebound-Justified v s k e,
    acts bought_again v (record s { sell_blocked = true; buy_blocked = true }) _
        (meta_Justified bought_again false q.null_date v
          (record s { sell_blocked = true; buy_blocked = true })),
  )

  -- An ordinary step that is asked to buy submits only a purchase of its own market at the price of
  -- the newest sell offer, with exactly the volume and the base volume of the step, within that
  -- offer and the balance, with no purchase open; it cancels and unlocks nothing.
  pub execute_buy_logic-Justified :
      (v : View) (s : Step) (next : Option Step)
      → Acts bought_again v (execute_buy_logic (some v) s next)
  unfolding execute_buy_logic
  execute_buy_logic-Justified v s next = buy_with-Justified v s next (quote v) refl
