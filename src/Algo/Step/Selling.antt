-- ===== src/Algo/Step/Selling.antt =====
-- src/algo/hanukkah/step.cpp: the actions of `executeSellLogic`.
use crypto_shloma.Prelude.{
  Bool, true, false, not, ◌&&◌, ◌||◌, List, [], ◌∷◌, Option, none, some, ◌≡◌, refl, arith, All,
  if◌then◌else◌, if-cases,
}
use crypto_shloma.Qt.{Qt}
use crypto_shloma.Base.Balance.{Balance}
use crypto_shloma.Base.Order.{Order, OrderType}
use crypto_shloma.Algo.Chain.{Step}
use crypto_shloma.Algo.Action.{
  Action, submit_order, cancel_order, unlock_all_steps, update_market_config, update_row,
  insert_row, delete_row, View, update_market_meta_config,
}
use crypto_shloma.Algo.Trade.{own_id, open_of, history_of, balance_in, place_sell, cancel}
use crypto_shloma.Algo.Step.{execute_sell_logic, review_sell, close_sell}

module _ ⦃q : Qt⦄ where
  -- The balance that a sale takes: all that is available, and nothing of it is held.
  pub record Sellable (v : View) (price base_volume volume : q.Qreal) (b : Balance) : Type 0 where
    pub found : balance_in v v.market.trade_currency ≡ some b
    pub whole : volume ≡ b.config.available
    pub value : base_volume ≡ q.mul volume price
    pub free :
        (q.lt b.config.available b.config.total
          && not (q.fuzzy_compare b.config.total b.config.available))
        ≡ false
    pub enough : q.lt base_volume v.market.config.min_notional ≡ false

  -- A sale is of the own market, of all that is available, worth the least notional value, while no
  -- sale is open. The first open sale of the market may be cancelled, and the steps be unlocked while
  -- no sale is open. Nothing is bought.
  abbrev pub Sells : View → Action → Type 0
  Sells v (submit_order id type price base_volume volume) =
      (id ≡ own_id v)
      × (type ≡ OrderType.sell)
      × (open_of v OrderType.sell ≡ [])
      × ((b : Balance) × Sellable v price base_volume volume b)
  Sells v (cancel_order id market) =
      (market ≡ own_id v)
      × ((o : Order) × (rest : List Order) × (open_of v OrderType.sell ≡ o ∷ rest)
          × (id ≡ o.config.order_id))
  Sells v (unlock_all_steps id) = (id ≡ own_id v) × (open_of v OrderType.sell ≡ [])
  Sells v (update_market_config id config) = id ≡ own_id v
  Sells v (update_row r) = v.cached ≡ true
  Sells v (insert_row r) = v.cached ≡ false
  Sells v (delete_row e id) = ⊥

  unfoldable pub AllSell : View → List Action → Type 0
  AllSell v as' = All (Sells v) as'

  pub nothing-AllSell : (v : View) → AllSell v []
  unfolding AllSell
  nothing-AllSell v = tt

  unlock-AllSell :
      (v : View) → open_of v OrderType.sell ≡ [] → AllSell v (unlock_all_steps (own_id v) ∷ [])
  unfolding AllSell
  unlock-AllSell v e = ((refl, e), tt)

  sold-AllSell :
      (v : View) (b : Balance) (price : q.Qreal)
      → balance_in v v.market.trade_currency ≡ some b
      → open_of v OrderType.sell ≡ []
      → q.lt (q.mul b.config.available price) v.market.config.min_notional ≡ false
      → (q.lt b.config.available b.config.total
          && not (q.fuzzy_compare b.config.total b.config.available))
        ≡ false
      → AllSell v (
          submit_order
            (own_id v)
            OrderType.sell
            price
            (q.mul b.config.available price)
            b.config.available
          ∷ [])
  unfolding AllSell
  sold-AllSell v b price found e enough free = (
    (
      refl,
      refl,
      e,
      (b, record { found = found; whole = refl; value = refl; free = free; enough = enough }),
    ),
    tt,
  )

  priced-AllSell :
      (v : View) (b : Balance) (price : q.Qreal)
      → balance_in v v.market.trade_currency ≡ some b
      → open_of v OrderType.sell ≡ []
      → AllSell v (
          if (q.fuzzy_is_null b.config.total && q.fuzzy_is_null b.config.available)
            || (q.lt b.config.total v.market.config.volume_step_size
                || q.lt (q.mul b.config.available price) v.market.config.min_notional)
          then unlock_all_steps (own_id v) ∷ []
          else if q.lt b.config.available b.config.total
              && not (q.fuzzy_compare b.config.total b.config.available)
          then []
          else submit_order
              (own_id v)
              OrderType.sell
              price
              (q.mul b.config.available price)
              b.config.available
            ∷ [])
  priced-AllSell v b price found e =
      ground (arith, nothing-AllSell v, unlock-AllSell v e, sold-AllSell v b price found e)

  place_with :
      (v : View) (b : Balance) (os : List Order)
      → history_of v ≡ os
      → balance_in v v.market.trade_currency ≡ some b
      → open_of v OrderType.sell ≡ []
      → AllSell v (place_sell v b)
  unfolding place_sell
  place_with v b [] h found e = rw (h, place_sell) (nothing-AllSell v)
  place_with v b (o ∷ os) h found e = rw (h, place_sell) (priced-AllSell v b _ found e)

  pub place_sell-AllSell :
      (v : View) (b : Balance)
      → balance_in v v.market.trade_currency ≡ some b
      → open_of v OrderType.sell ≡ []
      → AllSell v (place_sell v b)
  place_sell-AllSell v b found e = place_with v b (history_of v) refl found e

  meta_Sells :
      (completed : Bool) (time : q.QDateTime) (v : View) (s : Step)
      → All (Sells v) (update_market_meta_config completed time v s)
  unfolding update_market_meta_config
  meta_Sells completed time v s = (refl, (if-cases (Sells v) v.cached (λ e. e) (λ e. e), tt))

  pub cancel-AllSell :
      (v : View) (o : Order) (rest : List Order)
      → open_of v OrderType.sell ≡ o ∷ rest
      → AllSell v (cancel v o ∷ [])
  unfolding AllSell
  cancel-AllSell v o rest e = ((refl, (o, rest, e, refl)), tt)

  pub close_sell-AllSell :
      (v : View) (s : Step) (o : Order) (rest : List Order)
      → open_of v OrderType.sell ≡ o ∷ rest
      → AllSell v (close_sell v s o).1
  unfolding AllSell close_sell
  close_sell-AllSell v s o rest e = (
    (refl, (o, rest, e, refl)),
    meta_Sells false q.null_date v (record s { sell_blocked = true }),
  )

  review-AllSell :
      (v : View) (s : Step) (next : Option Step) (b : Balance) (o : Order) (rest : List Order)
      → open_of v OrderType.sell ≡ o ∷ rest
      → AllSell v (review_sell v s next b o).1
  unfolding review_sell
  review-AllSell v s none b o rest e = ground (arith, nothing-AllSell v, cancel-AllSell v o rest e)
  review-AllSell v s (some n) b o rest e =
      ground (arith, nothing-AllSell v, cancel-AllSell v o rest e, close_sell-AllSell v s o rest e)

  with_open :
      (v : View) (s : Step) (next : Option Step) (b : Balance) (os : List Order)
      → balance_in v v.market.trade_currency ≡ some b
      → open_of v OrderType.sell ≡ os
      → AllSell v (execute_sell_logic (some v) s next).1
  unfolding execute_sell_logic
  with_open v s next b [] found e =
      rw (found, execute_sell_logic, e) (place_sell-AllSell v b found e)
  with_open v s next b (o ∷ rest) found e =
      rw (found, execute_sell_logic, e) (review-AllSell v s next b o rest e)

  with_found :
      (v : View) (s : Step) (next : Option Step) (f : Option Balance)
      → balance_in v v.market.trade_currency ≡ f
      → AllSell v (execute_sell_logic (some v) s next).1
  unfolding execute_sell_logic
  with_found v s next none found = rw (found, execute_sell_logic) (nothing-AllSell v)
  with_found v s next (some b) found = with_open v s next b (open_of v OrderType.sell) found refl

  -- An ordinary step that is asked to sell submits only a sale of its own market, of all that is
  -- available with nothing of it held, worth the least notional value, with no sale open; it
  -- cancels only the first open sale, unlocks only with no sale open, and never buys.
  pub execute_sell_logic-AllSell :
      (v : View) (s : Step) (next : Option Step) → AllSell v (execute_sell_logic (some v) s next).1
  execute_sell_logic-AllSell v s next =
      with_found v s next (balance_in v v.market.trade_currency) refl
