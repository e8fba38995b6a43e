-- ===== src/Algo/Spreder/Laws.antt =====
-- src/algo/spreder.cpp: which orders are placed.
use crypto_shloma.Prelude.{
  Bool, true, false, not, ◌&&◌, List, [], ◌∷◌, Option, none, some, ◌≡◌, ◌≢◌, refl, All, All-append,
  get_elem?, if◌then◌else◌, Bool-cases, inl, inr,
}
use crypto_shloma.Qt.{Qt}
use crypto_shloma.Base.Order.{Order, OrderType}
use crypto_shloma.Base.Balance.{Balance}
use crypto_shloma.Algo.Spreder.{
  View, Action, cancels, submits, Outcome, HistoryData, done, after, pointed, zero_real,
  search_and_cancel_orders,
}
use crypto_shloma.Algo.Spreder.Submit.{
  Quote, is_overbid, review_sale, is_replaced, replace_purchase, buy_in_again, cancel_second,
  start_selling, review_purchase, start_buying, bought, sell_with, quoted, trade, with_balances,
  with_book, start_submit_orders, drop_at, drop_coin,
}

module _ ⦃q : Qt⦄ where
  -- A placed order is a purchase without volume, and a purchase is open already.
  abbrev pub IsVain : View → Action → Type 0
  IsVain v (cancels id) = Unit
  IsVain v (submits side price base_volume volume) =
      (side ≡ OrderType.buy) × (volume ≡ zero_real) × (v.open_buys ≢ [])

  module _ (v : View) where
    abbrev Vain : Outcome → Type 0
    Vain o = All (IsVain v) o.0

    Vain-if : (b : Bool) (x y : Outcome) → Vain x → Vain y → Vain (if b then x else y)
    Vain-if true x y h k = h
    Vain-if false x y h k = k

    All-if :
        (b : Bool) (xs ys : List Action)
        → All (IsVain v) xs
        → All (IsVain v) ys
        → All (IsVain v) (if b then xs else ys)
    All-if true xs ys h k = h
    All-if false xs ys h k = k

    pointed-Vain :
        (k : Option Order → Outcome) (o : Option Order)
        → ((x : Order) → o ≡ some x → Vain (k (some x)))
        → Vain (pointed k o)
    pointed-Vain k none h = tt
    pointed-Vain k (some x) h = h x refl

    found_not_empty : (xs : List Order) (x : Order) → get_elem? xs 0 ≡ some x → xs ≢ []
    found_not_empty [] x h = cc
    found_not_empty (y ∷ xs) x h = cc

    cancel_second-Vain : (d : q.Qreal → q.Qreal) (o : Option Order) → Vain (cancel_second d o)
    cancel_second-Vain d none = tt
    cancel_second-Vain d (some o) = elim (Bool-cases (q.lt (q.literal 1 7) (d o.config.price))) [
      | inl e ↦ rw e (tt, tt)
      | inr e ↦ rw e tt
    ]

    search-Vain : (os : List Order) → All (IsVain v) (search_and_cancel_orders os)
    unfolding search_and_cancel_orders
    search-Vain [] = tt
    search-Vain (o ∷ os) = (tt, search-Vain os)

    buy_in_again-Vain :
        (r : Quote) (h : HistoryData) (b : q.Qreal) (p : Bool × List Action)
        → v.open_buys ≢ []
        → All (IsVain v) p.1
        → All (IsVain v) (buy_in_again r h b p)
    buy_in_again-Vain r h b (needed, as') opened a =
        let full = q.mul (q.mul h.amount_currency b) (q.add (q.literal 1 0) r.trade_fee) in
        let order = submits OrderType.buy b h.amount_currency zero_real ∷ [] in
        let enough = q.le full r.btc.config.total && needed in
        All-append (IsVain v) as' (if enough then order else []) a
          (All-if enough order [] ((refl, refl, opened), tt) tt)

    replace-Vain :
        (h : HistoryData) (b : q.Qreal) (o : Order)
        → All (IsVain v) (replace_purchase h b (some o)).1
    replace-Vain h b o = elim (Bool-cases (is_replaced h b o)) [
      | inl e ↦ rw e (tt, tt)
      | inr e ↦ rw e tt
    ]

    review_sale-Vain :
        (r : Quote) (sell_mode : Bool) (stop : q.Qreal) (o : Order)
        → Vain (review_sale v r sell_mode stop (some o))
    review_sale-Vain r sell_mode stop o =
        let second = cancel_second (λ value. q.sub value o.config.price) in
        Vain-if (is_overbid v r sell_mode stop o) (done (cancels o.config.order_id ∷ []))
          (pointed second (get_elem? v.sells 1)) (tt, tt)
          (pointed-Vain second (get_elem? v.sells 1)
            (λ t _. cancel_second-Vain (λ value. q.sub value o.config.price) (some t)))

    sell_with-Vain :
        (r : Quote) (sell_mode : Bool) (p : HistoryData × (q.Qreal × q.Qreal)) (o : Order)
        → v.open_buys ≢ []
        → Vain (sell_with v r sell_mode p (some o))
    sell_with-Vain r sell_mode (h, (buy_in, stop_loss)) o opened =
        let replaced = replace_purchase h buy_in (some o) in
        let review = review_sale v r sell_mode stop_loss in
        All-append (IsVain v) (buy_in_again r h buy_in replaced)
          (pointed review (get_elem? v.open_sells 0)).0
          (buy_in_again-Vain r h buy_in replaced opened (replace-Vain h buy_in o))
          (pointed-Vain review (get_elem? v.open_sells 0)
            (λ s _. review_sale-Vain r sell_mode stop_loss s))

    start_selling-Vain : (r : Quote) (sell_mode : Bool) → Vain (start_selling v r sell_mode)
    unfolding start_selling
    start_selling-Vain r sell_mode =
        pointed-Vain (sell_with v r sell_mode (bought v r)) (get_elem? v.open_buys 0) (λ o found.
          sell_with-Vain r sell_mode (bought v r) o (found_not_empty v.open_buys o found))

    review_purchase-Vain : (r : Quote) (o : Order) → Vain (review_purchase v r (some o))
    review_purchase-Vain r o =
        let second = cancel_second (λ value. q.sub o.config.price value) in
        let own = cancels o.config.order_id ∷ [] in
        let useless = q.le r.profit zero_real && not v.market.user_config.is_volume_trading in
        let rest = pointed second (get_elem? v.buys 1) in
        Vain-if (q.lt o.config.price r.top_buy) (done own)
          (after (if useless then own else []) rest) (tt, tt)
          (All-append (IsVain v) (if useless then own else []) rest.0
            (All-if useless own [] (tt, tt) tt)
            (pointed-Vain second (get_elem? v.buys 1)
              (λ t _. cancel_second-Vain (λ value. q.sub o.config.price value) (some t))))

    start_buying-Vain : (r : Quote) (sell_mode : Bool) → Vain (start_buying v r sell_mode)
    unfolding start_buying
    start_buying-Vain r sell_mode =
        let review = pointed (review_purchase v r) (get_elem? v.open_buys 0) in
        Vain-if sell_mode (done (search_and_cancel_orders v.open_buys))
          (after (search_and_cancel_orders v.open_sells) review) (search-Vain v.open_buys)
          (All-append (IsVain v) (search_and_cancel_orders v.open_sells) review.0
            (search-Vain v.open_sells)
            (pointed-Vain (review_purchase v r) (get_elem? v.open_buys 0)
              (λ o _. review_purchase-Vain r o)))

    trade-Vain : (sell_mode : Bool) (r : Quote) → Vain (trade v sell_mode r)
    trade-Vain sell_mode r =
        let selling = start_selling v r sell_mode in
        let buying = start_buying v r sell_mode in
        let enough =
          q.le v.market.config.min_base_trade_price (q.mul r.coin.config.total r.top_sell) in
        Vain-if (q.le r.top_sell r.top_buy) (done []) (if enough then selling else buying) tt (
          Vain-if enough selling buying (start_selling-Vain r sell_mode)
            (start_buying-Vain r sell_mode))

    with_balances-Vain :
        (sell_mode : Bool) (buy sell : Order) (btc coin : Option Balance)
        → Vain (with_balances v sell_mode buy sell btc coin)
    with_balances-Vain sell_mode buy sell (some btc) (some coin) =
        trade-Vain sell_mode (quoted v buy sell btc coin)
    with_balances-Vain sell_mode buy sell (some btc) none = tt
    with_balances-Vain sell_mode buy sell none coin = tt

    with_book-Vain : (sell_mode : Bool) (bs ss : List Order) → Vain (with_book v sell_mode bs ss)
    with_book-Vain sell_mode (b ∷ _) (s ∷ _) = with_balances-Vain sell_mode b s v.btc v.coin
    with_book-Vain sell_mode (b ∷ _) [] = tt
    with_book-Vain sell_mode [] ss = tt

    -- A sale of all of the coin without a volume.
    abbrev pub IsDrop : Action → Type 0
    IsDrop (cancels id) = true ≡ false
    IsDrop (submits side price base_volume volume) =
        (side ≡ OrderType.sell)
        × ((b : Balance) × ((v.coin ≡ some b) × (base_volume ≡ b.config.total)))
        × (volume ≡ zero_real)

    drop_at-IsDrop :
        (stop : q.Qreal) (o : Option Balance) → v.coin ≡ o → All IsDrop (drop_at stop o).0
    drop_at-IsDrop stop none e = tt
    drop_at-IsDrop stop (some b) e = ((refl, (b, (e, refl)), refl), tt)

    -- Up to the first access of a list out of range, behind which nothing is claimed: each order
    -- that startSubmitOrders submits is a purchase with the volume zero, and is submitted only if a
    -- purchase of the market is open. What dropCoin does, up to a null pointer that it follows, is
    -- to submit sales whose base volume is the whole balance of the coin and whose volume is zero.
    pub start_submit_orders-IsVain :
        (sell_mode : Bool)
        → All (IsVain v) (start_submit_orders v sell_mode).0 × All IsDrop (drop_coin v).0
    unfolding start_submit_orders drop_coin
    start_submit_orders-IsVain sell_mode =
        (with_book-Vain sell_mode v.buys v.sells, drop_at-IsDrop _ v.coin refl)
