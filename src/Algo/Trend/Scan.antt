-- ===== src/Algo/Trend/Scan.antt =====
-- src/algo/trend_searcher.cpp: the scan over the traded markets.
use crypto_shloma.Prelude.{
  ap, ◌∙◌, String, true, List, [], ◌∷◌, ◌++◌, Option, none, some, ◌≡◌, ◌⊎◌, refl, All, inl, inr,
  Bool-cases, if-cases, not, ◌||◌,
}
use crypto_shloma.Qt.{Qt}
use crypto_shloma.Base.Order.{Order, OrderType, type_eq}
use crypto_shloma.Base.Market.Data.{Market}
use crypto_shloma.Storage.MarketOrders as Book
use crypto_shloma.Storage.MarketOrders.{MarketOrders}
use crypto_shloma.Storage.TradeHistory.{TradeHistory, filter_market}
use crypto_shloma.Algo.Action.{cycle_start}
use crypto_shloma.Algo.Trend.{
  Update, with_rate, reset_rate, against_book, inspect, inspect_with, follow_cycle,
  find_first_sell_price, go_on, scan,
}

module _ ⦃q : Qt⦄ where
  -- An update of a market: only the rate, the least rate and the time of its settings differ, and a
  -- least rate that differs is the new rate.
  pub record Follows (now : q.QDateTime) (m : Market) (u : Update) : Type 0 where
    pub id : u.0 ≡ m.config.id
    pub rest : u.1 ≡ record (m.user_config) {
      current_trend_rate = u.1.current_trend_rate;
      min_trend = u.1.min_trend;
      last_rate_update_time = now;
    }
    pub least : (u.1.min_trend ≡ m.user_config.min_trend) ⊎ (u.1.min_trend ≡ u.1.current_trend_rate)

  -- An update of one of the markets, with the time of the round of that market.
  pub data Among (now : String → q.QDateTime) (u : Update) : List Market → Type 0 where
    here : {m : Market} {ms : List Market} → Follows (now m.config.id) m u → Among now u (m ∷ ms)
    there : {m : Market} {ms : List Market} → Among now u ms → Among now u (m ∷ ms)

  -- The market has no trades that the history keeps; or the newest was a purchase, and the start of the
  -- cycle is no date, or nobody sells.
  abbrev pub Ends : MarketOrders → TradeHistory → Market → Type 0
  Ends book history m =
      let start = cycle_start m.user_config.meta_config in
      let trades = filter_market m.config.id history in
      (trades ≡ [])
      ⊎ ((o : Order) × ((os : List Order) × ((trades ≡ o ∷ os)
              × (o.config.type ≡ OrderType.buy)
              × (((q.date_is_null start || not (q.date_is_valid start)) ≡ true)
                  ⊎ (Book.filter_type m.config.id OrderType.sell book ≡ [])))))

module _ ⦃q : Qt⦄ (now : q.QDateTime) where
  ended_cycle :
      (m : Market) (orders sells : List Order)
      → (let start = cycle_start m.user_config.meta_config in
          (q.date_is_null start || not (q.date_is_valid start)) ≡ true)
        ⊎ (sells ≡ [])
      → follow_cycle now m orders sells ≡ none
  ended_cycle m orders sells (inl e) = rw e refl
  ended_cycle m orders sells (inr e) = rw e (
      if-cases (λ r. r ≡ none)
        (let start = cycle_start m.user_config.meta_config in
          q.date_is_null start || not (q.date_is_valid start))
        (λ h. refl) (λ h. refl))

  bought_round :
      (m : Market) (o : Order) (os sells : List Order)
      → type_eq o.config.type OrderType.buy ≡ true
      → inspect_with now m (o ∷ os) sells ≡ follow_cycle now m (o ∷ os) sells
  unfolding inspect_with
  bought_round m o os sells e = rw e refl

  ended_round :
      (book : MarketOrders) (history : TradeHistory) (m : Market)
      → Ends book history m
      → inspect now book history m ≡ none
  unfolding inspect inspect_with
  ended_round book history m (inl e) = rw e refl
  ended_round book history m (inr (o, (os, (e, t, c)))) =
      let sells = Book.filter_type m.config.id OrderType.sell book in
      ap (λ l. inspect_with now m l sells) e
      ∙ bought_round m o os sells (ap (λ k. type_eq k OrderType.buy) t)
      ∙ ended_cycle m (o ∷ os) sells c

  with_rate-Follows : (m : Market) (rate : q.Qreal) → All (Follows now m) (with_rate now m rate)
  unfolding with_rate
  with_rate-Follows m rate =
      elim (Bool-cases (q.fuzzy_compare m.user_config.current_trend_rate rate)) [
        | inl e ↦ rw e tt
        | inr e ↦ rw e (elim (Bool-cases (q.lt rate m.user_config.min_trend)) [
          | inl l ↦ (record { id = refl; rest = refl; least = inr (rw l refl) }, tt)
          | inr l ↦ (record { id = refl; rest = refl; least = inl (rw l refl) }, tt)
        ])
      ]

  reset_rate-Follows : (m : Market) → All (Follows now m) (reset_rate now m)
  unfolding reset_rate
  reset_rate-Follows m = elim (Bool-cases (q.fuzzy_is_null m.user_config.current_trend_rate)) [
    | inl e ↦ rw e tt
    | inr e ↦ rw e (record { id = refl; rest = refl; least = inr refl }, tt)
  ]

  -- What holds of the updates of one round.
  AllIn : Market → Option (List Update) → Type 0
  AllIn m none = Unit
  AllIn m (some us) = All (Follows now m) us

  against_book-AllIn :
      (m : Market) (price : q.Qreal) (sells : List Order) → AllIn m (against_book now m price sells)
  unfolding AllIn
  against_book-AllIn m price [] = tt
  against_book-AllIn m price (o ∷ os) = with_rate-Follows m _

  follow_cycle-AllIn :
      (m : Market) (orders sells : List Order) → AllIn m (follow_cycle now m orders sells)
  unfolding AllIn
  follow_cycle-AllIn m orders sells =
      let start = cycle_start m.user_config.meta_config in
      if-cases (AllIn m) (q.date_is_null start || not (q.date_is_valid start)) {x = none}
        {y = against_book now m (find_first_sell_price orders start) sells} (λ e. tt)
        (λ e. against_book-AllIn m (find_first_sell_price orders start) sells)

  inspect_with-AllIn :
      (m : Market) (orders sells : List Order) → AllIn m (inspect_with now m orders sells)
  unfolding inspect_with AllIn
  inspect_with-AllIn m [] sells = tt
  inspect_with-AllIn m (o ∷ os) sells =
      if-cases (AllIn m) (type_eq o.config.type OrderType.buy)
        {x = follow_cycle now m (o ∷ os) sells} {y = some (reset_rate now m)}
        (λ e. follow_cycle-AllIn m (o ∷ os) sells) (λ e. reset_rate-Follows m)

module _ ⦃q : Qt⦄ (now : String → q.QDateTime) (book : MarketOrders) (history : TradeHistory) where
  -- A market that has no trades in the history, or whose newest trade is a purchase while the start
  -- of its cycle is null or no valid date or it has no sell offers, hides the markets behind it:
  -- the scan emits what it emits for the markets before it.
  pub scan_stops :
      (before after : List Market) (m : Market)
      → Ends book history m
      → scan now book history (before ++ m ∷ after) ≡ scan now book history before
  unfolding scan
  scan_stops [] after m h = rw (ended_round (now m.config.id) book history m h) refl
  scan_stops (n ∷ before) after m h = rw (scan_stops before after m h) refl

  All-here :
      (m : Market) (ms : List Market) (us : List Update)
      → All (Follows (now m.config.id) m) us
      → All (λ u. Among now u (m ∷ ms)) us
  All-here m ms [] h = tt
  All-here m ms (u ∷ us) h = (Among.here h.0, All-here m ms us h.1)

  All-join :
      (m : Market) (ms : List Market) (us rest : List Update)
      → All (λ u. Among now u (m ∷ ms)) us
      → All (λ u. Among now u ms) rest
      → All (λ u. Among now u (m ∷ ms)) (us ++ rest)
  All-join m ms [] [] h k = tt
  All-join m ms [] (u ∷ rest) h k = (Among.there k.0, All-join m ms [] rest tt k.1)
  All-join m ms (u ∷ us) rest h k = (h.0, All-join m ms us rest h.1 k)

  All-go_on :
      (m : Market) (ms : List Market) (found : Option (List Update)) (rest : List Update)
      → AllIn (now m.config.id) m found
      → All (λ u. Among now u ms) rest
      → All (λ u. Among now u (m ∷ ms)) (go_on found rest)
  unfolding AllIn
  All-go_on m ms none rest h k = tt
  All-go_on m ms (some us) rest h k = All-join m ms us rest (All-here m ms us h) k

  -- Each update that a scan of markets emits is for one of these markets; it sets the time that the
  -- round of this market reads, and changes nothing else of the settings than the rate and the
  -- lowest rate, which it sets to the new rate if at all.
  pub scan-Among : (ms : List Market) → All (λ u. Among now u ms) (scan now book history ms)
  unfolding scan inspect
  scan-Among [] = tt
  scan-Among (m ∷ ms) =
      All-go_on m ms (inspect (now m.config.id) book history m) _
        (inspect_with-AllIn (now m.config.id) m _ _) (scan-Among ms)
