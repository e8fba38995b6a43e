-- ===== src/Algo/Hanukkah/Schedule.antt =====
-- Which step one pass of `execLogic` (src/algo/hanukkah.cpp) lets act.
use crypto_shloma.Prelude.{
  ℕ, leb_ℤ, Bool, true, false, not, ◌&&◌, ◌||◌, List, [], ◌∷◌, ◌++◌, Option, none, some, ◌≡◌, refl,
  ap, All, get_elem?, if◌then◌else◌, if-cases, subst, sym,
}
use crypto_shloma.Qt.{Qt}
use crypto_shloma.Algo.Chain.{Step, Heap}
use crypto_shloma.Algo.Action.{View, exec_steps, max_steps}
use crypto_shloma.Algo.Hanukkah.{Choice, choose}

module _ ⦃q : Qt⦄ where
  -- A step may buy while it is not closed for it and the market has not bought too often, and may sell
  -- while it is not closed for that.
  abbrev pub may_buy : View → Step → Bool
  may_buy v s = not s.buy_blocked && leb_ℤ (exec_steps v) (max_steps v)

  abbrev pub may_sell : Step → Bool
  may_sell s = not s.sell_blocked

  abbrev pub may_act : View → Heap → ℕ → Bool
  may_act v h p = elim (get_elem? h p) [ none ↦ false | some s ↦ may_buy v s || may_sell s ]

  -- The place is on the list, behind places whose steps may do nothing.
  abbrev pub FirstAt : View → Heap → List ℕ → ℕ → Type 0
  FirstAt v h places p =
      (before : List ℕ) × (after : List ℕ) × (places ≡ before ++ p ∷ after)
      × All (λ r. may_act v h r ≡ false) before

  -- What a choice says of the places it was made from.
  unfoldable pub Chosen : View → Heap → List ℕ → Choice → Type 0
  Chosen v h places Choice.idle = All (λ r. may_act v h r ≡ false) places
  Chosen v h places (Choice.buys p) =
      FirstAt v h places p × ((s : Step) × (get_elem? h p ≡ some s) × (may_buy v s ≡ true))
  Chosen v h places (Choice.sells p) =
      FirstAt v h places p
      × ((s : Step) × (get_elem? h p ≡ some s) × (may_buy v s ≡ false) × (may_sell s ≡ true))

  first_at : (v : View) (h : Heap) (p : ℕ) (places : List ℕ) → FirstAt v h (p ∷ places) p
  first_at v h p places = ([], places, refl, tt)

  behind :
      (v : View) (h : Heap) (p r : ℕ) (places : List ℕ)
      → may_act v h p ≡ false
      → FirstAt v h places r
      → FirstAt v h (p ∷ places) r
  behind v h p r places e (before, after, split, idle) =
      (p ∷ before, after, ap (λ l. p ∷ l) split, (e, idle))

  Chosen-later :
      (v : View) (h : Heap) (p : ℕ) (places : List ℕ) (c : Choice)
      → may_act v h p ≡ false
      → Chosen v h places c
      → Chosen v h (p ∷ places) c
  unfolding Chosen
  Chosen-later v h p places Choice.idle e k = (e, k)
  Chosen-later v h p places (Choice.buys r) e k = (behind v h p r places e k.0, k.1)
  Chosen-later v h p places (Choice.sells r) e k = (behind v h p r places e k.0, k.1)

  buys-Chosen :
      (v : View) (h : Heap) (p : ℕ) (places : List ℕ) (s : Step)
      → get_elem? h p ≡ some s
      → may_buy v s ≡ true
      → Chosen v h (p ∷ places) (Choice.buys p)
  unfolding Chosen
  buys-Chosen v h p places s e b = (first_at v h p places, (s, e, b))

  sells-Chosen :
      (v : View) (h : Heap) (p : ℕ) (places : List ℕ) (s : Step)
      → get_elem? h p ≡ some s
      → may_buy v s ≡ false
      → may_sell s ≡ true
      → Chosen v h (p ∷ places) (Choice.sells p)
  unfolding Chosen
  sells-Chosen v h p places s e b c = (first_at v h p places, (s, e, b, c))

  choose-none :
      (v : View) (h : Heap) (p : ℕ) (places : List ℕ)
      → get_elem? h p ≡ none
      → choose v h (p ∷ places) ≡ choose v h places
  unfolding choose
  choose-none v h p places e = rw (choose, e) refl

  choose-some :
      (v : View) (h : Heap) (p : ℕ) (places : List ℕ) (s : Step)
      → get_elem? h p ≡ some s
      → choose v h (p ∷ places) ≡ (
          if may_buy v s
          then Choice.buys p
          else if may_sell s
          then Choice.sells p
          else choose v h places)
  unfolding choose
  choose-some v h p places s e = rw (choose, e) refl

  choose_at :
      (v : View) (h : Heap) (p : ℕ) (places : List ℕ) (o : Option Step)
      → get_elem? h p ≡ o
      → Chosen v h places (choose v h places)
      → Chosen v h (p ∷ places) (choose v h (p ∷ places))
  unfolding choose
  choose_at v h p places none e k =
      subst (Chosen v h (p ∷ places)) (sym (choose-none v h p places e))
        (Chosen-later v h p places (choose v h places) (rw (e, may_act) refl) k)
  choose_at v h p places (some s) e k =
      subst (Chosen v h (p ∷ places)) (sym (choose-some v h p places s e)) (
        if-cases (Chosen v h (p ∷ places)) (may_buy v s) (buys-Chosen v h p places s e) (λ b.
          if-cases (Chosen v h (p ∷ places)) (may_sell s) (sells-Chosen v h p places s e b)
            (λ c. Chosen-later v h p places (choose v h places) (rw (e, may_act, b, c) refl) k)))

  -- One pass over the steps of a session lets the first step act that may: with its purchase if it
  -- may buy, otherwise with its sale; if no step may act the pass does nothing.
  pub choose-Chosen :
      (v : View) (h : Heap) (places : List ℕ) → Chosen v h places (choose v h places)
  unfolding choose Chosen
  choose-Chosen v h [] = tt
  choose-Chosen v h (p ∷ places) =
      choose_at v h p places (get_elem? h p) refl (choose-Chosen v h places)
