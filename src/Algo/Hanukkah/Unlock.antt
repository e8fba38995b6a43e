-- ===== src/Algo/Hanukkah/Unlock.antt =====
-- src/algo/hanukkah.cpp: `unlockAllSteps` on the steps of a session.
use mathlib.Core.Option
use crypto_shloma.Prelude.{
  ℕ, zero, suc, Bool, true, false, ◌||◌, List, [], ◌∷◌, Option, none, some, ◌≡◌, refl, sym, ◌∙◌, ap,
  arith, ◌==◌, ==_iff, any, get_elem?, set, if◌then◌else◌, Bool-cases, inl, inr,
}
use crypto_shloma.Qt.{Qt}
use crypto_shloma.Algo.Chain.{Step, Heap}
use crypto_shloma.Algo.Action.{View}
use crypto_shloma.Algo.Hanukkah.{Session, unblocked, set_at, unblock_places, unlock}

module _ ⦃q : Qt⦄ where
  -- What a place holds where a step is changed if a test holds.
  abbrev pub changed_if : Bool → (Step → Step) → Option Step → Option Step
  changed_if b f o = if b then Option.map f o else o

  get-set :
      (h : Heap) (p k : ℕ) (s : Step)
      → get_elem? (set h p s) k ≡ changed_if (p == k) (λ _. s) (get_elem? h k)
  unfolding set
  get-set [] p k s = ground arith
  get-set (x ∷ h) zero zero s = refl
  get-set (x ∷ h) zero (suc k) s = ground arith
  get-set (x ∷ h) (suc p) zero s = ground arith
  get-set (x ∷ h) (suc p) (suc k) s = get-set h p k s ∙ ground arith

  set_at_found :
      (p : ℕ) (f : Step → Step) (h : Heap) (k : ℕ) (o : Option Step)
      → get_elem? h p ≡ o
      → get_elem? (set_at p f h) k ≡ changed_if (p == k) f (get_elem? h k)
  unfolding set_at
  set_at_found p f h k none e = elim (Bool-cases (p == k)) [
    | inl b ↦
        let at_k : get_elem? h k ≡ none = ap (get_elem? h) (sym ((==_iff p k).0 b)) ∙ e in
        rw (b, set_at, e, at_k) refl
    | inr b ↦ rw (b, set_at, e) refl
  ]
  set_at_found p f h k (some s) e = elim (Bool-cases (p == k)) [
    | inl b ↦
        let at_k : get_elem? h k ≡ some s = ap (get_elem? h) (sym ((==_iff p k).0 b)) ∙ e in
        rw (set_at, e) (get-set h p k (f s) ∙ rw (b, at_k) refl)
    | inr b ↦ rw (set_at, e) (get-set h p k (f s) ∙ rw b refl)
  ]

  get-set_at :
      (p : ℕ) (f : Step → Step) (h : Heap) (k : ℕ)
      → get_elem? (set_at p f h) k ≡ changed_if (p == k) f (get_elem? h k)
  get-set_at p f h k = set_at_found p f h k (get_elem? h p) refl

  unblocked_twice :
      (a b : Bool) (o : Option Step)
      → changed_if b unblocked (changed_if a unblocked o) ≡ changed_if (a || b) unblocked o
  unblocked_twice true true none = refl
  unblocked_twice true true (some s) = refl
  unblocked_twice true false o = refl
  unblocked_twice false b o = refl

  get-unblock_places :
      (ps : List ℕ) (h : Heap) (k : ℕ)
      → get_elem? (unblock_places ps h) k
        ≡ changed_if (any (λ p. p == k) ps) unblocked (get_elem? h k)
  unfolding unblock_places
  get-unblock_places [] h k = refl
  get-unblock_places (p ∷ ps) h k =
      get-unblock_places ps (set_at p unblocked h) k
      ∙ ap (changed_if (any (λ r. r == k) ps) unblocked) (get-set_at p unblocked h k)
      ∙ unblocked_twice (p == k) (any (λ r. r == k) ps) (get_elem? h k)

  -- When all steps of a session are unlocked, exactly the steps at the places of the session lose
  -- both flags, with the rest of them and every other step on the heap as before.
  pub unlock_lem :
      (v : View) (s : Session) (h : Heap) (k : ℕ)
      → get_elem? (unlock v s h).0 k
        ≡ changed_if (any (λ p. p == k) s.container.items) unblocked (get_elem? h k)
  unfolding unlock
  unlock_lem v s h k = get-unblock_places s.container.items h k
