-- ===== src/Models/ExchangePool/Laws.antt =====
-- src/models/exchange_pool.cpp: sequences of calls.
use crypto_shloma.Prelude.{
  ℕ, Bool, true, List, [], ◌∷◌, ◌≡◌, refl, ◌==◌, ==_iff, any, inl, inr, Bool-cases, Option-cases,
}
use crypto_shloma.Qt.{Qt}
use crypto_shloma.Storage.Keyed.{Distinct}
use crypto_shloma.Storage.Keyed.Laws.{Distinct-append, Distinct-erase, Distinct-modify}
use crypto_shloma.Models.ExchangePool.{
  Entry, Pool, has_type, find_by_type, append, save_state, remove, load_state,
}

module _ ⦃q : Qt⦄ where
  abbrev entry_type : Entry → ℕ
  entry_type e = e.type

  -- No two exchanges are of one type.
  abbrev pub IsValid : Pool → Type 0
  IsValid p = Distinct entry_type ◌==◌ p.entries

  pub data Call : Type 0 where
    appends saves loads : ℕ → Call
    removes : ℕ → Bool → Call

  pub step : Pool → Call → Pool
  step p (appends type) = append type p
  step p (saves type) = save_state type p
  step p (loads type) = (load_state type p).0
  step p (removes type do_save_state) = remove type do_save_state p

  pub run : Pool → List Call → Pool
  run p [] = p
  run p (c ∷ cs) = run (step p c) cs

  save-entries : (type : ℕ) (p : Pool) → (save_state type p).entries ≡ p.entries
  unfolding save_state
  save-entries type p = elim (Option-cases (find_by_type type p)) [
    | inl n ↦ rw n refl
    | inr (e, f) ↦ rw f refl
  ]

  append-IsValid : (type : ℕ) (p : Pool) → IsValid p → IsValid (append type p)
  unfolding append
  append-IsValid type p v = elim (Bool-cases (any (has_type type) p.entries)) [
    | inl e ↦ rw e v
    | inr e ↦ rw e (Distinct-append entry_type ◌==◌ ==_iff p.entries _ e v)
  ]

  load-IsValid : (type : ℕ) (p : Pool) → IsValid p → IsValid (load_state type p).0
  unfolding load_state
  load-IsValid type p v = elim (Option-cases (find_by_type type p)) [
    | inl n ↦ rw n v
    | inr (x, f) ↦ rw f (elim (Bool-cases x.is_loaded) [
      | inl e ↦ rw e v
      | inr e ↦ rw e (
          Distinct-modify entry_type ◌==◌ ==_iff (λ y. record y { is_loaded = true })
            (has_type type) p.entries (λ y. refl) v)
    ])
  ]

  remove-IsValid : (type : ℕ) (b : Bool) (p : Pool) → IsValid p → IsValid (remove type b p)
  unfolding remove
  remove-IsValid type b p v = elim (Bool-cases (any (has_type type) p.entries)) [
    | inl e ↦ rw e (elim (Bool-cases b) [
      | inl c ↦ rw (c, save-entries type p) (Distinct-erase entry_type ◌==◌ ==_iff _ p.entries v)
      | inr c ↦ rw c (Distinct-erase entry_type ◌==◌ ==_iff _ p.entries v)
    ])
    | inr e ↦ rw e v
  ]

  step-IsValid : (c : Call) (p : Pool) → IsValid p → IsValid (step p c)
  unfolding step
  step-IsValid (appends type) p v = append-IsValid type p v
  step-IsValid (saves type) p v = rw (save-entries type p) v
  step-IsValid (loads type) p v = load-IsValid type p v
  step-IsValid (removes type b) p v = remove-IsValid type b p v

  -- Whatever exchanges are added to the pool, removed from it, loaded and saved, no two exchanges
  -- of it are of one type, if none were before.
  pub run_pool-IsValid : (cs : List Call) (p : Pool) → IsValid p → IsValid (run p cs)
  unfolding run
  run_pool-IsValid [] p v = v
  run_pool-IsValid (c ∷ cs) p v = run_pool-IsValid cs (step p c) (step-IsValid c p v)
