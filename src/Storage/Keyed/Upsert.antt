-- ===== src/Storage/Keyed/Upsert.antt =====
-- The loop that the merges of src/storage share, as a function on lookups.
use crypto_shloma.Prelude.{
  Bool, true, false, List, [], ◌∷◌, Option, none, some, ◌≡◌, refl, ◌↔◌, arith, modify_first, filter,
  if◌then◌else◌, All, inl, inr, Bool-cases, Option-cases, ◌∙◌,
}
use crypto_shloma.Storage.Keyed.{lookup, has, Distinct, merged, append_option, upsert, upsert_all}
use crypto_shloma.Storage.Keyed.Laws.{
  lookup-none, lookup-ne-none, lookup-filter, lookup-append, lookup-modify, Distinct-modify,
  Distinct-append, All-append_option,
}

-- The result of the entry for a key, if there is one.
abbrev pub after_entry :
    {A D : Type 0} → (D → A → A) → (D → Option A) → Option D → Option A → Option A
after_entry update make none old = old
after_entry update make (some d) old = merged update make d old

-- The same where what has no entry is erased.
abbrev pub after_report :
    {A D : Type 0} → (D → A → A) → (D → Option A) → Option D → Option A → Option A
after_report update make none old = none
after_report update make (some d) old = merged update make d old

-- What entries with one key make of its element, one after the other.
unfoldable pub all_merged :
    {A D : Type 0} → (D → A → A) → (D → Option A) → List D → Option A → Option A
all_merged update make [] old = old
all_merged update make (d ∷ ds) old = all_merged update make ds (merged update make d old)

module _ {A D K : Type 0} (key : A → K) (dkey : D → K) (eq : K → K → Bool)
    (eq_iff : (j k : K) → (eq j k ≡ true) ↔ (j ≡ k)) (update : D → A → A) (make : D → Option A)
    (update_key : (d : D) (x : A) → key (update d x) ≡ key x)
    (make_key : (d : D) (x : A) → make d ≡ some x → key x ≡ dkey d) where
  lookup-make :
      (d : D) (k : K) (xs : List A)
      → has key eq (dkey d) xs ≡ false
      → lookup key eq k (append_option xs (make d))
        ≡ (if eq (dkey d) k then make d else lookup key eq k xs)
  lookup-make d k xs h = elim (Option-cases (make d)) [
    | inl e ↦ rw e (ground (arith, eq_iff (dkey d) k, lookup-none key eq eq_iff k xs))
    | inr (x, e) ↦ rw e (
        ground (
          arith,
          lookup-append key eq eq_iff k xs x,
          make_key d x e,
          eq_iff (dkey d) k,
          eq_iff (key x) k,
          lookup-none key eq eq_iff k xs,
        ))
  ]

  lookup-upsert :
      (d : D) (k : K) (xs : List A)
      → lookup key eq k (upsert key dkey eq update make d xs)
        ≡ (if eq (dkey d) k then merged update make d (lookup key eq k xs) else lookup key eq k xs)
  unfolding upsert
  lookup-upsert d k xs = elim (Bool-cases (has key eq (dkey d) xs)) [
    | inl e ↦
        rw (e, lookup-modify key eq eq_iff (update d) (dkey d) k xs (update_key d))
          (ground (arith, eq_iff (dkey d) k, lookup-ne-none key eq eq_iff k xs))
    | inr e ↦
        rw (e, lookup-make d k xs e)
          (ground (arith, eq_iff (dkey d) k, lookup-none key eq eq_iff k xs))
  ]

  Distinct-upsert :
      (d : D) (xs : List A)
      → Distinct key eq xs
      → Distinct key eq (upsert key dkey eq update make d xs)
  unfolding upsert
  Distinct-upsert d xs h = elim (Bool-cases (has key eq (dkey d) xs)) [
    | inl e ↦ rw e (Distinct-modify key eq eq_iff (update d) _ xs (update_key d) h)
    | inr e ↦ rw e (elim (Option-cases (make d)) [
      | inl n ↦ rw n h
      | inr (x, s) ↦ rw s (Distinct-append key eq eq_iff xs x (rw (make_key d x s) e) h)
    ])
  ]

  pub Distinct-upsert_all :
      (ds : List D) (xs : List A)
      → Distinct key eq xs
      → Distinct key eq (upsert_all key dkey eq update make ds xs)
  unfolding upsert_all
  Distinct-upsert_all [] xs h = h
  Distinct-upsert_all (d ∷ ds) xs h = Distinct-upsert_all ds _ (Distinct-upsert d xs h)

  pub lookup-upsert_all :
      (ds : List D) (k : K) (xs : List A)
      → Distinct dkey eq ds
      → lookup key eq k (upsert_all key dkey eq update make ds xs)
        ≡ after_entry update make (lookup dkey eq k ds) (lookup key eq k xs)
  unfolding upsert_all lookup
  lookup-upsert_all [] k xs h = refl
  lookup-upsert_all (d ∷ ds) k xs h =
      lookup-upsert_all ds k (upsert key dkey eq update make d xs) h.1
      ∙ ground (arith, lookup-upsert d k xs, eq_iff (dkey d) k, lookup-none dkey eq eq_iff k ds)

  -- The same for entries that share keys.
  pub lookup-upsert_all_merged :
      (ds : List D) (k : K) (xs : List A)
      → lookup key eq k (upsert_all key dkey eq update make ds xs)
        ≡ all_merged update make (filter (λ d. eq (dkey d) k) ds) (lookup key eq k xs)
  unfolding upsert_all filter all_merged
  lookup-upsert_all_merged [] k xs = refl
  lookup-upsert_all_merged (d ∷ ds) k xs = elim (Bool-cases (eq (dkey d) k)) [
    | inl e ↦ rw (e, lookup-upsert_all_merged ds k _, lookup-upsert d k xs, e) refl
    | inr e ↦ rw (e, lookup-upsert_all_merged ds k _, lookup-upsert d k xs, e) refl
  ]

  -- Erase what is not reported, then run the loop: a key finds something exactly if an entry has it.
  pub lookup-sync :
      (ds : List D) (k : K) (xs : List A)
      → Distinct dkey eq ds
      → lookup key eq k
          (upsert_all key dkey eq update make ds (filter (λ x. has dkey eq (key x) ds) xs))
        ≡ after_report update make (lookup dkey eq k ds) (lookup key eq k xs)
  lookup-sync ds k xs h =
      lookup-upsert_all ds k _ h
      ∙ rw
          (lookup-filter key eq eq_iff (λ x. has dkey eq (key x) ds) (λ j. has dkey eq j ds) k xs
            (λ x. refl))
          (elim (Option-cases (lookup dkey eq k ds)) [
            | inl n ↦ rw n (ground (arith, lookup-ne-none dkey eq eq_iff k ds))
            | inr (d, s) ↦ rw s (ground (arith, lookup-none dkey eq eq_iff k ds))
          ])

-- What the changes keep and the new elements have holds of every element after the loop.
module _ {A D K : Type 0} (key : A → K) (dkey : D → K) (eq : K → K → Bool) (update : D → A → A)
    (make : D → Option A) (P : A → Type 0) (update_keeps : (d : D) (x : A) → P x → P (update d x))
    (make_has : (d : D) (x : A) → make d ≡ some x → P x) where
  All-modify :
      (d : D) (p : A → Bool) (xs : List A) → All P xs → All P (modify_first p (update d) xs)
  unfolding modify_first
  All-modify d p [] h = tt
  All-modify d p (x ∷ xs) h = elim (Bool-cases (p x)) [
    | inl e ↦ rw e (update_keeps d x h.0, h.1)
    | inr e ↦ rw e (h.0, All-modify d p xs h.1)
  ]

  pub All-upsert_all :
      (ds : List D) (xs : List A) → All P xs → All P (upsert_all key dkey eq update make ds xs)
  unfolding upsert_all upsert
  All-upsert_all [] xs h = h
  All-upsert_all (d ∷ ds) xs h = elim (Bool-cases (has key eq (dkey d) xs)) [
    | inl e ↦ rw e (All-upsert_all ds _ (All-modify d _ xs h))
    | inr e ↦ rw e (All-upsert_all ds _ (All-append_option P xs (make d) h (make_has d)))
  ]
