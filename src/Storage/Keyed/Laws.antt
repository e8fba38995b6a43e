-- ===== src/Storage/Keyed/Laws.antt =====
-- Lookups after the shared loop, and the uniqueness of keys.
use crypto_shloma.Prelude.{
  Bool, true, false, List, [], ◌∷◌, ◌++◌, Option, none, some, ◌≡◌, ◌≢◌, refl, ◌↔◌, arith, filter,
  modify_first, erase_first, if◌then◌else◌, All, inl, inr, Bool-cases, ◌∙◌,
}
use mathlib.Core.Option
use crypto_shloma.Storage.Keyed.{lookup, has, Distinct, append_option}

module _ {A : Type 0} (P : A → Type 0) where
  pub All-append_option :
      (xs : List A) (new : Option A)
      → All P xs
      → ((x : A) → new ≡ some x → P x)
      → All P (append_option xs new)
  All-append_option xs none h n = h
  All-append_option [] (some x) h n = (n x refl, tt)
  All-append_option (y ∷ xs) (some x) h n = (h.0, All-append_option xs (some x) h.1 n)

  pub All-filter : (p : A → Bool) (xs : List A) → All P xs → All P (filter p xs)
  unfolding filter
  All-filter p [] h = tt
  All-filter p (x ∷ xs) h = elim (Bool-cases (p x)) [
    | inl e ↦ rw e (h.0, All-filter p xs h.1)
    | inr e ↦ rw e (All-filter p xs h.1)
  ]

  -- What fails the test of the filter may lose the property.
  pub All-filter_where :
      (Q : A → Type 0) (p : A → Bool) (xs : List A)
      → ((x : A) → P x → p x ≡ true → Q x)
      → All P xs
      → All Q (filter p xs)
  unfolding filter
  All-filter_where Q p [] f h = tt
  All-filter_where Q p (x ∷ xs) f h = elim (Bool-cases (p x)) [
    | inl e ↦ rw e (f x h.0 e, All-filter_where Q p xs f h.1)
    | inr e ↦ rw e (All-filter_where Q p xs f h.1)
  ]

-- What was found, if it passes the test.
abbrev pub found_where : {A : Type 0} → (A → Bool) → Option A → Option A
found_where p none = none
found_where p (some x) = if p x then some x else none

module _ {A K : Type 0} (key : A → K) (eq : K → K → Bool)
    (eq_iff : (j k : K) → (eq j k ≡ true) ↔ (j ≡ k)) where
  pub lookup-none : (k : K) (xs : List A) → has key eq k xs ≡ false → lookup key eq k xs ≡ none
  unfolding lookup
  lookup-none k [] h = refl
  lookup-none k (x ∷ xs) h = ground (arith, lookup-none k xs)

  pub lookup-ne-none : (k : K) (xs : List A) → has key eq k xs ≡ true → lookup key eq k xs ≢ none
  unfolding lookup
  lookup-ne-none k [] h = cc
  lookup-ne-none k (x ∷ xs) h = ground (arith, lookup-ne-none k xs)

  pub key-lookup : (k : K) (xs : List A) (x : A) → lookup key eq k xs ≡ some x → key x ≡ k
  unfolding lookup
  key-lookup k [] x h = cc
  key-lookup k (y ∷ xs) x h = ground (arith, key-lookup k xs x, eq_iff (key y) k)

  pub lookup-append :
      (k : K) (xs : List A) (x : A)
      → lookup key eq k (xs ++ x ∷ [])
        ≡ (if has key eq k xs then lookup key eq k xs else if eq (key x) k then some x else none)
  unfolding lookup
  lookup-append k [] x = refl
  lookup-append k (y ∷ xs) x = ground (arith, lookup-append k xs x)

  pub lookup-modify :
      (f : A → A) (j k : K) (xs : List A)
      → ((x : A) → key (f x) ≡ key x)
      → lookup key eq k (modify_first (λ x. eq (key x) j) f xs)
        ≡ (if eq j k then Option.map f (lookup key eq k xs) else lookup key eq k xs)
  unfolding lookup modify_first
  lookup-modify f j k [] h = ground arith
  lookup-modify f j k (x ∷ xs) h = ground (
    arith,
    lookup-modify f j k xs,
    h x,
    eq_iff (key x) j,
    eq_iff j k,
    eq_iff (key x) k,
    eq_iff (key (f x)) k,
  )

  pub has-modify :
      (f : A → A) (p : A → Bool) (k : K) (xs : List A)
      → ((x : A) → key (f x) ≡ key x)
      → has key eq k (modify_first p f xs) ≡ has key eq k xs
  unfolding modify_first
  has-modify f p k [] h = refl
  has-modify f p k (x ∷ xs) h = ground (arith, has-modify f p k xs h, h x)

  pub has-append :
      (k : K) (xs : List A) (x : A)
      → has key eq k (xs ++ x ∷ []) ≡ (if has key eq k xs then true else eq (key x) k)
  has-append k [] x = ground arith
  has-append k (y ∷ xs) x = ground (arith, has-append k xs x)

  pub Distinct-modify :
      (f : A → A) (p : A → Bool) (xs : List A)
      → ((x : A) → key (f x) ≡ key x)
      → Distinct key eq xs
      → Distinct key eq (modify_first p f xs)
  unfolding modify_first
  Distinct-modify f p [] h d = tt
  Distinct-modify f p (x ∷ xs) h d = elim (Bool-cases (p x)) [
    | inl e ↦ rw (e, h x) d
    | inr e ↦ rw e (has-modify f p (key x) xs h ∙ d.0, Distinct-modify f p xs h d.1)
  ]

  has-erase :
      (p : A → Bool) (k : K) (xs : List A)
      → has key eq k xs ≡ false
      → has key eq k (erase_first p xs) ≡ false
  unfolding erase_first
  has-erase p k [] h = refl
  has-erase p k (x ∷ xs) h = ground (arith, has-erase p k xs)

  pub Distinct-erase :
      (p : A → Bool) (xs : List A) → Distinct key eq xs → Distinct key eq (erase_first p xs)
  unfolding erase_first
  Distinct-erase p [] d = tt
  Distinct-erase p (x ∷ xs) d = elim (Bool-cases (p x)) [
    | inl e ↦ rw e d.1
    | inr e ↦ rw e (has-erase p (key x) xs d.0, Distinct-erase p xs d.1)
  ]

  pub Distinct-append :
      (xs : List A) (x : A)
      → has key eq (key x) xs ≡ false
      → Distinct key eq xs
      → Distinct key eq (xs ++ x ∷ [])
  Distinct-append [] x n d = (refl, tt)
  Distinct-append (y ∷ xs) x n d = (
    ground (arith, has-append (key y) xs x, eq_iff (key x) (key y), eq_iff (key y) (key x)),
    Distinct-append xs x (ground arith) d.1,
  )

  -- The loop that erases by a test on the key.
  pub lookup-filter :
      (p : A → Bool) (pk : K → Bool) (k : K) (xs : List A)
      → ((x : A) → p x ≡ pk (key x))
      → lookup key eq k (filter p xs) ≡ (if pk k then lookup key eq k xs else none)
  unfolding lookup filter
  lookup-filter p pk k [] h = ground arith
  lookup-filter p pk k (x ∷ xs) h = ground (arith, lookup-filter p pk k xs, h x, eq_iff (key x) k)

  -- The same for a test of the whole element, where keys are unique.
  pub lookup-filter_found :
      (p : A → Bool) (k : K) (xs : List A)
      → Distinct key eq xs
      → lookup key eq k (filter p xs) ≡ found_where p (lookup key eq k xs)
  unfolding lookup filter
  lookup-filter_found p k [] d = refl
  lookup-filter_found p k (x ∷ xs) d =
      ground (arith, lookup-filter_found p k xs, eq_iff (key x) k, lookup-none k xs)

  has-filter :
      (p : A → Bool) (k : K) (xs : List A)
      → has key eq k xs ≡ false
      → has key eq k (filter p xs) ≡ false
  unfolding filter
  has-filter p k [] h = refl
  has-filter p k (x ∷ xs) h = ground (arith, has-filter p k xs)

  pub Distinct-filter :
      (p : A → Bool) (xs : List A) → Distinct key eq xs → Distinct key eq (filter p xs)
  unfolding filter
  Distinct-filter p [] d = tt
  Distinct-filter p (x ∷ xs) d = elim (Bool-cases (p x)) [
    | inl e ↦ rw e (has-filter p (key x) xs d.0, Distinct-filter p xs d.1)
    | inr e ↦ rw e (Distinct-filter p xs d.1)
  ]
