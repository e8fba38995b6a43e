-- ===== src/Storage/Keyed.antt =====
-- The loop that the storages share: `find_if` by a key, then either a change of the element that was
-- found or an `append` of a new one.
pub mod Laws
pub mod Upsert
use crypto_shloma.Prelude.{
  Bool, true, false, List, [], ◌∷◌, ◌++◌, Option, none, some, ◌≡◌, refl, ◌↔◌, arith, find, filter,
  modify_first, any, if◌then◌else◌, All, inl, inr, Bool-cases, Option-cases, sym, ◌∙◌,
}

module _ {A K : Type 0} (key : A → K) (eq : K → K → Bool) where
  unfoldable pub lookup : K → List A → Option A
  unfolding find
  lookup k = find (λ x. eq (key x) k)

  abbrev pub has : K → List A → Bool
  has k = any (λ x. eq (key x) k)

  -- No two elements have one key.
  abbrev pub Distinct : List A → Type 0
  Distinct [] = Unit
  Distinct (x ∷ xs) = (has (key x) xs ≡ false) × Distinct xs

-- What one reported entry does to the element with its key, or to the lack of one.
abbrev pub merged : {A D : Type 0} → (D → A → A) → (D → Option A) → D → Option A → Option A
merged update make d none = make d
merged update make d (some x) = some (update d x)

abbrev pub append_option : {A : Type 0} → List A → Option A → List A
append_option xs none = xs
append_option xs (some x) = xs ++ x ∷ []

module _ {A D K : Type 0} (key : A → K) (dkey : D → K) (eq : K → K → Bool) (update : D → A → A)
    (make : D → Option A) where
  unfoldable pub upsert : D → List A → List A
  upsert d xs =
      if has key eq (dkey d) xs
      then modify_first (λ x. eq (key x) (dkey d)) (update d) xs
      else append_option xs (make d)

  unfoldable pub upsert_all : List D → List A → List A
  upsert_all [] xs = xs
  upsert_all (d ∷ ds) xs = upsert_all ds (upsert d xs)
