-- ===== src/Models/Rows/Stored.antt =====
-- The rows that the loops of src/models leave, and what the loops of src/storage leave of the same list.
use crypto_shloma.Prelude.{
  Bool, true, false, List, [], ◌∷◌, Option, none, some, find, any, modify_first, if◌then◌else◌, ◌≡◌,
  refl, sym, ◌∙◌, ap, arith, Bool-cases, Option-cases, inl, inr,
}
use mathlib.Core.Option.{some-injective}
use crypto_shloma.Storage.Keyed.{lookup, upsert, upsert_all, append_option}
use crypto_shloma.Models.Rows.{append_row, then_rows, each_row, upsert_row, upsert_rows}

module _ {A : Type 0} where
  any-find-none : (p : A → Bool) (xs : List A) → find p xs ≡ none → any p xs ≡ false
  unfolding find
  any-find-none p [] h = refl
  any-find-none p (x ∷ xs) h = ground (arith, any-find-none p xs)

  any-find-some : (p : A → Bool) (x : A) (xs : List A) → find p xs ≡ some x → any p xs ≡ true
  unfolding find
  any-find-some p x [] h = ground arith
  any-find-some p x (y ∷ xs) h = ground (arith, any-find-some p x xs)

  -- Only the element that is found counts for what `modify_first` makes.
  modify_found :
      (p : A → Bool) (f g : A → A) (x : A) (xs : List A)
      → find p xs ≡ some x
      → f x ≡ g x
      → modify_first p f xs ≡ modify_first p g xs
  unfolding find modify_first
  modify_found p f g x [] h e = refl
  modify_found p f g x (y ∷ xs) h e = elim (Bool-cases (p y)) [
    | inl t ↦ rw (t, some-injective _ _ (rw t at h)) (ap (λ z. z ∷ xs) e)
    | inr t ↦ rw t (ap (λ l. y ∷ l) (modify_found p f g x xs (rw t at h) e))
  ]

  modify_same : (p : A → Bool) (xs : List A) → modify_first p (λ x. x) xs ≡ xs
  unfolding modify_first
  modify_same p [] = refl
  modify_same p (x ∷ xs) = ground (arith, modify_same p xs)

  pub append_row-rows : (o : Option A) (xs : List A) → (append_row o xs).0 ≡ append_option xs o
  unfolding append_row
  append_row-rows none xs = refl
  append_row-rows (some x) xs = refl

module _ {A D K : Type 0} (key : A → K) (dkey : D → K) (eq : K → K → Bool) (newer : D → A → Bool)
    (update : D → A → A) (make : D → Option A) where
  -- The change of a row, made whether or not the entry is older.
  abbrev pub if_newer : D → A → A
  if_newer d x = if newer d x then update d x else x

  upsert_row-rows :
      (d : D) (xs : List A)
      → (upsert_row key dkey eq newer update make d xs).0 ≡ upsert key dkey eq if_newer make d xs
  unfolding upsert_row upsert lookup
  upsert_row-rows d xs = elim (Option-cases (find (λ y. eq (key y) (dkey d)) xs)) [
    | inl n ↦ rw (n, any-find-none (λ y. eq (key y) (dkey d)) xs n) (append_row-rows (make d) xs)
    | inr (x, h) ↦
        rw (h, any-find-some (λ y. eq (key y) (dkey d)) x xs h)
          (elim (Bool-cases (newer d x)) [
            | inl e ↦
                rw e (
                  modify_found (λ y. eq (key y) (dkey d)) (update d) (if_newer d) x xs h
                    (rw e refl))
            | inr e ↦ rw e (
                sym (
                  modify_found (λ y. eq (key y) (dkey d)) (if_newer d) (λ y. y) x xs h (rw e refl)
                  ∙ modify_same _ xs))
          ])
  ]

  -- After the loop the rows are what the loop of the storages makes of the list.
  pub upsert_rows-rows :
      (ds : List D) (xs : List A)
      → (upsert_rows key dkey eq newer update make ds xs).0
        ≡ upsert_all key dkey eq if_newer make ds xs
  unfolding upsert_rows each_row then_rows upsert_all
  upsert_rows-rows [] xs = refl
  upsert_rows-rows (d ∷ ds) xs = rw (upsert_row-rows d xs) (upsert_rows-rows ds _)
