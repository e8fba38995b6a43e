-- ===== src/Models/Rows.antt =====
-- What the list models of src/models share: rows, and the changes of rows that a model tells its views
-- (beginInsertRows, beginRemoveRows, dataChanged, beginResetModel).
pub mod Laws
pub mod Stored
use crypto_shloma.Prelude.{
  ℕ, suc, ◌+◌, ◌-◌, ◌<◌, ◌≤◌, Bool, List, [], ◌∷◌, ◌++◌, Option, none, some, find, modify_first,
  set, length, if◌then◌else◌,
}
use crypto_shloma.Storage.Keyed.{lookup}

-- A model speaks of one row at a time. A view reads the row when it is told of it.
pub data Change (A : Type 0) : Type 0 where
  inserted : ℕ → A → Change A
  removed : ℕ → Change A
  changed : ℕ → A → Change A
  reset : List A → Change A

-- The rows after an operation, and what the views are told.
abbrev pub Rows : Type 0 → Type 0
Rows A = List A × List (Change A)

module _ {A : Type 0} where
  unfoldable pub insert_at : ℕ → A → List A → List A
  insert_at ℕ.zero v xs = v ∷ xs
  insert_at (suc i) v [] = v ∷ []
  insert_at (suc i) v (x ∷ xs) = x ∷ insert_at i v xs

  unfoldable pub remove_at : ℕ → List A → List A
  remove_at i [] = []
  remove_at ℕ.zero (x ∷ xs) = xs
  remove_at (suc i) (x ∷ xs) = x ∷ remove_at i xs

  -- What a view makes of a change: it keeps a copy of the rows.
  unfoldable pub follow : Change A → List A → List A
  unfolding insert_at remove_at set
  follow (Change.inserted i x) xs = insert_at i x xs
  follow (Change.removed i) xs = remove_at i xs
  follow (Change.changed i x) xs = set xs i x
  follow (Change.reset ys) xs = ys

  unfoldable pub follow_all : List (Change A) → List A → List A
  unfolding follow
  follow_all [] xs = xs
  follow_all (c ∷ cs) xs = follow_all cs (follow c xs)

  -- `std::distance` from the beginning to the element that `std::find_if` found.
  unfoldable pub row_of : (A → Bool) → List A → ℕ
  row_of p [] = 0
  row_of p (x ∷ xs) = if p x then 0 else suc (row_of p xs)

  -- The loop over the rows that erases those that pass; `n` is the place of the iterator.
  unfoldable pub erase_rows : (A → Bool) → ℕ → List A → Rows A
  erase_rows p n [] = ([], [])
  erase_rows p n (x ∷ xs) =
      let rest = erase_rows p (if p x then n else suc n) xs in
      if p x then (rest.0, Change.removed n ∷ rest.1) else (x ∷ rest.0, rest.1)

  unfoldable pub append_row : Option A → List A → Rows A
  append_row none xs = (xs, [])
  append_row (some x) xs = (xs ++ x ∷ [], Change.inserted (length xs) x ∷ [])

  unfoldable pub then_rows : (List A → Rows A) → (List A → Rows A) → List A → Rows A
  then_rows f g xs = let r = f xs in let s = g r.0 in (s.0, r.1 ++ s.1)

  -- `refresh`: the rows stay.
  unfoldable pub refresh : List A → Rows A
  refresh xs = (xs, Change.reset xs ∷ [])

module _ {A D : Type 0} (f : D → List A → Rows A) where
  unfoldable pub each_row : List D → List A → Rows A
  unfolding then_rows
  each_row [] xs = (xs, [])
  each_row (d ∷ ds) xs = then_rows (f d) (each_row ds) xs

module _ {A D K : Type 0} (key : A → K) (dkey : D → K) (eq : K → K → Bool) (newer : D → A → Bool)
    (update : D → A → A) (make : D → Option A) where
  abbrev pub update_row : D → List A → Option A → Rows A
  update_row d xs none = append_row (make d) xs
  update_row d xs (some x) =
      let is_row = λ (y : A). eq (key y) (dkey d) in
      if newer d x
      then (modify_first is_row (update d) xs, Change.changed (row_of is_row xs) (update d x) ∷ [])
      else (xs, [])

  -- One round of the loop that the merges share: the row with the key of an entry is changed if the
  -- entry is not older, and a missing one is appended.
  unfoldable pub upsert_row : D → List A → Rows A
  unfolding append_row modify_first row_of lookup
  upsert_row d xs = update_row d xs (lookup key eq (dkey d) xs)

  unfoldable pub upsert_rows : List D → List A → Rows A
  unfolding each_row upsert_row
  upsert_rows = each_row upsert_row
