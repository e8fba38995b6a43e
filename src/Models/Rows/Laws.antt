-- ===== src/Models/Rows/Laws.antt =====
-- The changes that the loops of src/models tell, and the rows that they leave.
use mathlib.Core.List.{append_assoc}
use crypto_shloma.Prelude.{
  ℕ, suc, ◌<◌, ◌≤◌, Bool, not, List, [], ◌∷◌, ◌++◌, Option, none, some, find, modify_first, set,
  length, filter, ◌≡◌, refl, ◌∙◌, ap, arith, Bool-cases, Option-cases, inl, inr,
}
use crypto_shloma.Storage.Keyed.{lookup}
use crypto_shloma.Models.Rows.{
  Change, Rows, insert_at, remove_at, follow, follow_all, row_of, erase_rows, append_row, then_rows,
  refresh, each_row, upsert_row, upsert_rows,
}

module _ {A : Type 0} where
  -- The row of a change is there, or is the one behind the last for a new row.
  abbrev pub InRange : Change A → List A → Type 0
  InRange (Change.inserted i x) xs = i ≤ length xs
  InRange (Change.removed i) xs = i < length xs
  InRange (Change.changed i x) xs = i < length xs
  InRange (Change.reset ys) xs = Unit

  abbrev pub AllInRange : List (Change A) → List A → Type 0
  AllInRange [] xs = Unit
  AllInRange (c ∷ cs) xs = InRange c xs × AllInRange cs (follow c xs)

  -- A view that had the rows before an operation has those after it, and is told only of rows that
  -- there are.
  pub record Shows (xs : List A) (r : Rows A) : Type 0 where
    pub shown : follow_all r.1 xs ≡ r.0
    pub in_range : AllInRange r.1 xs

  pub follow_all-append :
      (cs ds : List (Change A)) (xs : List A)
      → follow_all (cs ++ ds) xs ≡ follow_all ds (follow_all cs xs)
  unfolding follow_all
  follow_all-append [] ds xs = refl
  follow_all-append (c ∷ cs) ds xs = follow_all-append cs ds (follow c xs)

  AllInRange-append :
      (cs ds : List (Change A)) (xs : List A)
      → AllInRange cs xs
      → AllInRange ds (follow_all cs xs)
      → AllInRange (cs ++ ds) xs
  unfolding follow_all
  AllInRange-append [] ds xs h k = k
  AllInRange-append (c ∷ cs) ds xs h k = (h.0, AllInRange-append cs ds (follow c xs) h.1 k)

  pub Shows-same : (xs : List A) → Shows xs (xs, [])
  unfolding follow_all
  Shows-same xs = record { shown = refl; in_range = tt }

  pub Shows-compose :
      (xs ys zs : List A) (cs ds : List (Change A))
      → Shows xs (ys, cs)
      → Shows ys (zs, ds)
      → Shows xs (zs, cs ++ ds)
  Shows-compose xs ys zs cs ds h k = record {
    shown = follow_all-append cs ds xs ∙ rw h.shown k.shown;
    in_range = AllInRange-append cs ds xs h.in_range (rw h.shown k.in_range);
  }

  pub Shows-then :
      (f g : List A → Rows A) (xs : List A)
      → ((ys : List A) → Shows ys (f ys))
      → ((ys : List A) → Shows ys (g ys))
      → Shows xs (then_rows f g xs)
  unfolding then_rows
  Shows-then f g xs h k =
      Shows-compose xs (f xs).0 (g (f xs).0).0 (f xs).1 (g (f xs).0).1 (h xs) (k (f xs).0)

  pub Shows-refresh : (xs : List A) → Shows xs (refresh xs)
  unfolding refresh follow_all
  Shows-refresh xs = record { shown = refl; in_range = (tt, tt) }

  insert_at-length : (x : A) (xs : List A) → insert_at (length xs) x xs ≡ xs ++ x ∷ []
  unfolding insert_at
  insert_at-length x [] = refl
  insert_at-length x (y ∷ xs) = ap (λ l. y ∷ l) (insert_at-length x xs)

  pub Shows-append : (o : Option A) (xs : List A) → Shows xs (append_row o xs)
  unfolding append_row follow_all
  Shows-append none xs = Shows-same xs
  Shows-append (some x) xs = record { shown = insert_at-length x xs; in_range = (omega arith, tt) }

  remove_at-length : (x : A) (pre xs : List A) → remove_at (length pre) (pre ++ x ∷ xs) ≡ pre ++ xs
  unfolding remove_at
  remove_at-length x [] xs = refl
  remove_at-length x (y ∷ pre) xs = ap (λ l. y ∷ l) (remove_at-length x pre xs)

  length-snoc : (x : A) (pre : List A) → length (pre ++ x ∷ []) ≡ suc (length pre)
  length-snoc x [] = refl
  length-snoc x (y ∷ pre) = ap suc (length-snoc x pre)

  length-middle : (x : A) (pre xs : List A) → length pre < length (pre ++ x ∷ xs)
  length-middle x [] xs = omega arith
  length-middle x (y ∷ pre) xs = omega (arith, length-middle x pre xs)

  Shows-removed :
      (x : A) (pre xs : List A) (r : Rows A)
      → Shows (pre ++ xs) r
      → Shows (pre ++ x ∷ xs) (r.0, Change.removed (length pre) ∷ r.1)
  unfolding follow_all follow
  Shows-removed x pre xs r h = record {
    shown = ap (follow_all r.1) (remove_at-length x pre xs) ∙ h.shown;
    in_range = (length-middle x pre xs, rw (remove_at-length x pre xs) h.in_range);
  }

  Shows-kept :
      (x : A) (pre xs ys : List A) (cs : List (Change A))
      → Shows ((pre ++ x ∷ []) ++ xs) ((pre ++ x ∷ []) ++ ys, cs)
      → Shows (pre ++ x ∷ xs) (pre ++ x ∷ ys, cs)
  Shows-kept x pre xs ys cs h = rw (append_assoc pre (x ∷ []) xs, append_assoc pre (x ∷ []) ys) at h

  -- The loop that erases, from the middle of the rows.
  erase_from :
      (p : A → Bool) (pre xs : List A)
      → Shows
          (pre ++ xs)
          (pre ++ (erase_rows p (length pre) xs).0, (erase_rows p (length pre) xs).1)
  unfolding erase_rows
  erase_from p pre [] = Shows-same (pre ++ [])
  erase_from p pre (x ∷ xs) = elim (Bool-cases (p x)) [
    | inl e ↦ rw e (Shows-removed x pre xs _ (erase_from p pre xs))
    | inr e ↦
        rw e (Shows-kept x pre xs _ _ (rw (length-snoc x pre) at (erase_from p (pre ++ x ∷ []) xs)))
  ]

  pub Shows-erase : (p : A → Bool) (xs : List A) → Shows xs (erase_rows p 0 xs)
  Shows-erase p xs = erase_from p [] xs

  pub erase_rows-rows :
      (p : A → Bool) (n : ℕ) (xs : List A) → (erase_rows p n xs).0 ≡ filter (λ x. not (p x)) xs
  unfolding erase_rows filter
  erase_rows-rows p n [] = refl
  erase_rows-rows p n (x ∷ xs) = elim (Bool-cases (p x)) [
    | inl e ↦ rw e (erase_rows-rows p n xs)
    | inr e ↦ rw e (ap (λ l. x ∷ l) (erase_rows-rows p (suc n) xs))
  ]

  -- The row of the element that was found.
  found_row :
      (p : A → Bool) (f : A → A) (x : A) (xs : List A)
      → find p xs ≡ some x
      → (set xs (row_of p xs) (f x) ≡ modify_first p f xs) × (row_of p xs < length xs)
  unfolding find modify_first row_of set
  found_row p f x [] h = ground arith
  found_row p f x (y ∷ xs) h = elim (Bool-cases (p y)) [
    | inl e ↦ rw e (ground (arith, rw e at h))
    | inr e ↦ rw e (
        let (shown, in_range) = found_row p f x xs (rw e at h) in
        (ap (λ l. y ∷ l) shown, omega (arith, in_range)))
  ]

  pub Shows-changed :
      (p : A → Bool) (f : A → A) (x : A) (xs : List A)
      → find p xs ≡ some x
      → Shows xs (modify_first p f xs, Change.changed (row_of p xs) (f x) ∷ [])
  unfolding follow_all follow
  Shows-changed p f x xs h =
      let (shown, in_range) = found_row p f x xs h in
      record { shown = shown; in_range = (in_range, tt) }

module _ {A D : Type 0} (f : D → List A → Rows A) where
  pub Shows-each :
      ((d : D) (ys : List A) → Shows ys (f d ys))
      → (ds : List D) (xs : List A) → Shows xs (each_row f ds xs)
  unfolding each_row
  Shows-each h [] xs = Shows-same xs
  Shows-each h (d ∷ ds) xs = Shows-then (f d) (each_row f ds) xs (h d) (Shows-each h ds)

module _ {A D K : Type 0} (key : A → K) (dkey : D → K) (eq : K → K → Bool) (newer : D → A → Bool)
    (update : D → A → A) (make : D → Option A) where
  Shows-upsert_row :
      (d : D) (xs : List A) → Shows xs (upsert_row key dkey eq newer update make d xs)
  unfolding upsert_row lookup
  Shows-upsert_row d xs = elim (Option-cases (find (λ y. eq (key y) (dkey d)) xs)) [
    | inl n ↦ rw n (Shows-append (make d) xs)
    | inr (x, h) ↦ rw h (elim (Bool-cases (newer d x)) [
      | inl e ↦ rw e (Shows-changed (λ y. eq (key y) (dkey d)) (update d) x xs h)
      | inr e ↦ rw e (Shows-same xs)
    ])
  ]

  pub Shows-upsert :
      (ds : List D) (xs : List A) → Shows xs (upsert_rows key dkey eq newer update make ds xs)
  unfolding upsert_rows
  Shows-upsert ds xs = Shows-each (upsert_row key dkey eq newer update make) Shows-upsert_row ds xs
