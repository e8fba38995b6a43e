-- ===== src/Tests/Sort.antt =====
-- Insertion sort, as a `std::sort` that keeps its promises.
use mathlib.Core.List.{Perm}
use mathlib.Core.List.Perm
use crypto_shloma.Prelude.{
  Bool, true, false, List, [], ◌∷◌, ◌≡◌, arith, All, if◌then◌else◌, Bool-cases, inl, inr,
}
use crypto_shloma.Storage.Orders.Filter.{Sorted}

module _ {A : Type 0} (before : A → A → Bool) where
  unfoldable pub insert : A → List A → List A
  insert x [] = x ∷ []
  insert x (y ∷ ys) = let rest = y ∷ insert x ys in if before y x then rest else x ∷ y ∷ ys

  unfoldable pub insertion_sort : List A → List A
  unfolding insert
  insertion_sort [] = []
  insertion_sort (x ∷ xs) = insert x (insertion_sort xs)

  insert-perm : (x : A) (xs : List A) → Perm (insert x xs) (x ∷ xs)
  unfolding insert
  insert-perm x [] = Perm.refl (x ∷ [])
  insert-perm x (y ∷ ys) = elim (Bool-cases (before y x)) [
    | inl e ↦ rw e (Perm.trans (Perm.cons y (insert-perm x ys)) (Perm.swap x y ys))
    | inr e ↦ rw e (Perm.refl (x ∷ y ∷ ys))
  ]

  pub insertion_sort-perm : (xs : List A) → Perm (insertion_sort xs) xs
  unfolding insertion_sort
  insertion_sort-perm [] = Perm.refl []
  insertion_sort-perm (x ∷ xs) =
      Perm.trans (insert-perm x (insertion_sort xs)) (Perm.cons x (insertion_sort-perm xs))

  module _ (irreflexive : (a : A) → before a a ≡ false)
      (transitive : (a b c : A) → before a b ≡ true → before b c ≡ true → before a c ≡ true)
      (weak : (a b c : A) → before a b ≡ false → before b c ≡ false → before a c ≡ false) where
    not_after : (a b : A) → before a b ≡ true → before b a ≡ false
    not_after a b h = elim (Bool-cases (before b a)) [
      | inl e ↦ ground (arith, transitive a b a h e, irreflexive a)
      | inr e ↦ e
    ]

    All-insert : (P : A → Type 0) (x : A) (xs : List A) → P x → All P xs → All P (insert x xs)
    unfolding insert
    All-insert P x [] p h = (p, tt)
    All-insert P x (y ∷ ys) p h = elim (Bool-cases (before y x)) [
      | inl e ↦ rw e (h.0, All-insert P x ys p h.1)
      | inr e ↦ rw e (p, h)
    ]

    none_before :
        (x y : A) (ys : List A)
        → before y x ≡ false
        → All (λ z. before z y ≡ false) ys
        → All (λ z. before z x ≡ false) ys
    none_before x y [] e h = tt
    none_before x y (z ∷ ys) e h = (weak z y x h.0 e, none_before x y ys e h.1)

    insert-Sorted : (x : A) (xs : List A) → Sorted before xs → Sorted before (insert x xs)
    unfolding insert
    insert-Sorted x [] s = (tt, tt)
    insert-Sorted x (y ∷ ys) s = elim (Bool-cases (before y x)) [
      | inl e ↦ rw e (All-insert _ x ys (not_after y x e) s.0, insert-Sorted x ys s.1)
      | inr e ↦ rw e ((e, none_before x y ys e s.0), s)
    ]

    pub insertion_sort-Sorted : (xs : List A) → Sorted before (insertion_sort xs)
    unfolding insertion_sort
    insertion_sort-Sorted [] = tt
    insertion_sort-Sorted (x ∷ xs) = insert-Sorted x _ (insertion_sort-Sorted xs)
