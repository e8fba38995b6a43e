-- ===== src/Storage/Orders/Filter.antt =====
-- The `filter` functions of the storages of orders in src/storage.
use mathlib.Core.List.{Mem, Perm, not-mem-nil, mem-cons}
use mathlib.Core.List.Perm
use mathlib.Core.Logic.Or
use mathlib.Core.Logic.{∥∥₁_prop, ∨₁_prop}
use crypto_shloma.Prelude.{
  Bool, true, false, List, [], ◌∷◌, ◌≡◌, ◌↔◌, ap, filter, All, Bool-cases, inl, inr,
}
use crypto_shloma.Qt.{Qt}
use crypto_shloma.Base.Order.{Order}
use crypto_shloma.Storage.Orders.{newer, newest_first}

-- No later element is before an earlier one.
abbrev pub Sorted : {A : Type 0} → (A → A → Bool) → List A → Type 0
Sorted before [] = Unit
Sorted before (x ∷ xs) = All (λ y. before y x ≡ false) xs × Sorted before xs

module _ ⦃q : Qt⦄ where
  -- What `std::sort` promises for a strict weak order: a permutation, in order.
  pub record SortLaws : Type 1 where
    pub permutes : (A : Type 0) (before : A → A → Bool) (xs : List A) → Perm (q.sort A before xs) xs
    pub sorted :
        (A : Type 0) (before : A → A → Bool) (xs : List A)
        → ((a : A) → before a a ≡ false)
        → ((a b c : A) → before a b ≡ true → before b c ≡ true → before a c ≡ true)
        → ((a b c : A) → before a b ≡ false → before b c ≡ false → before a c ≡ false)
        → Sorted before (q.sort A before xs)
    -- `QDateTime::operator<` is a strict weak order.
    pub date_irreflexive : (a : q.QDateTime) → q.date_lt a a ≡ false
    pub date_transitive :
        (a b c : q.QDateTime) → q.date_lt a b ≡ true → q.date_lt b c ≡ true → q.date_lt a c ≡ true
    pub date_weak :
        (a b c : q.QDateTime)
        → q.date_lt a b ≡ false
        → q.date_lt b c ≡ false
        → q.date_lt a c ≡ false

  module _ (laws : SortLaws) where
    keep-prop : (p : Order → Bool) (o : Order) (os : List Order) → IsProp (Mem o os × (p o ≡ true))
    keep-prop p o os = hlevel

    mem-filter→ :
        (p : Order → Bool) (o : Order) (os : List Order)
        → Mem o (filter p os)
        → Mem o os × (p o ≡ true)
    unfolding filter
    mem-filter→ p o [] m = absurd (not-mem-nil m)
    mem-filter→ p o (x ∷ xs) m = elim (Bool-cases (p x)) [
      | inl e ↦
          Or.elim (keep-prop p o (x ∷ xs)) (mem-cons.0 (rw e at m))
            (λ here. (mem-cons.1 (Or.inl here), rw here e))
            (λ there. let h = mem-filter→ p o xs there in (mem-cons.1 (Or.inr h.0), h.1))
      | inr e ↦ let h = mem-filter→ p o xs (rw e at m) in (mem-cons.1 (Or.inr h.0), h.1)
    ]

    mem-filter← :
        (p : Order → Bool) (o : Order) (os : List Order)
        → Mem o os
        → p o ≡ true
        → Mem o (filter p os)
    unfolding filter
    mem-filter← p o [] m t = m
    mem-filter← p o (x ∷ xs) m t = elim (Bool-cases (p x)) [
      | inl e ↦ rw e (
          mem-cons.1 (
            Or.elim ∨₁_prop (mem-cons.0 m) (λ here. Or.inl here)
              (λ there. Or.inr (mem-filter← p o xs there t))))
      | inr e ↦ rw e (
          Or.elim (∥∥₁_prop) (mem-cons.0 m) (λ here. absurd (cc (ap p here)))
            (λ there. mem-filter← p o xs there t))
    ]

    -- If sorting permutes and orders by a strict weak order, as dates are, the selected orders are
    -- exactly the stored ones that match, and they come newest first.
    pub newest_first_lem :
        (p : Order → Bool) (os : List Order)
        → ((o : Order) → Mem o (newest_first (filter p os)) ↔ (Mem o os × (p o ≡ true)))
          × Sorted newer (newest_first (filter p os))
    newest_first_lem p os = (
      (λ o. (
        (λ m. mem-filter→ p o os ((Perm.mem_iff (laws.permutes Order newer (filter p os))).0 m)),
        (λ h.
            (Perm.mem_iff (laws.permutes Order newer (filter p os))).1
              (mem-filter← p o os h.0 h.1)),
      )),
      laws.sorted Order newer (filter p os) (λ a. laws.date_irreflexive _)
          (λ a b c h k. laws.date_transitive _ _ _ k h) (λ a b c h k. laws.date_weak _ _ _ k h),
    )
