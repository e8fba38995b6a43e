-- ===== src/Storage/OpenOrders/Pointers.antt =====
-- The pointer lists of `OpenOrdersStorage::merge` (src/storage/open_orders_storage.cpp).
use crypto_shloma.Prelude.{
  ℕ, ◌+◌, ◌<◌, Bool, true, false, not, ◌&&◌, ◌||◌, List, [], ◌∷◌, ◌++◌, ◌≡◌, refl, sym, ◌∙◌, ap,
  arith, ◌==◌, ==_iff, subst, some, any, filter, erase_first, map, All, Bool-cases, inl, inr,
}
use mathlib.Core.Option.{some-injective}
use crypto_shloma.Qt.{Qt}
use crypto_shloma.Base.Order.{Order}
use crypto_shloma.Api.Entry.{OrderEntry}
use crypto_shloma.Storage.Keyed.{Distinct}
use crypto_shloma.Storage.Keyed.Laws.{Distinct-filter, All-append_option}
use crypto_shloma.Storage.Orders.{is_of}
use crypto_shloma.Storage.OpenOrders.{
  Pointer, place, pointers, points_in, copy_of_market, copy_of_markets, is_reported,
  remove_pointers, remove_reported,
}

module _ {A : Type 0} where
  All-map : (P Q : A → Type 0) → ((x : A) → P x → Q x) → (xs : List A) → All P xs → All Q xs
  All-map P Q f [] h = tt
  All-map P Q f (x ∷ xs) h = (f x h.0, All-map P Q f xs h.1)

  All-zip :
      (P Q R : A → Type 0)
      → ((x : A) → P x → Q x → R x)
      → (xs : List A) → All P xs
      → All Q xs
      → All R xs
  All-zip P Q R f [] h k = tt
  All-zip P Q R f (x ∷ xs) h k = (f x h.0 k.0, All-zip P Q R f xs h.1 k.1)

  All-intro : (P : A → Type 0) → ((x : A) → P x) → (xs : List A) → All P xs
  All-intro P f [] = tt
  All-intro P f (x ∷ xs) = (f x, All-intro P f xs)

  filter-congr :
      (p q : A → Bool) (xs : List A) → All (λ x. p x ≡ q x) xs → filter p xs ≡ filter q xs
  unfolding filter
  filter-congr p q [] h = refl
  filter-congr p q (x ∷ xs) h = ground (arith, filter-congr p q xs)

  pub filter-filter :
      (p q : A → Bool) (xs : List A) → filter p (filter q xs) ≡ filter (λ x. q x && p x) xs
  unfolding filter
  filter-filter p q [] = refl
  filter-filter p q (x ∷ xs) = ground (arith, filter-filter p q xs)

  map-filter :
      {B : Type 0} (f : A → B) (k : B → Bool) (xs : List A)
      → map f (filter (λ x. k (f x)) xs) ≡ filter k (map f xs)
  unfolding filter
  map-filter f k [] = refl
  map-filter f k (x ∷ xs) = ground (arith, map-filter f k xs)

module _ ⦃q : Qt⦄ where
  absent :
      (n : ℕ) (ps : List Pointer) → points_in ps n ≡ false → All (λ p. (place p == n) ≡ false) ps
  absent n [] h = tt
  absent n (p ∷ ps) h = (ground arith, absent n ps (ground arith))

  filter_all : (ps : List Pointer) → filter (λ p. true) ps ≡ ps
  unfolding filter
  filter_all [] = refl
  filter_all (p ∷ ps) = ap (◌∷◌ p) (filter_all ps)

  points_in-append :
      (ps : List Pointer) (p : Pointer) (n : ℕ)
      → points_in (ps ++ p ∷ []) n ≡ (points_in ps n || (place p == n))
  points_in-append [] p n = ground arith
  points_in-append (r ∷ ps) p n = ground (arith, points_in-append ps p n)

  -- The pointer stands in the list, and no other has its place.
  Here : List Pointer → Pointer → Type 0
  Here ps p = (points_in ps (place p) ≡ true) × All (λ r. (place r == place p) ≡ true → r ≡ p) ps

  all-Here : (ps : List Pointer) → Distinct place ◌==◌ ps → All (Here ps) ps
  unfolding Here
  all-Here [] d = tt
  all-Here (p ∷ ps) d =
      let none_like = absent (place p) ps d.0 in
      (
        (
          ground arith,
          ((λ e. refl), All-zip _ _ _ (λ r f _ e. absurd (ground arith)) ps none_like none_like),
        ),
        All-zip _ _ _ (λ r f h. (ground arith, ((λ e. absurd (ground arith)), h.1))) ps none_like
            (all-Here ps d.1),
      )

  -- Each pointer of the list stands in the list.
  pub points_in_self :
      (ps : List Pointer) → Distinct place ◌==◌ ps → All (λ r. points_in ps (place r) ≡ true) ps
  unfolding Here
  points_in_self ps d = All-map _ _ (λ p h. h.0) ps (all-Here ps d)

  filter_absent :
      (n : ℕ) (ps : List Pointer)
      → points_in ps n ≡ false
      → filter (λ p. not (place p == n)) ps ≡ ps
  unfolding filter
  filter_absent n [] h = refl
  filter_absent n (p ∷ ps) h = ground (arith, filter_absent n ps)

  erase_first-filter :
      (n : ℕ) (ps : List Pointer)
      → Distinct place ◌==◌ ps
      → erase_first (λ p. place p == n) ps ≡ filter (λ p. not (place p == n)) ps
  unfolding erase_first filter
  erase_first-filter n [] d = refl
  erase_first-filter n (p ∷ ps) d = ground (arith, erase_first-filter n ps d.1, filter_absent n ps)

  remove_pointers-filter :
      (rs ps : List Pointer)
      → Distinct place ◌==◌ ps
      → remove_pointers rs ps ≡ filter (λ p. not (points_in rs (place p))) ps
  unfolding remove_pointers
  remove_pointers-filter [] ps d = sym (filter_all ps)
  remove_pointers-filter (r ∷ rs) ps d = rw (erase_first-filter (place r) ps d) (
      remove_pointers-filter rs _ (Distinct-filter place ◌==◌ ==_iff _ ps d)
      ∙ filter-filter _ _ ps
      ∙ filter-congr _ _ ps (All-intro _ (λ p. ground (arith, ==_iff (place r) (place p))) ps))

  copy_of_market-points_in :
      (e : OrderEntry) (ps filtered : List Pointer) (n : ℕ)
      → points_in (copy_of_market e ps filtered) n
        ≡ (points_in filtered n || any (λ p. (place p == n) && is_of e.market_id p.1) ps)
  unfolding copy_of_market
  copy_of_market-points_in e [] filtered n = ground arith
  copy_of_market-points_in e (p ∷ ps) filtered n = ground (
    arith,
    copy_of_market-points_in e ps filtered n,
    copy_of_market-points_in e ps (filtered ++ p ∷ []) n,
    points_in-append filtered p n,
    ==_iff (place p) n,
  )

  copy_of_markets-points_in :
      (es : List OrderEntry) (ps filtered : List Pointer) (n : ℕ)
      → points_in (copy_of_markets es ps filtered) n ≡ (
          points_in filtered n
          || any (λ e. any (λ p. (place p == n) && is_of e.market_id p.1) ps) es)
  unfolding copy_of_markets
  copy_of_markets-points_in [] ps filtered n = ground arith
  copy_of_markets-points_in (e ∷ es) ps filtered n = ground (
    arith,
    copy_of_markets-points_in es ps (copy_of_market e ps filtered) n,
    copy_of_market-points_in e ps filtered n,
  )

  All-copy_of_market :
      (P : Pointer → Type 0) (e : OrderEntry) (ps filtered : List Pointer)
      → All P ps
      → All P filtered
      → All P (copy_of_market e ps filtered)
  unfolding copy_of_market
  All-copy_of_market P e [] filtered h k = k
  All-copy_of_market P e (p ∷ ps) filtered h k =
      elim (Bool-cases (is_of e.market_id p.1 && not (points_in filtered (place p)))) [
        | inl t ↦ rw t (
            All-copy_of_market P e ps _ h.1
              (All-append_option P filtered (some p) k (λ x r. subst P (some-injective _ _ r) h.0)))
        | inr f ↦ rw f (All-copy_of_market P e ps filtered h.1 k)
      ]

  pub All-copy_of_markets :
      (P : Pointer → Type 0) (es : List OrderEntry) (ps filtered : List Pointer)
      → All P ps
      → All P filtered
      → All P (copy_of_markets es ps filtered)
  unfolding copy_of_markets
  All-copy_of_markets P [] ps filtered h k = k
  All-copy_of_markets P (e ∷ es) ps filtered h k =
      All-copy_of_markets P es ps _ h (All-copy_of_market P e ps filtered h k)

  -- Among pointers of which `p` alone has its place, a test at that place is the test of `p`.
  any_at :
      (p : Pointer) (g : Pointer → Bool) (ps : List Pointer)
      → All (λ r. (place r == place p) ≡ true → r ≡ p) ps
      → any (λ r. (place r == place p) && g r) ps ≡ (points_in ps (place p) && g p)
  any_at p g [] h = ground arith
  any_at p g (r ∷ ps) h = elim (Bool-cases (place r == place p)) [
    | inl t ↦ rw t (ground (arith, any_at p g ps h.1, ap g (h.0 t)))
    | inr f ↦ rw f (any_at p g ps h.1)
  ]

  points_in-filter :
      (p : Pointer) (g : Pointer → Bool) (ps : List Pointer)
      → All (λ r. (place r == place p) ≡ true → r ≡ p) ps
      → points_in (filter g ps) (place p) ≡ (points_in ps (place p) && g p)
  unfolding filter
  points_in-filter p g [] h = ground arith
  points_in-filter p g (r ∷ ps) h = elim (Bool-cases (place r == place p)) [
    | inl t ↦ ground (arith, points_in-filter p g ps h.1, ap g (h.0 t), ap place (h.0 t))
    | inr f ↦ ground (arith, points_in-filter p g ps h.1)
  ]

  any-congr :
      (f g : OrderEntry → Bool) (es : List OrderEntry)
      → ((e : OrderEntry) → f e ≡ g e)
      → any f es ≡ any g es
  any-congr f g [] h = refl
  any-congr f g (e ∷ es) h = ground (arith, h e, any-congr f g es h)

  -- The order's market is one of the reported ones.
  abbrev pub in_reported_market : List OrderEntry → Order → Bool
  in_reported_market es o = any (λ e. is_of e.market_id o) es

  points_in_removed :
      (es : List OrderEntry) (ps : List Pointer) (p : Pointer)
      → Here ps p
      → points_in (filter (λ r. is_reported es r.1) (copy_of_markets es ps [])) (place p)
        ≡ (in_reported_market es p.1 && is_reported es p.1)
  unfolding Here
  points_in_removed es ps p here =
      points_in-filter p (λ r. is_reported es r.1) (copy_of_markets es ps [])
        (All-copy_of_markets _ es ps [] here.1 tt)
      ∙ ap (λ b. b && is_reported es p.1)
          (copy_of_markets-points_in es ps [] (place p)
            ∙ any-congr _ _ es (λ e.
              any_at p (λ r. is_of e.market_id r.1) ps here.1
              ∙ ap (λ b. b && is_of e.market_id p.1) here.0))

  pub Distinct-pointers : (n : ℕ) (os : List Order) → Distinct place ◌==◌ (pointers n os)
  unfolding pointers
  Distinct-pointers n [] = tt
  Distinct-pointers n (o ∷ os) = (later n (n + 1) os (omega arith), Distinct-pointers (n + 1) os)
    where
      later : (k m : ℕ) (os : List Order) → k < m → points_in (pointers m os) k ≡ false
      later k m [] h = refl
      later k m (o ∷ os) h = ground (arith, later k (m + 1) os)

  pub map-pointers : (n : ℕ) (os : List Order) → map (λ p. p.1) (pointers n os) ≡ os
  unfolding pointers
  map-pointers n [] = refl
  map-pointers n (o ∷ os) = ap (◌∷◌ o) (map-pointers (n + 1) os)

  -- The first part of the merge of open orders, with its list of pointers, removes exactly the
  -- orders that are reported and whose market is among the reported ones.
  pub remove_reported_lem :
      (es : List OrderEntry) (os : List Order)
      → remove_reported es os ≡ filter (λ o. not (in_reported_market es o && is_reported es o)) os
  unfolding remove_reported
  remove_reported_lem es os =
      let d = Distinct-pointers 0 os in
      ap (map (λ p. p.1)) (
        remove_pointers-filter _ (pointers 0 os) d
        ∙ filter-congr _ _ (pointers 0 os) (
            All-map _ _ (λ p here. ap not (points_in_removed es (pointers 0 os) p here))
              (pointers 0 os) (all-Here (pointers 0 os) d)))
      ∙ map-filter (λ p. p.1) (λ o. not (in_reported_market es o && is_reported es o))
          (pointers 0 os)
      ∙ ap (filter _) (map-pointers 0 os)
