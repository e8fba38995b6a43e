-- ===== src/Models/OpenOrdersModel/Removal.antt =====
-- src/models/open_orders_model.cpp: the rows that the first part of the merge removes.
use crypto_shloma.Prelude.{
  ℕ, ◌<◌, Bool, true, false, not, ◌&&◌, List, [], ◌∷◌, ◌≡◌, refl, ◌∙◌, ap, arith, ◌==◌, ==_iff, any,
  erase_first, map, length, All, Bool-cases, inl, inr,
}
use crypto_shloma.Qt.{Qt}
use crypto_shloma.Base.Order.{Order}
use crypto_shloma.Api.Entry.{OrderEntry}
use crypto_shloma.Storage.Keyed.{Distinct}
use crypto_shloma.Storage.Keyed.Laws.{All-filter, Distinct-append, Distinct-filter}
use crypto_shloma.Storage.Orders.{is_of}
use crypto_shloma.Storage.OpenOrders as Open
use crypto_shloma.Storage.OpenOrders.{
  Pointer, place, pointers, points_in, copy_of_market, copy_of_markets, is_reported,
  remove_pointers,
}
use crypto_shloma.Storage.OpenOrders.Pointers.{
  Distinct-pointers, map-pointers, All-copy_of_markets, points_in_self,
}
use crypto_shloma.Models.Rows.{row_of, remove_at, follow, follow_all}
use crypto_shloma.Models.Rows.Laws.{Shows, Shows-same}
use crypto_shloma.Models.OpenOrdersModel.{remove_pointer_rows, filtered, remove_reported}

module _ {A B : Type 0} (f : A → B) where
  -- The row of an element that there is.
  removed_row :
      (p : A → Bool) (xs : List A)
      → any p xs ≡ true
      → (remove_at (row_of p xs) (map f xs) ≡ map f (erase_first p xs))
        × (row_of p xs < length (map f xs))
  unfolding remove_at row_of erase_first
  removed_row p [] h = ground arith
  removed_row p (x ∷ xs) h = elim (Bool-cases (p x)) [
    | inl e ↦ rw e (refl, omega arith)
    | inr e ↦ rw e (
        let (rest, in_range) = removed_row p xs (rw e at h) in
        (ap (λ l. f x ∷ l) rest, omega (arith, in_range)))
  ]

module _ ⦃q : Qt⦄ where
  abbrev order_at : Pointer → Order
  order_at p = p.1

  -- Each pointer stands in the list.
  abbrev AllIn : List Pointer → List Pointer → Type 0
  AllIn ps rs = All (λ r. points_in ps (place r) ≡ true) rs

  erase-points_in :
      (n k : ℕ) (ps : List Pointer)
      → (n == k) ≡ false
      → points_in (erase_first (λ p. place p == n) ps) k ≡ points_in ps k
  unfolding erase_first
  erase-points_in n k [] h = refl
  erase-points_in n k (p ∷ ps) h =
      ground (arith, erase-points_in n k ps h, ==_iff (place p) n, ==_iff (place p) k, ==_iff n k)

  erase-AllIn :
      (r : Pointer) (ps rs : List Pointer)
      → points_in rs (place r) ≡ false
      → AllIn ps rs
      → AllIn (erase_first (λ p. place p == place r) ps) rs
  erase-AllIn r ps [] d h = tt
  erase-AllIn r ps (s ∷ rs) d h = (
    erase-points_in (place r) (place s) ps
          (ground (arith, ==_iff (place s) (place r), ==_iff (place r) (place s)))
        ∙ h.0,
    erase-AllIn r ps rs (ground arith) h.1,
  )

  Shows-pointers :
      (rs ps : List Pointer)
      → Distinct place ◌==◌ rs
      → AllIn ps rs
      → Shows
          (map order_at ps)
          (map order_at (remove_pointer_rows rs ps).0, (remove_pointer_rows rs ps).1)
  unfolding remove_pointer_rows follow_all follow
  Shows-pointers [] ps d h = Shows-same (map order_at ps)
  Shows-pointers (r ∷ rs) ps d h =
      let (e, in_range) = removed_row order_at (λ p. place p == place r) ps h.0 in
      let rest =
        Shows-pointers rs (erase_first (λ p. place p == place r) ps) d.1
          (erase-AllIn r ps rs d.0 h.1) in
      record {
        shown =
            ap (follow_all (remove_pointer_rows rs (erase_first (λ p. place p == place r) ps)).1) e
            ∙ rest.shown;
        in_range = (in_range, rw e rest.in_range);
      }

  Distinct-copy_of_market :
      (e : OrderEntry) (ps filtered : List Pointer)
      → Distinct place ◌==◌ filtered
      → Distinct place ◌==◌ (copy_of_market e ps filtered)
  unfolding copy_of_market
  Distinct-copy_of_market e [] filtered d = d
  Distinct-copy_of_market e (p ∷ ps) filtered d =
      elim (Bool-cases (is_of e.market_id p.1 && not (points_in filtered (place p)))) [
        | inl t ↦ rw t (
            Distinct-copy_of_market e ps _
              (Distinct-append place ◌==◌ ==_iff filtered p (ground (arith, t)) d))
        | inr f ↦ rw f (Distinct-copy_of_market e ps filtered d)
      ]

  Distinct-copy_of_markets :
      (es : List OrderEntry) (ps filtered : List Pointer)
      → Distinct place ◌==◌ filtered
      → Distinct place ◌==◌ (copy_of_markets es ps filtered)
  unfolding copy_of_markets
  Distinct-copy_of_markets [] ps filtered d = d
  Distinct-copy_of_markets (e ∷ es) ps filtered d =
      Distinct-copy_of_markets es ps _ (Distinct-copy_of_market e ps filtered d)

  -- A view that had the rows before the removal has those after it, and is told only of rows that
  -- there are.
  pub Shows-remove_reported :
      (es : List OrderEntry) (rows : List Order) → Shows rows (remove_reported es rows)
  unfolding remove_reported
  Shows-remove_reported es rows =
      let ps = pointers 0 rows in
      let d = Distinct-pointers 0 rows in
      rw (map-pointers 0 rows) at (
        Shows-pointers (filtered es rows) ps
          (Distinct-filter place ◌==◌ ==_iff _ _ (Distinct-copy_of_markets es ps [] tt))
          (All-filter _ _ _ (All-copy_of_markets _ es ps [] (points_in_self ps d) tt)))

  remove_pointer_rows-rows :
      (rs ps : List Pointer) → (remove_pointer_rows rs ps).0 ≡ remove_pointers rs ps
  unfolding remove_pointer_rows remove_pointers
  remove_pointer_rows-rows [] ps = refl
  remove_pointer_rows-rows (r ∷ rs) ps = remove_pointer_rows-rows rs _

  -- The rows that are left are the orders that the storage keeps.
  pub remove_reported-rows :
      (es : List OrderEntry) (rows : List Order)
      → (remove_reported es rows).0 ≡ Open.remove_reported es rows
  unfolding remove_reported Open.remove_reported
  remove_reported-rows es rows =
      ap (map order_at) (remove_pointer_rows-rows (filtered es rows) (pointers 0 rows))
