-- ===== src/Storage/MarketOrders/Laws.antt =====
-- src/storage/market_orders_storage.cpp: the orders of one market after a merge.
use crypto_shloma.Prelude.{
  String, Bool, true, false, not, ◌||◌, List, [], ◌∷◌, ◌++◌, Option, none, some, ◌≡◌, refl, sym,
  ◌∙◌, arith, str_eq, eq_iff, any, filter, if◌then◌else◌, Bool-cases, Option-cases, inl, inr,
}
use mathlib.Core.List.{append-nil, append_assoc}
use crypto_shloma.Qt.{Qt}
use crypto_shloma.Base.Order.{Order}
use crypto_shloma.Api.Entry.{OrderEntry}
use crypto_shloma.Storage.Markets.{MarketsStorage}
use crypto_shloma.Storage.Orders.{is_of}
use crypto_shloma.Storage.Orders.Make.{make_order-MadeFrom}
use crypto_shloma.Storage.MarketOrders.{
  MarketOrders, contains, reported_ids, is_of_any, make_followed, append_all, merge,
}

module _ ⦃q : Qt⦄ where
  pub reports : List OrderEntry → String → Bool
  reports es id = any (λ e. str_eq e.market_id id) es

  contains-append :
      (ids : List String) (x id : String)
      → contains (ids ++ x ∷ []) id ≡ (contains ids id || str_eq x id)
  contains-append [] x id = ground arith
  contains-append (i ∷ ids) x id = ground (arith, contains-append ids x id)

  -- The ids that the first loop collects are those of the reported markets.
  contains-reported_ids :
      (es : List OrderEntry) (ids : List String) (id : String)
      → contains (reported_ids es ids) id ≡ (contains ids id || reports es id)
  unfolding reported_ids reports
  contains-reported_ids [] ids id = ground arith
  contains-reported_ids (e ∷ es) ids id = ground (
    arith,
    contains-reported_ids es ids id,
    contains-reported_ids es (ids ++ e.market_id ∷ []) id,
    contains-append ids e.market_id id,
    eq_iff e.market_id id,
  )

  abbrev pub cons_option : Option Order → List Order → List Order
  cons_option none os = os
  cons_option (some o) os = o ∷ os

  -- What the last loop makes of the reports of one market, in their order.
  pub book : MarketsStorage → List String → String → List OrderEntry → List Order
  book markets filters id [] = []
  book markets filters id (e ∷ es) =
      let rest = book markets filters id es in
      if str_eq e.market_id id then cons_option (make_followed markets filters e) rest else rest

  book-none :
      (markets : MarketsStorage) (filters : List String) (id : String) (es : List OrderEntry)
      → reports es id ≡ false
      → book markets filters id es ≡ []
  unfolding book reports
  book-none markets filters id [] h = refl
  book-none markets filters id (e ∷ es) h = ground (arith, book-none markets filters id es)

  make_followed-market :
      (markets : MarketsStorage) (filters : List String) (e : OrderEntry) (o : Order)
      → make_followed markets filters e ≡ some o
      → (o.market ≡ some e.market_id) × (contains filters e.market_id ≡ true)
  unfolding make_followed
  make_followed-market markets filters e o h = elim (Bool-cases (contains filters e.market_id)) [
    | inl t ↦ ((make_order-MadeFrom markets e o (rw t at h)).market, t)
    | inr n ↦ absurd (ground arith)
  ]

  filter-append :
      (p : Order → Bool) (xs ys : List Order) → filter p (xs ++ ys) ≡ filter p xs ++ filter p ys
  unfolding filter
  filter-append p [] ys = refl
  filter-append p (x ∷ xs) ys = ground (arith, filter-append p xs ys)

  filter-append_all :
      (markets : MarketsStorage) (filters : List String) (es : List OrderEntry) (os : List Order)
      (id : String)
      → filter (is_of id) (append_all markets filters es os)
        ≡ filter (is_of id) os ++ book markets filters id es
  unfolding append_all book filter
  filter-append_all markets filters [] os id = sym (append-nil _)
  filter-append_all markets filters (e ∷ es) os id =
      elim (Option-cases (make_followed markets filters e)) [
        | inl n ↦ rw n (ground (arith, filter-append_all markets filters es os id))
        | inr (o, p) ↦ rw p (
            ground (
              arith,
              filter-append_all markets filters es (os ++ o ∷ []) id,
              filter-append (is_of id) os (o ∷ []),
              (make_followed-market markets filters e o p).0,
              append-nil (filter (is_of id) os),
              append_assoc (filter (is_of id) os) (o ∷ []) (book markets filters id es),
            ))
      ]

  filter-erased :
      (es : List OrderEntry) (os : List Order) (id : String)
      → filter (is_of id) (filter (λ o. not (is_of_any (reported_ids es []) o)) os)
        ≡ (if reports es id then [] else filter (is_of id) os)
  unfolding filter
  filter-erased es [] id = ground arith
  filter-erased es (o ∷ os) id = elim (Option-cases o.market) [
    | inl n ↦ ground (arith, filter-erased es os id)
    | inr (m, p) ↦
        ground (arith, filter-erased es os id, contains-reported_ids es [] m, eq_iff m id)
  ]

  -- After a merge the stored orders of a reported market are the reported ones, in their order, and
  -- none if the market is not followed or not known; the orders of markets that are not reported
  -- stay.
  pub merge_lem :
      (markets : MarketsStorage) (data' : List OrderEntry) (s : MarketOrders) (id : String)
      → filter (is_of id) (merge markets data' s).orders
        ≡ (if reports data' id then book markets s.filters id data' else filter (is_of id) s.orders)
  unfolding merge
  merge_lem markets data' s id =
      filter-append_all markets s.filters data' _ id
      ∙ rw (filter-erased data' s.orders id) (
          ground
            (arith, book-none markets s.filters id data', append-nil (filter (is_of id) s.orders)))
