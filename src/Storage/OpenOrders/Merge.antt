-- ===== src/Storage/OpenOrders/Merge.antt =====
-- What can be found among the open orders after a merge or a removal.
use crypto_shloma.Prelude.{
  ℕ, Bool, true, false, not, ◌&&◌, List, [], ◌∷◌, none, some, ◌≡◌, ◌≢◌, refl, ◌∙◌, ap, arith, ◌==◌,
  ==_iff, eq_iff, any, All, if◌then◌else◌, Option-cases, inl, inr,
}
use crypto_shloma.Qt.{Qt}
use crypto_shloma.Base.Order as Order
use crypto_shloma.Base.Order.{Order}
use crypto_shloma.Api.Entry.{OrderEntry}
use crypto_shloma.Storage.Keyed.{lookup, Distinct}
use crypto_shloma.Storage.Keyed.Laws.{
  Distinct-filter, All-filter, lookup-filter, lookup-filter_found, found_where, key-lookup,
}
use crypto_shloma.Storage.Keyed.Upsert.{
  after_entry, lookup-upsert_all, Distinct-upsert_all, All-upsert_all,
}
use crypto_shloma.Storage.Markets.{MarketsStorage}
use crypto_shloma.Storage.Orders.{is_of, order_id, entry_order_id, make_order}
use crypto_shloma.Storage.Orders.Make.{make_order-MadeFrom}
use crypto_shloma.Storage.OpenOrders.{OpenOrders, is_reported, update_order, merge, remove}
use crypto_shloma.Storage.OpenOrders.Pointers.{in_reported_market, remove_reported_lem}

module _ ⦃q : Qt⦄ where
  -- No two orders have one id, and each has its market.
  pub record IsValid (s : OpenOrders) : Type 0 where
    pub distinct : Distinct order_id ◌==◌ s.orders
    pub set : All (λ o. o.market ≢ none) s.orders

  update_order-kept :
      (e : OrderEntry) (o : Order)
      → (order_id (update_order e o) ≡ order_id o) × ((update_order e o).market ≡ o.market)
  unfolding Order.set_config
  update_order-kept e o = ground arith

  -- Which orders the first part of a merge leaves.
  abbrev pub left_alone : List OrderEntry → Order → Bool
  left_alone es o = not (in_reported_market es o && is_reported es o)

  -- In a valid storage and without two reports of one order, an order id finds after a merge what
  -- its report makes of the order that the first part of the merge left.
  pub lookup-merge :
      (markets : MarketsStorage) (data' : List OrderEntry) (s : OpenOrders) (id : ℕ)
      → IsValid s
      → Distinct entry_order_id ◌==◌ data'
      → lookup order_id ◌==◌ id (merge markets data' s).orders
        ≡ after_entry update_order
            (make_order markets)
            (lookup entry_order_id ◌==◌ id data')
            (found_where (left_alone data') (lookup order_id ◌==◌ id s.orders))
  unfolding merge
  lookup-merge markets data' s id v d =
      lookup-upsert_all order_id entry_order_id ◌==◌ ==_iff update_order (make_order markets)
        (λ e o. (update_order-kept e o).0) (λ e o h. (make_order-MadeFrom markets e o h).id) data'
        id _ d
      ∙ ap (after_entry update_order (make_order markets) (lookup entry_order_id ◌==◌ id data')) (
          ap (lookup order_id ◌==◌ id) (remove_reported_lem data' s.orders)
          ∙ lookup-filter_found order_id ◌==◌ ==_iff (left_alone data') id s.orders v.distinct)

  -- A merge of open orders keeps the order ids unique and every order with its market.
  pub merge-IsValid :
      (markets : MarketsStorage) (data' : List OrderEntry) (s : OpenOrders)
      → IsValid s
      → IsValid (merge markets data' s)
  unfolding merge
  merge-IsValid markets data' s v = rw (remove_reported_lem data' s.orders) (record {
    distinct =
        Distinct-upsert_all order_id entry_order_id ◌==◌ ==_iff update_order (make_order markets)
          (λ e o. (update_order-kept e o).0) (λ e o h. (make_order-MadeFrom markets e o h).id) data'
          _ (Distinct-filter order_id ◌==◌ ==_iff _ s.orders v.distinct);
    set =
        All-upsert_all order_id entry_order_id ◌==◌ update_order (make_order markets)
          (λ o. o.market ≢ none) (λ e o h. rw ((update_order-kept e o).1) h)
          (λ e o h. rw ((make_order-MadeFrom markets e o h).market) (ground arith)) data' _
          (All-filter _ _ s.orders v.set);
  })

  reported-any :
      (f : OrderEntry → Bool) (id : ℕ) (es : List OrderEntry) (e : OrderEntry)
      → lookup entry_order_id ◌==◌ id es ≡ some e
      → f e ≡ true
      → any f es ≡ true
  unfolding lookup
  reported-any f id [] e h t = cc
  reported-any f id (d ∷ es) e h t = ground (arith, reported-any f id es e)

  -- In a valid storage and without two reports of one order, an order that is reported again under
  -- its own market is replaced by what its report makes, however old the report is.
  pub merge_ignores_time :
      (markets : MarketsStorage) (data' : List OrderEntry) (s : OpenOrders) (id : ℕ) (o : Order)
      (e : OrderEntry)
      → IsValid s
      → Distinct entry_order_id ◌==◌ data'
      → lookup order_id ◌==◌ id s.orders ≡ some o
      → lookup entry_order_id ◌==◌ id data' ≡ some e
      → o.market ≡ some e.market_id
      → lookup order_id ◌==◌ id (merge markets data' s).orders ≡ make_order markets e
  merge_ignores_time markets data' s id o e v d stored reported same =
      let in_market : in_reported_market data' o ≡ true =
        reported-any (λ r. is_of r.market_id o) id data' e reported
          (ground (arith, eq_iff e.market_id e.market_id)) in
      let by_id : is_reported data' o ≡ true =
        reported-any (λ r. order_id o == entry_order_id r) id data' e reported
          (ground (
            arith,
            key-lookup order_id ◌==◌ ==_iff id s.orders o stored,
            key-lookup entry_order_id ◌==◌ ==_iff id data' e reported,
          )) in
      rw (lookup-merge markets data' s id v d, stored, reported) (rw (in_market, by_id) refl)

  not_reported :
      (es : List OrderEntry) (o : Order) (id : ℕ)
      → order_id o ≡ id
      → lookup entry_order_id ◌==◌ id es ≡ none
      → is_reported es o ≡ false
  unfolding lookup
  not_reported [] o id h n = refl
  not_reported (e ∷ es) o id h n = ground (arith, not_reported es o id)

  -- In a valid storage and without two reports of one order, an order that is not reported stays,
  -- also if other orders of its market are reported.
  pub merge_keeps_unreported :
      (markets : MarketsStorage) (data' : List OrderEntry) (s : OpenOrders) (id : ℕ)
      → IsValid s
      → Distinct entry_order_id ◌==◌ data'
      → lookup entry_order_id ◌==◌ id data' ≡ none
      → lookup order_id ◌==◌ id (merge markets data' s).orders ≡ lookup order_id ◌==◌ id s.orders
  merge_keeps_unreported markets data' s id v d n =
      rw (lookup-merge markets data' s id v d, n)
        (elim (Option-cases (lookup order_id ◌==◌ id s.orders)) [
          | inl absent ↦ rw absent
          | inr (o, p) ↦ rw p (
              ground (
                arith,
                not_reported data' o id (key-lookup order_id ◌==◌ ==_iff id s.orders o p) n,
              ))
        ])

  -- Exactly the open orders with the given ids are removed.
  pub lookup-remove :
      (ids : List ℕ) (s : OpenOrders) (id : ℕ)
      → lookup order_id ◌==◌ id (remove ids s).orders
        ≡ (if any (λ i. id == i) ids then none else lookup order_id ◌==◌ id s.orders)
  unfolding remove
  lookup-remove ids s id =
      lookup-filter order_id ◌==◌ ==_iff _ (λ k. not (any (λ i. k == i) ids)) id s.orders
        (λ o. refl)
      ∙ ground arith

  pub remove-IsValid : (ids : List ℕ) (s : OpenOrders) → IsValid s → IsValid (remove ids s)
  unfolding remove
  remove-IsValid ids s v = record {
    distinct = Distinct-filter order_id ◌==◌ ==_iff _ s.orders v.distinct;
    set = All-filter (λ o. o.market ≢ none) _ s.orders v.set;
  }
