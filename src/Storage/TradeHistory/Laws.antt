-- ===== src/Storage/TradeHistory/Laws.antt =====
-- src/storage/trade_history_storage.cpp: lookups by order id, and the followed markets.
use crypto_shloma.Prelude.{
  ℕ, String, Bool, true, false, not, List, [], ◌∷◌, ◌++◌, some, ◌≡◌, refl, arith, ◌==◌, ==_iff,
  str_eq, eq_iff, any, filter, All, Bool-cases, inl, inr,
}
use crypto_shloma.Qt.{Qt}
use crypto_shloma.Base.Order.{Order}
use crypto_shloma.Api.Entry.{OrderEntry}
use crypto_shloma.Storage.Keyed.{lookup, Distinct}
use crypto_shloma.Storage.Keyed.Laws.{Distinct-filter, All-filter_where}
use crypto_shloma.Storage.Keyed.Upsert.{
  after_entry, lookup-upsert_all, Distinct-upsert_all, All-upsert_all,
}
use crypto_shloma.Storage.Markets.{MarketsStorage}
use crypto_shloma.Storage.Orders.{order_id, entry_order_id}
use crypto_shloma.Storage.Orders.Make.{is_of-false, make_order-MadeFrom}
use crypto_shloma.Storage.TradeHistory.{
  TradeHistory, insert, keep_order, make_followed, merge, remove,
}

module _ ⦃q : Qt⦄ where
  -- The order's market is one of the followed ones.
  abbrev pub Followed : List String → Order → Type 0
  Followed filters o =
      (id : String) × (o.market ≡ some id) × (any (λ f. str_eq f id) filters ≡ true)

  pub record IsValid (s : TradeHistory) : Type 0 where
    pub distinct : Distinct order_id ◌==◌ s.orders
    pub followed : All (Followed s.filters) s.orders

  make_followed-Followed :
      (markets : MarketsStorage) (filters : List String) (e : OrderEntry) (o : Order)
      → make_followed markets filters e ≡ some o
      → Followed filters o × (order_id o ≡ entry_order_id e)
  unfolding make_followed
  make_followed-Followed markets filters e o h =
      elim (Bool-cases (any (λ f. str_eq f e.market_id) filters)) [
        | inl t ↦
            let made = make_order-MadeFrom markets e o (rw t at h) in
            ((e.market_id, made.market, t), made.id)
        | inr n ↦ absurd (ground arith)
      ]

  -- A merge adds to the trade history only orders of followed markets, and no order id a second
  -- time.
  pub merge_history-IsValid :
      (markets : MarketsStorage) (data' : List OrderEntry) (s : TradeHistory)
      → IsValid s
      → IsValid (merge markets data' s)
  unfolding merge
  merge_history-IsValid markets data' s v = record {
    distinct =
        Distinct-upsert_all order_id entry_order_id ◌==◌ ==_iff keep_order
          (make_followed markets s.filters) (λ e o. refl)
          (λ e o h. (make_followed-Followed markets s.filters e o h).1) data' s.orders v.distinct;
    followed =
        All-upsert_all order_id entry_order_id ◌==◌ keep_order (make_followed markets s.filters)
          (Followed s.filters) (λ e o h. h)
          (λ e o h. (make_followed-Followed markets s.filters e o h).0) data' s.orders v.followed;
  }

  -- Without two reports of one order, a stored trade stays as it is, whatever is reported of it
  -- later; another reported one is added if its market is followed and known.
  pub lookup_trade-merge :
      (markets : MarketsStorage) (data' : List OrderEntry) (s : TradeHistory) (id : ℕ)
      → Distinct entry_order_id ◌==◌ data'
      → lookup order_id ◌==◌ id (merge markets data' s).orders
        ≡ after_entry keep_order
            (make_followed markets s.filters)
            (lookup entry_order_id ◌==◌ id data')
            (lookup order_id ◌==◌ id s.orders)
  unfolding merge
  lookup_trade-merge markets data' s id d =
      lookup-upsert_all order_id entry_order_id ◌==◌ ==_iff keep_order
        (make_followed markets s.filters) (λ e o. refl)
        (λ e o h. (make_followed-Followed markets s.filters e o h).1) data' id s.orders d

  any-append :
      (p : String → Bool) (xs : List String) (x : String)
      → any p xs ≡ true
      → any p (xs ++ x ∷ []) ≡ true
  any-append p [] x h = cc
  any-append p (y ∷ xs) x h = ground (arith, any-append p xs x)

  All-mono :
      {A : Type 0} (P Q : A → Type 0) → ((x : A) → P x → Q x) → (xs : List A) → All P xs → All Q xs
  All-mono P Q f [] h = tt
  All-mono P Q f (x ∷ xs) h = (f x h.0, All-mono P Q f xs h.1)

  insert_history-IsValid : (id : String) (s : TradeHistory) → IsValid s → IsValid (insert id s)
  unfolding insert
  insert_history-IsValid id s v = elim (Bool-cases (any (λ f. str_eq f id) s.filters)) [
    | inl t ↦ rw t v
    | inr n ↦ rw n (record {
      distinct = v.distinct;
      followed =
          All-mono (Followed s.filters) (Followed (s.filters ++ id ∷ []))
            (λ o h. (h.0, h.1, any-append _ s.filters id h.2)) s.orders v.followed;
    })
  ]

  any-remove :
      (j id : String) (fs : List String)
      → str_eq id j ≡ false
      → any (λ f. str_eq f id) fs ≡ true
      → any (λ f. str_eq f id) (filter (λ f. not (str_eq f j)) fs) ≡ true
  unfolding filter
  any-remove j id [] n h = cc
  any-remove j id (f ∷ fs) n h =
      ground (arith, any-remove j id fs, eq_iff f id, eq_iff f j, eq_iff id j)

  -- When a market is no longer followed, the history that is left is again of followed markets
  -- only, with unique order ids.
  pub remove_history-IsValid : (id : String) (s : TradeHistory) → IsValid s → IsValid (remove id s)
  unfolding remove
  remove_history-IsValid id s v = record {
    distinct = Distinct-filter order_id ◌==◌ ==_iff _ s.orders v.distinct;
    followed =
        All-filter_where (Followed s.filters) _ _ s.orders
          (λ o h t. (h.0, h.1, any-remove id h.0 s.filters (is_of-false o h.0 id h.1 t) h.2))
          v.followed;
  }
