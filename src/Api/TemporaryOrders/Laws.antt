-- ===== src/Api/TemporaryOrders/Laws.antt =====
-- src/api/temporary_orders_table.cpp: the table under sequences of calls.
use crypto_shloma.Prelude.{
  ℕ, String, Bool, true, false, not, some, find, ◌&&◌, List, [], ◌∷◌, ◌++◌, ◌≡◌, ◌↔◌, refl, sym,
  ◌∙◌, ap, subst, arith, str_eq, eq_iff, any, if◌then◌else◌, Bool-cases, inl, inr,
}
use mathlib.Core.Option.{some-injective}
use crypto_shloma.Qt.{Qt}
use crypto_shloma.Base.Order.{OrderType, type_eq, id_is_valid}
use crypto_shloma.Storage.Keyed.{Distinct, has}
use crypto_shloma.Storage.Keyed.Laws.{Distinct-modify, Distinct-append, Distinct-erase}
use crypto_shloma.Api.TemporaryOrders.{
  OrderRecord, Table, same_order, has_id, same_kind, update_place_order, erase_record, erase_order,
  submit_order,
}

abbrev pub Kind : Type 0
Kind = OrderType × String

abbrev pub kind_eq : Kind → Kind → Bool
kind_eq k l = type_eq k.0 l.0 && str_eq k.1 l.1

type_eq_iff : (s t : OrderType) → (type_eq s t ≡ true) ↔ (s ≡ t)
type_eq_iff s t = ground arith

kind_eq_iff : (k l : Kind) → (kind_eq k l ≡ true) ↔ (k ≡ l)
kind_eq_iff (s, i) (t, j) = ground (arith, type_eq_iff s t, eq_iff i j)

module _ ⦃q : Qt⦄ where
  abbrev pub kind : OrderRecord → Kind
  kind r = (r.order_type, r.market_id)

  -- No two records are of one type and one market.
  abbrev pub IsValid : Table → Type 0
  IsValid t = Distinct kind kind_eq t

  pub any-kind : (r : OrderRecord) (t : Table) → any (same_kind r) t ≡ has kind kind_eq (kind r) t
  any-kind r [] = refl
  any-kind r (x ∷ t) = ground (
    arith,
    any-kind r t,
    type_eq_iff r.order_type x.order_type,
    type_eq_iff x.order_type r.order_type,
    eq_iff r.market_id x.market_id,
    eq_iff x.market_id r.market_id,
  )

  pub data Call : Type 0 where
    submits places erases_record : OrderRecord → Call
    erases : ℕ → Call

  unfoldable pub step : Table → Call → Table
  step t (submits r) = (submit_order r t).0
  step t (places r) = update_place_order r t
  step t (erases_record r) = erase_record r t
  step t (erases id) = erase_order id t

  pub run : Table → List Call → Table
  run t [] = t
  run t (c ∷ cs) = run (step t c) cs

  pub step-IsValid : (t : Table) (c : Call) → IsValid t → IsValid (step t c)
  unfolding step submit_order update_place_order erase_record erase_order
  step-IsValid t (submits r) v = elim (Bool-cases (any (same_kind r) t)) [
    | inl e ↦ rw (e, step) v
    | inr e ↦ rw (e, step) (Distinct-append kind kind_eq kind_eq_iff t r (sym (any-kind r t) ∙ e) v)
  ]
  step-IsValid t (places r) v = Distinct-modify kind kind_eq kind_eq_iff _ _ t (λ x. refl) v
  step-IsValid t (erases_record r) v =
      elim (Bool-cases (id_is_valid r.order_id && any (has_id r.order_id) t)) [
        | inl e ↦ rw (e, step) (Distinct-erase kind kind_eq kind_eq_iff _ t v)
        | inr e ↦ rw (e, step) (Distinct-erase kind kind_eq kind_eq_iff _ t v)
      ]
  step-IsValid t (erases id) v = Distinct-erase kind kind_eq kind_eq_iff _ t v

  run_keeps : (cs : List Call) (t : Table) → IsValid t → IsValid (run t cs)
  unfolding run
  run_keeps [] t v = v
  run_keeps (c ∷ cs) t v = run_keeps cs (step t c) (step-IsValid t c v)

  -- Whatever sequence of submissions, confirmations and erasures is made on the empty table of
  -- temporary orders, no two waiting orders are of one type and one market.
  pub run-IsValid : (cs : List Call) → IsValid (run [] cs)
  run-IsValid cs = run_keeps cs [] tt

  -- An order is refused exactly if one of its type and market waits; then the table stays, and else
  -- the order is added at its end.
  pub submit_order_lem :
      (r : OrderRecord) (t : Table)
      → ((submit_order r t).1 ≡ not (has kind kind_eq (kind r) t))
        × ((submit_order r t).0 ≡ (if has kind kind_eq (kind r) t then t else t ++ r ∷ []))
  unfolding submit_order
  submit_order_lem r t = ground (arith, any-kind r t)

  found_kind :
      (id : ℕ) (k : Kind) (x : OrderRecord) (t : Table)
      → find (has_id id) t ≡ some x
      → has kind kind_eq k t ≡ false
      → kind_eq k (kind x) ≡ false
  unfolding find
  found_kind id k x [] h n = cc
  found_kind id k x (y ∷ t) h n =
      ground (arith, found_kind id k x t, kind_eq_iff k (kind x), kind_eq_iff (kind y) k)

  pub has-erase_order :
      (id : ℕ) (x : OrderRecord) (t : Table)
      → IsValid t
      → find (has_id id) t ≡ some x
      → has kind kind_eq (kind x) (erase_order id t) ≡ false
  unfolding find erase_order
  has-erase_order id x [] v h = cc
  has-erase_order id x (y ∷ t) v h = elim (Bool-cases (has_id id y)) [
    | inl e ↦
        rw e (subst (λ z. has kind kind_eq (kind z) t ≡ false) (some-injective _ _ (rw e at h)) v.0)
    | inr e ↦
        let later : find (has_id id) t ≡ some x = rw e at h in
        rw (e, found_kind id (kind y) x t later v.0) (has-erase_order id x t v.1 later)
  ]

  -- In a valid table, when the order with an id is erased, the next order of its type and market is
  -- accepted.
  pub erase_order-submit_order :
      (id : ℕ) (x : OrderRecord) (t : Table)
      → IsValid t
      → find (has_id id) t ≡ some x
      → (submit_order x (erase_order id t)).1 ≡ true
  erase_order-submit_order id x t v h =
      (submit_order_lem x (erase_order id t)).0 ∙ ap not (has-erase_order id x t v h)

  place-append :
      (r p : OrderRecord) (t : Table)
      → any (same_order p) t ≡ false
      → same_order p r ≡ true
      → update_place_order p (t ++ r ∷ [])
        ≡ t ++ record r { order_id = p.order_id; timestamp = p.timestamp } ∷ []
  unfolding update_place_order
  place-append r p [] n m = rw m
  place-append r p (x ∷ t) n m = ground (arith, place-append r p t)

  erase-append :
      (r : OrderRecord) (t : Table)
      → any (has_id r.order_id) t ≡ false
      → erase_order r.order_id (t ++ r ∷ []) ≡ t
  unfolding erase_order
  erase-append r [] n = ground arith
  erase-append r (x ∷ t) n = ground (arith, erase-append r t)

  -- An order that is accepted, confirmed with its id and erased by that id leaves the table as it
  -- was, if no other waiting order has that id or looks like the confirmed one.
  pub submit-place-erase :
      (r p : OrderRecord) (t : Table)
      → has kind kind_eq (kind r) t ≡ false
      → same_order p r ≡ true
      → any (same_order p) t ≡ false
      → any (has_id p.order_id) t ≡ false
      → erase_order p.order_id (update_place_order p (submit_order r t).0) ≡ t
  submit-place-erase r p t free looks other fresh =
      rw ((submit_order_lem r t).1, free)
        (rw (place-append r p t other looks)
          (erase-append (record r { order_id = p.order_id; timestamp = p.timestamp }) t fresh))
