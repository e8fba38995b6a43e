-- ===== src/Api/Binance/Submit/Laws.antt =====
-- src/api/binance_api.cpp: submitOrder while the requests are blocked.
use crypto_shloma.Prelude.{
  String, Bool, true, false, [], ◌∷◌, ◌++◌, ◌≡◌, refl, ◌∙◌, ◌⊎◌, some, Option-cases, is_empty_text,
  arith, any, eq_refl, inl, inr, Bool-cases,
}
use crypto_shloma.Qt.{Qt}
use crypto_shloma.Base.Order.{OrderType, type_eq}
use crypto_shloma.Base.Market.Data.{Market}
use crypto_shloma.Api.TemporaryOrders.{OrderRecord, Table, same_kind, new_record}
use crypto_shloma.Api.TemporaryOrders as Table
use crypto_shloma.Storage.Markets.{MarketsStorage, find_market_by_id}
use crypto_shloma.Api.Binance.Session.{Channel, nothing, Env, BinanceApi, Call, send}
use crypto_shloma.Api.Binance.Submit.{
  Size, after_table, submit_accepted, order_size, submit_to, submit_order, may_trade,
}
use crypto_shloma.Api.Binance.Submit.Guards.{passes_guards}

module _ ⦃q : Qt⦄ where
  open q use {Qreal}

  -- A waiting order of the type and the market of the record.
  abbrev waits_for : OrderRecord → Table → Bool
  waits_for r t = any (same_kind r) t

  type_eq_refl : (s : OrderType) → type_eq s s ≡ true
  type_eq_refl OrderType.buy = refl
  type_eq_refl OrderType.sell = refl
  type_eq_refl OrderType.no_type = refl

  any-append :
      (r x : OrderRecord) (t : Table)
      → same_kind r x ≡ true
      → any (same_kind r) (t ++ x ∷ []) ≡ true
  any-append r x [] h = ground arith
  any-append r x (y ∷ t) h = ground (arith, any-append r x t h)

  same_waits :
      (r s : OrderRecord) (t : Table)
      → r.order_type ≡ s.order_type
      → r.market_id ≡ s.market_id
      → waits_for s t ≡ waits_for r t
  same_waits r s [] e f = refl
  same_waits r s (x ∷ t) e f = rw (e, f, same_waits r s t e f) refl

  -- After a submission an order of its type and market waits, whether it was accepted or not.
  submitted-waits :
      (r s : OrderRecord) (t : Table)
      → r.order_type ≡ s.order_type
      → r.market_id ≡ s.market_id
      → waits_for s (Table.submit_order r t).0 ≡ true
  unfolding Table.submit_order
  submitted-waits r s t e f = elim (Bool-cases (any (same_kind r) t)) [
    | inl h ↦ rw h (same_waits r s t e f ∙ h)
    | inr h ↦
        rw h (any-append s r t (rw (e, f, type_eq_refl s.order_type, eq_refl s.market_id) refl))
  ]

  refused :
      (next : Call) (r : OrderRecord) (a : BinanceApi)
      → waits_for r a.temp_orders ≡ true
      → after_table next (Table.submit_order r a.temp_orders) a ≡ (a, [])
  unfolding Table.submit_order
  refused next r a h = rw h refl

  -- What a call that does nothing leaves behind the table's answer.
  quiet :
      (next : Call) (r : OrderRecord) (a : BinanceApi)
      → ((b : BinanceApi) → b.requests_is_block ≡ true → next b ≡ (b, []))
      → a.requests_is_block ≡ true
      → let after = record a { temp_orders = (Table.submit_order r a.temp_orders).0 } in
        after_table next (Table.submit_order r a.temp_orders) a ≡ (after, [])
  unfolding Table.submit_order
  quiet next r a h b = elim (Bool-cases (any (same_kind r) a.temp_orders)) [
    | inl e ↦ rw e refl
    | inr e ↦ rw (e, h (record a { temp_orders = a.temp_orders ++ r ∷ [] }) b) refl
  ]

  blocked_post :
      (env : Env) (id : String) (side : OrderType) (size : Size) (by_value : Bool) (a : BinanceApi)
      → env.test_data ≡ false
      → a.requests_is_block ≡ true
      → submit_accepted env id side size by_value a ≡ (a, [])
  unfolding send
  blocked_post env id side size by_value a t b = rw (t, b) refl

  -- The end of the break.
  abbrev unblocked : BinanceApi → BinanceApi
  unblocked a = record a { requests_is_block = false }

  refused_later :
      (next next' : Call) (r r' : OrderRecord) (a : BinanceApi)
      → ((b : BinanceApi) → b.requests_is_block ≡ true → next b ≡ (b, []))
      → a.requests_is_block ≡ true
      → r.order_type ≡ r'.order_type
      → r.market_id ≡ r'.market_id
      → let (a', effects) = after_table next (Table.submit_order r a.temp_orders) a in
        (effects ≡ [])
        × (after_table next' (Table.submit_order r' a'.temp_orders) (unblocked a')
            ≡ (unblocked a', []))
  refused_later next next' r r' a h b e f = rw (quiet next r a h b) (
    refl,
    refused next' r'
        (record a {
          temp_orders = (Table.submit_order r a.temp_orders).0;
          requests_is_block = false;
        })
        (submitted-waits r r' a.temp_orders e f),
  )

  behind_guards :
      (env env' : Env) (m m' : Market) (id : String) (side : OrderType)
      (price price' volume volume' : Qreal) (a : BinanceApi)
      → env.test_data ≡ false
      → a.requests_is_block ≡ true
      → let (a', effects) = submit_to env m id side price volume a in
        (effects ≡ [])
        × (submit_to env' m' id side price' volume' (unblocked a') ≡ (unblocked a', []))
  unfolding submit_to new_record
  behind_guards env env' m m' id side price price' volume volume' a t b =
      let size = order_size m side price volume in
      let size' = order_size m' side price' volume' in
      refused_later (submit_accepted env id side size (q.fuzzy_is_null volume))
        (submit_accepted env' id side size' (q.fuzzy_is_null volume'))
        (new_record env.now id side size.price size.base_volume size.volume)
        (new_record env'.now id side size'.price size'.base_volume size'.volume) a
        (λ b h. blocked_post env id side size (q.fuzzy_is_null volume) b t h) b refl refl

  -- Whatever its guards find, an order is left out or goes to the market that is found.
  guarded :
      (env : Env) (markets : MarketsStorage) (id : String) (side : OrderType)
      (price base_volume volume : Qreal)
      → (submit_order env markets id side price base_volume volume ≡ nothing)
        ⊎ ((m : Market) × (submit_order env markets id side price base_volume volume
              ≡ submit_to env m id side price volume))
  unfolding submit_order
  guarded env markets id side price base_volume volume = elim (Bool-cases (may_trade env id)) [
    | inr e ↦ inl (rw e refl)
    | inl e ↦ elim (Option-cases (find_market_by_id markets id)) [
      | inl n ↦ inl (rw (e, n) refl)
      | inr (m, f) ↦ inr (m, rw (e, f) refl)
    ]
  ]

  -- Outside test mode and with the stream of the user open, submitOrder for a known market with an
  -- id sends nothing while requests are blocked; when the block is over, the next order of the same
  -- type and market, whatever its price and volumes and whatever its guards find, sends nothing
  -- either and changes nothing.
  pub submit_order_blocked :
      (env env' : Env) (markets markets' : MarketsStorage) (m : Market) (id : String)
      (side : OrderType) (price price' base_volume base_volume' volume volume' : Qreal)
      (a : BinanceApi)
      → env.test_data ≡ false
      → a.requests_is_block ≡ true
      → env.is_open Channel.user_channel ≡ true
      → is_empty_text id ≡ false
      → find_market_by_id markets id ≡ some m
      → let (a', effects) = submit_order env markets id side price base_volume volume a in
        (effects ≡ [])
        × (submit_order env' markets' id side price' base_volume' volume' (unblocked a')
            ≡ (unblocked a', []))
  unfolding nothing
  submit_order_blocked env env' markets markets' m id side price price' base_volume base_volume'
        volume volume' a t b o n f =
      rw (passes_guards env markets m id side price base_volume volume o n f)
        (elim (guarded env' markets' id side price' base_volume' volume') [
          | inl e ↦
              rw e ((behind_guards env env' m m id side price price' volume volume' a t b).0, refl)
          | inr (m', e) ↦
              rw e (behind_guards env env' m m' id side price price' volume volume' a t b)
        ])
