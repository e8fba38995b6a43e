-- ===== src/Api/Binance/Submit/Frees.antt =====
-- src/api/binance_api.cpp: the answer to a cancellation, and the next order.
use crypto_shloma.Prelude.{
  String, Bool, true, false, List, is_empty_text, [], ◌∷◌, ◌++◌, some, ◌≡◌, refl, ◌∙◌, ap, sym,
  subst, any, find, arith,
}
use crypto_shloma.Qt.{Qt}
use crypto_shloma.Base.Order.{OrderType}
use crypto_shloma.Base.Market.Data.{Market}
use crypto_shloma.Storage.Keyed.{has}
use crypto_shloma.Storage.Markets.{MarketsStorage, find_market_by_id}
use crypto_shloma.Api.TemporaryOrders.{
  OrderRecord, Table, has_id, same_kind, new_record, erase_order,
}
use crypto_shloma.Api.TemporaryOrders as Table
use crypto_shloma.Api.TemporaryOrders.Laws as Temporary
use crypto_shloma.Api.TemporaryOrders.Laws.{kind, kind_eq, any-kind, has-erase_order}
use crypto_shloma.Api.Binance.Read.{id_at}
use crypto_shloma.Api.Binance.Session.{
  Channel, Effect, Request, Env, BinanceApi, Call, Document, Reply, send, set_online,
}
use crypto_shloma.Api.Binance.Receive.{process_cancel_orders}
use crypto_shloma.Api.Binance.Submit.Guards.{passes_guards}
use crypto_shloma.Api.Binance.Submit.{
  submit_order, Size, after_table, submit_accepted, order_size, submit_to,
}

module _ ⦃q : Qt⦄ where
  open q use {Qreal, QJsonObject}

  -- The state behind a finished reply.
  set_online-kept :
      (a : BinanceApi)
      → ((set_online a).0.temp_orders ≡ a.temp_orders)
        × ((set_online a).0.requests_is_block ≡ a.requests_is_block)
  unfolding set_online
  set_online-kept a = ground arith

  canceled_state :
      (d : Document) (a : BinanceApi)
      → q.object_is_empty d.object ≡ false
      → let a' = (process_cancel_orders (Reply.finished d) a).0 in
        (a'.temp_orders ≡ erase_order (id_at d.object "orderId") a.temp_orders)
        × (a'.requests_is_block ≡ a.requests_is_block)
  unfolding process_cancel_orders
  canceled_state d a e =
      rw e
        (ap (erase_order (id_at d.object "orderId")) (set_online-kept a).0, (set_online-kept a).1)

  accepted :
      (next : Call) (r : OrderRecord) (a : BinanceApi)
      → any (same_kind r) a.temp_orders ≡ false
      → after_table next (Table.submit_order r a.temp_orders) a
        ≡ next (record a { temp_orders = a.temp_orders ++ r ∷ [] })
  unfolding Table.submit_order
  accepted next r a h = rw h refl

  -- One request and nothing else.
  abbrev pub SendsOne : BinanceApi × List Effect → Type 0
  SendsOne r = (x : Request) × (r.1 ≡ Effect.sends x ∷ [])

  open_post :
      (env : Env) (id : String) (side : OrderType) (size : Size) (by_value : Bool) (a : BinanceApi)
      → env.test_data ≡ false
      → a.requests_is_block ≡ false
      → SendsOne (submit_accepted env id side size by_value a)
  unfolding send
  open_post env id side size by_value a t b = rw (t, b) (_, refl)

  -- Outside test mode, with requests let out and the stream of the user open: if the table of
  -- waiting orders is valid and the exchange reports a cancellation whose id is that of a waiting
  -- order, then submitOrder for its type and its market, which has an id and is known, has the
  -- sending of one request as its only effect.
  pub cancel_frees :
      (env : Env) (markets : MarketsStorage) (m : Market) (price base_volume volume : Qreal)
      (d : Document) (x : OrderRecord) (a : BinanceApi)
      → Temporary.IsValid a.temp_orders
      → find (has_id (id_at d.object "orderId")) a.temp_orders ≡ some x
      → q.object_is_empty d.object ≡ false
      → env.test_data ≡ false
      → a.requests_is_block ≡ false
      → env.is_open Channel.user_channel ≡ true
      → is_empty_text x.market_id ≡ false
      → find_market_by_id markets x.market_id ≡ some m
      → SendsOne (
          submit_order env markets x.market_id x.order_type price base_volume volume
            (process_cancel_orders (Reply.finished d) a).0)
  unfolding submit_to new_record
  cancel_frees env markets m price base_volume volume d x a v f e t b o n g =
      let a' = (process_cancel_orders (Reply.finished d) a).0 in
      let (table, blocked) = canceled_state d a e in
      let size = order_size m x.order_type price volume in
      let r = new_record env.now x.market_id x.order_type size.price size.base_volume size.volume in
      let free : any (same_kind r) a'.temp_orders ≡ false =
        any-kind r a'.temp_orders
        ∙ ap (has kind kind_eq (kind x)) table
        ∙ has-erase_order (id_at d.object "orderId") x a.temp_orders v f in
      let by_value = q.fuzzy_is_null volume in
      subst SendsOne
        (sym (
          ap (λ c. c a')
            (passes_guards env markets m x.market_id x.order_type price base_volume volume o n g)
          ∙ accepted (submit_accepted env x.market_id x.order_type size by_value) r a' free))
        (open_post env x.market_id x.order_type size by_value _ t (blocked ∙ b))
