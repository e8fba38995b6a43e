-- ===== src/Api/Hub/Laws.antt =====
-- src/api/binance_api.cpp and i_exchange_api.cpp: execution reports, from the handler to the storages.
use crypto_shloma.Prelude.{
  ℕ, String, true, false, List, [], ◌∷◌, ◌++◌, Option, none, some, ◌≡◌, ◌≢◌, refl, ◌∙◌, arith, ◌==◌,
  subst, sym, eq_iff,
}
use crypto_shloma.Qt.{Qt}
use crypto_shloma.Base.Order.{Order}
use crypto_shloma.Api.Entry.{OrderEntry}
use crypto_shloma.Api.Signals.{Signal}
use crypto_shloma.Storage.Keyed.{lookup, merged}
use crypto_shloma.Storage.Markets.{MarketsStorage}
use crypto_shloma.Storage.Orders.{order_id, make_order}
use crypto_shloma.Storage.OpenOrders as Open
use crypto_shloma.Storage.OpenOrders.{OpenOrders, update_order}
use crypto_shloma.Storage.OpenOrders.Merge as Merge
use crypto_shloma.Storage.OpenOrders.Merge.{lookup-merge, lookup-remove}
use crypto_shloma.Api.Hub.{Hub, deliver_all, emit_all, return_to_loop}
use crypto_shloma.Api.Binance.Codes.{OrderStatus, order_status_text}
use crypto_shloma.Api.Binance.Read.{text_at, is_status, is_open_status}
use crypto_shloma.Api.Binance.Session.{Effect, BinanceApi}
use crypto_shloma.Api.Binance.Orders.{report_order, open_report, filled_report}
use crypto_shloma.Api.Binance.Receive.{process_execution_report_stream}

module _ ⦃q : Qt⦄ where
  open q use {QJsonObject}

  -- The signals among the effects of a call.
  unfoldable pub signals_of : List Effect → List Signal
  signals_of [] = []
  signals_of (Effect.emits s ∷ es) = s ∷ signals_of es
  signals_of (_ ∷ es) = signals_of es

  -- An execution report that the API handles reaches the hub.
  unfoldable pub reported : QJsonObject → BinanceApi → Hub → Hub
  unfolding signals_of emit_all process_execution_report_stream
  reported root a h = emit_all (signals_of (process_execution_report_stream root a).1) h

  abbrev pub found_open : ℕ → Hub → Option Order
  found_open id h = lookup order_id ◌==◌ id h.storages.open_orders.orders

  filled_not_open : (s : String) → is_status OrderStatus.filled s ≡ true → is_open_status s ≡ false
  unfolding order_status_text
  filled_not_open s h = subst (λ t. is_open_status t ≡ false) (sym ((eq_iff s "FILLED").0 h)) refl

  ==_refl : (n : ℕ) → (n == n) ≡ true
  ==_refl n = ground arith

  merged_some :
      (markets : MarketsStorage) (e : OrderEntry) (old : Option Order)
      → make_order markets e ≢ none
      → merged update_order (make_order markets) e old ≢ none
  merged_some markets e none m n = m n
  merged_some markets e (some o) m n = cc

  reported_open :
      (root : QJsonObject) (a : BinanceApi) (h : Hub)
      → is_open_status (text_at root "X") ≡ true
      → reported root a h ≡ record h {
        queue =
            h.queue ++ Signal.receive_user_open_orders (open_report (report_order root) ∷ []) ∷ [];
      }
  unfolding reported process_execution_report_stream
  reported_open root a h e = rw e refl

  reported_filled :
      (root : QJsonObject) (a : BinanceApi) (h : Hub)
      → is_status OrderStatus.filled (text_at root "X") ≡ true
      → is_open_status (text_at root "X") ≡ false
      → reported root a h ≡ record {
        storages = record (h.storages) {
          open_orders =
              Open.remove ((report_order root).params.order_id ∷ []) h.storages.open_orders;
        };
        queue =
            h.queue
            ++ Signal.receive_user_trade_history (filled_report root (report_order root) ∷ []) ∷ [];
      }
  unfolding reported process_execution_report_stream
  reported_filled root a h e f = rw (f, e) refl

  abbrev report_id : QJsonObject → ℕ
  report_id root = (report_order root).params.order_id

  remove_one :
      (id : ℕ) (s : OpenOrders) → lookup order_id ◌==◌ id (Open.remove (id ∷ []) s).orders ≡ none
  remove_one id s = lookup-remove (id ∷ []) s id ∙ rw (==_refl id) refl

  -- If no report is waiting in the queue, then once a report of a filled order was handled and the
  -- event loop ran, no open order with its id is stored.
  pub filled_closes :
      (root : QJsonObject) (a : BinanceApi) (h : Hub)
      → is_status OrderStatus.filled (text_at root "X") ≡ true
      → h.queue ≡ []
      → found_open (report_id root) (return_to_loop (reported root a h)) ≡ none
  unfolding return_to_loop
  filled_closes root a h e n =
      rw (reported_filled root a h e (filled_not_open _ e), n)
        (remove_one (report_id root) h.storages.open_orders)

  merged_one :
      (markets : MarketsStorage) (e : OrderEntry) (s : OpenOrders)
      → Merge.IsValid s
      → make_order markets e ≢ none
      → lookup order_id ◌==◌ e.params.order_id (Open.merge markets (e ∷ []) s).orders ≢ none
  unfolding lookup
  merged_one markets e s v m =
      rw (lookup-merge markets (e ∷ []) s e.params.order_id v (refl, tt), ==_refl e.params.order_id)
        (merged_some markets e _ m)

  -- If an order is reported open and then filled before the event loop runs, and the storage is
  -- valid, knows the market of the order and no report is waiting, then the filled order is stored
  -- as open.
  pub stale_report_stays :
      (first last : QJsonObject) (a b : BinanceApi) (h : Hub)
      → is_open_status (text_at first "X") ≡ true
      → is_status OrderStatus.filled (text_at last "X") ≡ true
      → report_id first ≡ report_id last
      → Merge.IsValid h.storages.open_orders
      → make_order h.storages.markets (open_report (report_order first)) ≢ none
      → h.queue ≡ []
      → found_open (report_id first) (return_to_loop (reported last b (reported first a h))) ≢ none
  unfolding return_to_loop deliver_all
  stale_report_stays first last a b h e f same v m n =
      rw (reported_open first a h e, reported_filled last b _ f (filled_not_open _ f), n)
        (merged_one h.storages.markets (open_report (report_order first)) _
          (Merge.remove-IsValid _ h.storages.open_orders v) m)
