-- ===== src/Api/Binance/Calls/Receiving.antt =====
-- src/api/binance_api.cpp: the handlers of answers, as calls.
use crypto_shloma.Prelude.{List, [], ◌∷◌, ◌≡◌, refl, inl, inr, Bool-cases, ℕ}
use crypto_shloma.Qt.{Qt}
use crypto_shloma.Api.Entry.{OrderEntry}
use crypto_shloma.Api.TemporaryOrders.{OrderRecord, Table, erase_record, erase_order}
use crypto_shloma.Api.TemporaryOrders.Laws as Temporary
use crypto_shloma.Api.Binance.Session.{Effect, Reply, Env, BinanceApi}
use crypto_shloma.Api.Binance.Orders.{record_of}
use crypto_shloma.Api.Binance.Receive.{
  with_table, erase_single, process_exchange_info, process_market_data, process_balance,
  process_user_trade_history, process_user_open_orders, process_cancel_orders, confirm,
  is_placed_status, confirmed_record, process_new_orders, process_all_market_ticket_stream,
  process_partial_book_depth_stream, process_outbound_account_info, process_execution_report_stream,
  process_streams, process_user_streams,
}
use crypto_shloma.Api.Binance.Calls.Steps.{IsStable, Keeps, keeps, Keeps-table, Keeps-same}

module _ ⦃q : Qt⦄ where
  confirm-step :
      (object : q.QJsonObject) (t : Table)
      → (c : Temporary.Call) × (confirm object t ≡ Temporary.step t c)
  unfolding confirm Temporary.step
  confirm-step object t =
      elim (Bool-cases (is_placed_status (q.to_string (q.value object "status")))) [
        | inl e ↦ (Temporary.Call.places (confirmed_record object), rw e refl)
        | inr e ↦ (Temporary.Call.erases_record (confirmed_record object), rw e refl)
      ]

  step_erases_record :
      (r : OrderRecord) (t : Table)
      → erase_record r t ≡ Temporary.step t (Temporary.Call.erases_record r)
  unfolding Temporary.step
  step_erases_record r t = refl

  step_erases :
      (id : ℕ) (t : Table) → erase_order id t ≡ Temporary.step t (Temporary.Call.erases id)
  unfolding Temporary.step
  step_erases id t = refl

module _ ⦃q : Qt⦄ (I : BinanceApi → Type 0) (E : Effect → Type 0) (st : IsStable I E) where
  open q use {QJsonObject}

  pub Keeps-exchange_info : (env : Env) (r : Reply) → Keeps I E (process_exchange_info env r)
  unfolding process_exchange_info
  Keeps-exchange_info env r = search keeps

  pub Keeps-market_data : (env : Env) (r : Reply) → Keeps I E (process_market_data env r)
  unfolding process_market_data
  Keeps-market_data env r = search keeps depth 9

  pub Keeps-balance : (env : Env) (r : Reply) → Keeps I E (process_balance env r)
  unfolding process_balance
  Keeps-balance env r = search keeps depth 9

  -- To erase a record, or the single order of a list, is a step of the table.
  pub Keeps-erase_record : (r : OrderRecord) → Keeps I E (with_table (erase_record r))
  Keeps-erase_record r =
      Keeps-table I E st (erase_record r)
        (λ t. (Temporary.Call.erases_record r, step_erases_record r t))

  Keeps-erase_single : (l : List OrderEntry) → Keeps I E (with_table (erase_single l))
  Keeps-erase_single [] = Keeps-same I E
  Keeps-erase_single (e ∷ []) = Keeps-erase_record (record_of e)
  Keeps-erase_single (e ∷ f ∷ l) = Keeps-same I E

  pub Keeps-trade_history : (env : Env) (r : Reply) → Keeps I E (process_user_trade_history env r)
  unfolding process_user_trade_history
  Keeps-trade_history env r = search (keeps, Keeps-erase_single) depth 9

  pub Keeps-open_orders : (env : Env) (r : Reply) → Keeps I E (process_user_open_orders env r)
  unfolding process_user_open_orders
  Keeps-open_orders env r = search (keeps, Keeps-erase_single) depth 9

  Keeps-erase_order : (id : ℕ) → Keeps I E (with_table (erase_order id))
  Keeps-erase_order id =
      Keeps-table I E st (erase_order id) (λ t. (Temporary.Call.erases id, step_erases id t))

  pub Keeps-cancel_orders : (r : Reply) → Keeps I E (process_cancel_orders r)
  unfolding process_cancel_orders
  Keeps-cancel_orders r = search (keeps, Keeps-erase_order) depth 9

  Keeps-confirm : (object : QJsonObject) → Keeps I E (with_table (confirm object))
  Keeps-confirm object = Keeps-table I E st (confirm object) (λ t. confirm-step object t)

  pub Keeps-new_orders : (r : Reply) → Keeps I E (process_new_orders r)
  unfolding process_new_orders
  Keeps-new_orders r = search (keeps, Keeps-confirm) depth 9

  pub Keeps-execution_report :
      (root : QJsonObject) → Keeps I E (process_execution_report_stream root)
  unfolding process_execution_report_stream
  Keeps-execution_report root = search (keeps, Keeps-erase_record) depth 9

  pub Keeps-streams : (env : Env) (root : QJsonObject) → Keeps I E (process_streams env root)
  unfolding process_streams process_all_market_ticket_stream process_partial_book_depth_stream
  Keeps-streams env root = search keeps depth 9

  pub Keeps-user_streams : (root : QJsonObject) → Keeps I E (process_user_streams root)
  unfolding process_user_streams process_outbound_account_info
  Keeps-user_streams root = search (keeps, Keeps-execution_report) depth 9
