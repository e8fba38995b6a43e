-- ===== src/Api/Binance/Calls/Sending.antt =====
-- src/api/binance_api.cpp: the session, the requests and the orders, as calls.
use crypto_shloma.Prelude.{ℕ, String, Bool, List, [], inl, inr, Option-cases}
use crypto_shloma.Qt.{Qt}
use crypto_shloma.Base.Order.{OrderType}
use crypto_shloma.Base.Market.Data.{Market}
use crypto_shloma.Storage.Markets.{MarketsStorage, find_market_by_id}
use crypto_shloma.Api.Signals.{CancellationOrderType}
use crypto_shloma.Api.TemporaryOrders.{OrderRecord, known_record}
use crypto_shloma.Api.TemporaryOrders as Table
use crypto_shloma.Api.TemporaryOrders.Laws as Temporary
use crypto_shloma.Api.Binance.Session.{Effect, Env, BinanceApi, Call}
use crypto_shloma.Api.Binance.Submit.{
  Size, after_table, submit_accepted, emulate, post_order, submit_to, submit_order, cancel_order,
  new_order_failed,
}
use crypto_shloma.Api.Binance.Requests.{
  list_market_info, list_market_data, list_market_orders, remove_list_market_orders,
  list_market_order_groups, user_balance, user_open_orders, user_trade_history,
}
use crypto_shloma.Api.Binance.Calls.Steps.{IsStable, Good, Keeps, keeps, Good-if, Good-pair}
use crypto_shloma.Api.Binance.Calls.Receiving.{
  Keeps-erase_record, Keeps-exchange_info, Keeps-market_data, Keeps-balance, Keeps-open_orders,
  Keeps-trade_history,
}

module _ ⦃q : Qt⦄ (I : BinanceApi → Type 0) (E : Effect → Type 0) (st : IsStable I E) where
  open q use {Qreal, QJsonObject}

  pub Keeps-new_order_failed : (r : OrderRecord) → Keeps I E (new_order_failed r)
  unfolding new_order_failed
  Keeps-new_order_failed r = Keeps-erase_record I E st r

  pub Keeps-list_market_info : (env : Env) → Keeps I E (list_market_info env)
  unfolding list_market_info
  Keeps-list_market_info env = search (keeps, Keeps-exchange_info) depth 9

  pub Keeps-list_market_data : (env : Env) → Keeps I E (list_market_data env)
  unfolding list_market_data
  Keeps-list_market_data env = search (keeps, Keeps-market_data) depth 9

  pub Keeps-user_balance : (env : Env) → Keeps I E (user_balance env)
  unfolding user_balance
  Keeps-user_balance env = search (keeps, Keeps-balance) depth 9

  pub Keeps-user_open_orders : (env : Env) (id : String) → Keeps I E (user_open_orders env id)
  unfolding user_open_orders
  Keeps-user_open_orders env id = search (keeps, Keeps-open_orders) depth 9

  pub Keeps-user_trade_history : (env : Env) (id : String) → Keeps I E (user_trade_history env id)
  unfolding user_trade_history
  Keeps-user_trade_history env id = search (keeps, Keeps-trade_history) depth 9

  pub Keeps-list_market_orders : (id : String) (n : ℕ) → Keeps I E (list_market_orders id n)
  unfolding list_market_orders
  Keeps-list_market_orders id n = search keeps depth 9

  pub Keeps-remove_list_market_orders : (id : String) → Keeps I E (remove_list_market_orders id)
  unfolding remove_list_market_orders
  Keeps-remove_list_market_orders id = search keeps depth 9

  pub Keeps-list_market_order_groups :
      (ids : List String) (n : ℕ) → Keeps I E (list_market_order_groups ids n)
  unfolding list_market_order_groups
  Keeps-list_market_order_groups ids n = search keeps depth 9

  pub Keeps-cancel_order :
      (type : CancellationOrderType) (env : Env) (order_id : ℕ) (id : String)
      → Keeps I E (cancel_order type env order_id id)
  unfolding cancel_order Keeps
  Keeps-cancel_order CancellationOrderType.order_id env order_id id = search keeps depth 9
  Keeps-cancel_order CancellationOrderType.all env order_id id = search keeps depth 9
  Keeps-cancel_order CancellationOrderType.market_id env order_id id = search keeps depth 9

  -- The confirmation and the erasure of an emulated order are two steps of the table.
  Keeps-emulate :
      (env : Env) (id : String) (side : OrderType) (size : Size)
      → Keeps I E (emulate env id side size)
  unfolding Keeps Temporary.step
  Keeps-emulate env id side size a i =
      let r =
        known_record id env.random_ids.0 env.now size.price size.base_volume side size.volume in
      let placed = st.table (Temporary.Call.places r) a i in
      Good-pair I E _ _ (search keeps) (st.table (Temporary.Call.erases_record r) _ placed)

  Keeps-post_order : (env : Env) (params : String) → Keeps I E (post_order env params)
  unfolding Keeps
  Keeps-post_order env params a i = search keeps depth 9

  Keeps-submit_accepted :
      (env : Env) (id : String) (side : OrderType) (size : Size) (by_value : Bool)
      → Keeps I E (submit_accepted env id side size by_value)
  Keeps-submit_accepted env id side size by_value =
      search (keeps, Keeps-emulate, Keeps-post_order) depth 9

  Good-after_table :
      (next : Call) (r : OrderRecord) (a : BinanceApi)
      → Keeps I E next
      → I a
      → Good I E (after_table next (Table.submit_order r a.temp_orders) a)
  unfolding Keeps Temporary.step
  Good-after_table next r a h i =
      Good-if I E (Table.submit_order r a.temp_orders).1 _ (a, [])
        (h _ (st.table (Temporary.Call.submits r) a i)) (search keeps)

  Keeps-submit_to :
      (env : Env) (market : Market) (id : String) (side : OrderType) (price volume : Qreal)
      → Keeps I E (submit_to env market id side price volume)
  unfolding submit_to Keeps
  Keeps-submit_to env market id side price volume a i =
      Good-after_table _ _ a (Keeps-submit_accepted env id side _ _) i

  pub Keeps-submit_order :
      (env : Env) (markets : MarketsStorage) (id : String) (side : OrderType)
      (price base_volume volume : Qreal)
      → Keeps I E (submit_order env markets id side price base_volume volume)
  unfolding submit_order
  Keeps-submit_order env markets id side price base_volume volume =
      elim (Option-cases (find_market_by_id markets id)) [
        | inl e ↦ rw e (search keeps)
        | inr (m, e) ↦ rw e (search (keeps, Keeps-submit_to))
      ]
