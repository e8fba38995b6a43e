-- ===== src/Api/Binance/Receive.antt =====
-- src/api/binance_api.cpp: the handlers of answers and of stream events.
use crypto_shloma.Prelude.{String, Bool, List, [], ◌∷◌, ◌++◌, ◌||◌, map, if◌then◌else◌}
use crypto_shloma.Qt.{Qt}
use crypto_shloma.Api.Entry.{OrderEntry}
use crypto_shloma.Api.Signals.{Signal}
use crypto_shloma.Api.TemporaryOrders.{
  OrderRecord, Table, known_record, update_place_order, erase_record, erase_order,
}
use crypto_shloma.Api.Binance.Codes.{OrderStatus}
use crypto_shloma.Api.Binance.EndPoints.{StreamKind, stream_text}
use crypto_shloma.Api.Binance.Read.{
  text_at, double_at, id_at, date_at, is_status, is_open_status, order_type_to_enum,
}
use crypto_shloma.Api.Binance.Markets.{currencies_loop, market_info, market_data, market_tick}
use crypto_shloma.Api.Binance.Orders.{
  trade_history, open_orders, depth_orders, balances, account_balances, record_of, report_order,
  open_report, filled_report,
}
use crypto_shloma.Api.Binance.Session.{
  ◌>>◌, does, nothing, Channel, Effect, Reply, Env, Call, nothing, does, get_data, data_of,
  processing_reply, reply_document,
}

module _ ⦃q : Qt⦄ where
  open q use {QJsonObject, QJsonValue, value, to_array, object_is_empty, contains, mul}

  -- `if ( !list.isEmpty() ) emit signal(list)`.
  unfoldable pub report : {A : Type 0} → (List A → Signal) → List A → List Effect
  report signal [] = []
  report signal (x ∷ xs) = Effect.emits (signal (x ∷ xs)) ∷ []

  unfoldable pub with_table : (Table → Table) → Call
  with_table f a = (record a { temp_orders = f a.temp_orders }, [])

  unfoldable pub process_exchange_info : Env → Reply → Call
  unfolding ◌>>◌ does report get_data data_of currencies_loop market_info
  process_exchange_info env reply =
      let array = to_array (value (data_of env reply).object "symbols") in
      (get_data env reply
        >> does (
            report Signal.receive_currencies (currencies_loop array [])
            ++ report Signal.receive_market_info (map market_info array)))

  unfoldable pub process_market_data : Env → Reply → Call
  unfolding ◌>>◌ does report get_data data_of market_data
  process_market_data env reply =
      let array = (data_of env reply).array in
      (get_data env reply
        >> does (
            report Signal.receive_market_data
              (map (market_data env.trade_base_summ env.trade_difference) array)
            ++ (if env.test_data
                then []
                else Effect.adds_stream Channel.markets_channel
                    (stream_text StreamKind.all_market_tickers_stream)
                  ∷ [])))

  unfoldable pub process_balance : Env → Reply → Call
  unfolding ◌>>◌ does nothing report get_data data_of balances
  process_balance env reply =
      let root = (data_of env reply).object in
      (get_data env reply
        >> (if object_is_empty root
            then nothing
            else does (report Signal.receive_balance (balances root))))

  -- A list of one order is looked up in the table of temporary orders and erased from it.
  abbrev pub erase_single : List OrderEntry → Table → Table
  erase_single (e ∷ []) t = erase_record (record_of e) t
  erase_single _ t = t

  unfoldable pub process_user_trade_history : Env → Reply → Call
  unfolding ◌>>◌ does report with_table get_data data_of trade_history erase_record
  process_user_trade_history env reply =
      let orders = trade_history (data_of env reply).array in
      (get_data env reply
        >> with_table (erase_single orders)
        >> does (report Signal.receive_user_trade_history orders))

  unfoldable pub process_user_open_orders : Env → Reply → Call
  unfolding ◌>>◌ does report with_table get_data data_of open_orders erase_record
  process_user_open_orders env reply =
      let orders = open_orders (data_of env reply).array in
      (get_data env reply
        >> with_table (erase_single orders)
        >> does (report Signal.receive_user_open_orders orders))

  abbrev pub cancel_reported : QJsonObject → Call
  cancel_reported object =
      if object_is_empty object
      then nothing
      else (with_table (erase_order (id_at object "orderId"))
          >> does
              (Effect.emits (Signal.receive_canceled_orders (id_at object "orderId" ∷ [])) ∷ []))

  unfoldable pub process_cancel_orders : Reply → Call
  unfolding ◌>>◌ does nothing with_table processing_reply reply_document erase_order
  process_cancel_orders reply =
      (processing_reply reply >> cancel_reported (reply_document reply).object)

  -- The record of `processNewOrders`.
  unfoldable pub confirmed_record : QJsonObject → OrderRecord
  unfolding order_type_to_enum
  confirmed_record object =
      let volume = double_at object "origQty" in
      let price = double_at object "price" in
      known_record (text_at object "symbol") (id_at object "orderId")
        (date_at object "transactTime") price (mul volume price)
        (order_type_to_enum (text_at object "side")) volume

  abbrev pub is_placed_status : String → Bool
  is_placed_status status = is_open_status status || is_status OrderStatus.filled status

  -- What the answer to a new order makes of the table.
  unfoldable pub confirm : QJsonObject → Table → Table
  unfolding confirmed_record update_place_order erase_record
  confirm object t =
      let record' = confirmed_record object in
      if is_placed_status (text_at object "status")
      then update_place_order record' t
      else erase_record record' t

  unfoldable pub process_new_orders : Reply → Call
  unfolding ◌>>◌ nothing with_table processing_reply reply_document confirm
  process_new_orders reply =
      let object = (reply_document reply).object in
      (processing_reply reply
        >> (if object_is_empty object then nothing else with_table (confirm object)))

  unfoldable pub process_all_market_ticket_stream : Env → QJsonObject → Call
  unfolding does report market_tick
  process_all_market_ticket_stream env root = does (
      report Signal.receive_market_data
        (map (market_tick env.trade_base_summ env.trade_difference) (to_array (value root "data"))))

  unfoldable pub process_partial_book_depth_stream : QJsonObject → Call
  unfolding does report depth_orders
  process_partial_book_depth_stream root =
      does (report Signal.receive_market_orders (depth_orders root))

  unfoldable pub process_outbound_account_info : QJsonObject → Call
  unfolding does report account_balances
  process_outbound_account_info root = does (report Signal.receive_balance (account_balances root))

  abbrev pub canceled : OrderEntry → Effect
  canceled e = Effect.emits (Signal.receive_canceled_orders (e.params.order_id ∷ []))

  unfoldable pub process_execution_report_stream : QJsonObject → Call
  unfolding ◌>>◌ does with_table report_order erase_record
  process_execution_report_stream root =
      let e = report_order root in
      let status = text_at root "X" in
      if is_open_status status
      then (with_table (erase_record (record_of (open_report e)))
          >> does (Effect.emits (Signal.receive_user_open_orders (open_report e ∷ [])) ∷ []))
      else if is_status OrderStatus.filled status
      then (with_table (erase_record (record_of (filled_report root e)))
          >> does (
              Effect.emits (Signal.receive_user_trade_history (filled_report root e ∷ []))
              ∷ canceled e
              ∷ []))
      else does (canceled e ∷ [])

  unfoldable pub process_streams : Env → QJsonObject → Call
  unfolding nothing process_all_market_ticket_stream process_partial_book_depth_stream stream_text
  process_streams env root =
      let stream_name = text_at root "stream" in
      if contains stream_name (stream_text StreamKind.all_market_tickers_stream)
      then process_all_market_ticket_stream env root
      else if contains stream_name (stream_text StreamKind.partial_book_depth_streams)
      then process_partial_book_depth_stream root
      else nothing

  unfoldable pub process_user_streams : QJsonObject → Call
  unfolding nothing process_outbound_account_info process_execution_report_stream stream_text
  process_user_streams root =
      let stream_name = text_at root "e" in
      if contains stream_name (stream_text StreamKind.outbound_account_info_stream)
        || contains stream_name (stream_text StreamKind.outbound_account_position_stream)
      then process_outbound_account_info root
      else if contains stream_name (stream_text StreamKind.execution_report_stream)
      then process_execution_report_stream root
      else nothing
