-- ===== src/Tests/ApiExamples.antt =====
-- The theorems on the API of the exchange at concrete inputs.
use crypto_shloma.Prelude.{
  ℕ, pos, String, Bool, true, false, List, [], ◌∷◌, ◌++◌, Option, none, some, ◌≡◌, ◌≢◌, refl, All,
  ◌==◌, str_eq, map, filter, if◌then◌else◌, arith,
}
use crypto_shloma.Base.Order.{OrderType}
use crypto_shloma.Base.Market.Data as Market
use crypto_shloma.Storage.Keyed.{lookup, Distinct}
use crypto_shloma.Storage.Markets.{
  entry_currency_id, find_market_by_id, merge_currencies, merge_market_info,
}
use crypto_shloma.Api.TemporaryOrders.{OrderRecord, new_record}
use crypto_shloma.Api.TemporaryOrders.Laws as Temporary
use crypto_shloma.Api.Hub.{Hub, return_to_loop}
use crypto_shloma.Api.Hub.Laws.{reported, found_open, stale_report_stays}
use crypto_shloma.Api.Controller.{remove_market, cancel_all_orders}
use crypto_shloma.Api.Controller.Laws.{cancellations, remove_market_cancels_nothing}
use crypto_shloma.Api.Binance.Session.{Effect, Env, BinanceApi, Document, Reply, no_document}
use crypto_shloma.Api.Binance.Orders.{entry_id, trade_id, trade_history}
use crypto_shloma.Api.Binance.Orders.Trades.{filled_in, trade_history_lem}
use crypto_shloma.Api.Binance.Markets.{currencies_loop, apply_filters, market_info}
use crypto_shloma.Api.Binance.Markets.Laws.{apply_filters_unknown}
use crypto_shloma.Api.Binance.Markets.Info.{find_market-reported}
use crypto_shloma.Api.Binance.Receive.{process_cancel_orders}
use crypto_shloma.Api.Binance.Submit.{submit_order}
use crypto_shloma.Api.Binance.Submit.Laws.{submit_order_blocked}
use crypto_shloma.Api.Binance.Submit.Frees.{SendsOne, cancel_frees}
use crypto_shloma.Api.Binance.Calls.{ApiCall, perform_all}
use crypto_shloma.Api.Binance.Calls.Steps.{is_sent}
use crypto_shloma.Api.Binance.Calls.Laws.{perform_all-IsValid, perform_all_blocked}
use crypto_shloma.Tests.Platform.{Json, Fields, platform}
use crypto_shloma.Tests.Data.{storages, markets, market}
use crypto_shloma.Tests.Messages as Messages

abbrev pub env : Env
env = record {
  test_data = false;
  test_document = no_document;
  api_key = "key";
  secret_key = "secret";
  trade_base_summ = platform.literal 1 0;
  trade_difference = platform.literal 0 0;
  now = 9;
  now_msecs = pos 9000;
  is_open = λ c. true;
  is_connected = λ c. true;
  timer_id = 3;
  time_answer = Fields.end;
  random_ids = (1, 2);
}

abbrev pub api : BinanceApi
api = record {
  server_time_offset = pos 0;
  put_key_timer_id = 0;
  ping_timer_id = 1;
  user_token = "token";
  requests_is_block = false;
  is_online = true;
  temp_orders = [];
}

abbrev price : platform.Qreal
price = platform.literal 100 0

abbrev volume : platform.Qreal
volume = platform.literal 2 0

abbrev calls : List (Env × ApiCall)
calls =
    (env, ApiCall.submit_order markets "BTCUSD" OrderType.buy price volume volume)
    ∷ (
      env,
      ApiCall.process_cancel_orders
          (Reply.finished (record { object = Messages.canceled; array = [] })),
    )
    ∷ []

abbrev calls_with_error : List (Env × ApiCall)
calls_with_error =
    (env, ApiCall.submit_order markets "BTCUSD" OrderType.buy price volume volume)
    ∷ (env, ApiCall.new_order_failed (new_record 9 "BTCUSD" OrderType.buy price volume volume))
    ∷ calls

perform_all-IsValid_example : Temporary.IsValid (perform_all calls_with_error api).0.temp_orders
perform_all-IsValid_example = perform_all-IsValid calls_with_error api tt

abbrev blocked_api : BinanceApi
blocked_api = record api { requests_is_block = true }

perform_all_blocked_example :
    All (λ e. is_sent e ≡ false) (perform_all calls blocked_api).1
    × ((perform_all calls blocked_api).0.requests_is_block ≡ true)
perform_all_blocked_example = perform_all_blocked calls blocked_api (refl, (refl, tt)) refl

abbrev trades : List Json
trades = Messages.trade "1" ∷ Messages.trade "2" ∷ []

trade_history_lem_example :
    Distinct entry_id ◌==◌ (trade_history trades)
    × ((id : ℕ)
        → lookup entry_id ◌==◌ id (trade_history trades)
          ≡ filled_in (filter (λ v. trade_id v == id) trades))
trade_history_lem_example = trade_history_lem trades

abbrev symbols : List Json
symbols = Messages.symbol ∷ []

find_market-reported_example :
    find_market_by_id
      (merge_market_info
        (map market_info symbols)
        (merge_currencies (currencies_loop symbols []) markets))
      "BTCUSD"
    ≢ none
unfolding market_info crypto_shloma.Tests.Platform.elements crypto_shloma.Tests.Platform.value_of
find_market-reported_example = find_market-reported symbols markets "BTCUSD" (refl, tt) refl

abbrev filters : List Json
filters = Messages.filter "PRICE_FILTER" "2" ∷ []

apply_filters_unknown_example :
    let c = apply_filters (filters ++ Messages.filter "NOTIONAL" "0" ∷ []) Market.default_config in
    (c.price_tick_size ≡ pos 0)
    × (c.min_base_trade_price ≡ platform.literal 1 0)
    × (c.max_base_trade_price ≡ platform.literal 9 0)
unfolding crypto_shloma.Api.Binance.Codes.symbol_filter_text crypto_shloma.Tests.Platform.value_of
    crypto_shloma.Api.Binance.Read.to_double
apply_filters_unknown_example =
    apply_filters_unknown filters (Messages.filter "NOTIONAL" "0") Market.default_config refl

abbrev buy_btc : BinanceApi → BinanceApi × List Effect
buy_btc = submit_order env markets "BTCUSD" OrderType.buy price volume volume

abbrev after_block : BinanceApi
after_block = (buy_btc blocked_api).0

submit_order_blocked_example :
    ((buy_btc blocked_api).1 ≡ [])
    × (buy_btc (record after_block { requests_is_block = false })
        ≡ (record after_block { requests_is_block = false }, []))
unfolding crypto_shloma.Storage.Markets.find_market_by_id crypto_shloma.Storage.Keyed.lookup
submit_order_blocked_example =
    submit_order_blocked env env markets markets market "BTCUSD" OrderType.buy price price volume
      volume volume volume blocked_api refl refl refl refl refl

abbrev waiting : OrderRecord
waiting = record (new_record 1 "BTCUSD" OrderType.buy price volume volume) { order_id = 4 }

abbrev canceling : Document
canceling = record { object = Messages.canceled; array = [] }

abbrev waiting_api : BinanceApi
waiting_api = record api { temp_orders = waiting ∷ [] }

cancel_frees_example :
    SendsOne (buy_btc (process_cancel_orders (Reply.finished canceling) waiting_api).0)
unfolding crypto_shloma.Tests.Platform.value_of crypto_shloma.Prelude.find new_record
    crypto_shloma.Storage.Markets.find_market_by_id crypto_shloma.Storage.Keyed.lookup
cancel_frees_example =
    cancel_frees env markets market price volume volume canceling waiting waiting_api (refl, tt)
      refl refl refl refl refl refl refl

abbrev hub : Hub
hub = record { storages = storages; queue = [] }

stale_report_stays_example :
    found_open 4 (
      return_to_loop
        (reported (Messages.execution "FILLED") api (reported (Messages.execution "NEW") api hub)))
    ≢ none
unfolding crypto_shloma.Tests.Platform.value_of crypto_shloma.Api.Binance.Codes.order_status_text
    crypto_shloma.Api.Binance.Orders.report_order crypto_shloma.Storage.Orders.make_order
    crypto_shloma.Storage.Markets.find_market_by_id crypto_shloma.Storage.Keyed.lookup
stale_report_stays_example =
    stale_report_stays (Messages.execution "NEW") (Messages.execution "FILLED") api api hub refl
      refl refl (record { distinct = tt; set = tt }) (λ n. cc) refl

remove_market_cancels_nothing_example :
    (cancellations env (remove_market false 9 storages "BTCUSD") api ≡ (api, []))
    × (cancellations env cancel_all_orders api ≡ (api, []))
remove_market_cancels_nothing_example =
    remove_market_cancels_nothing env false 9 storages "BTCUSD" api
