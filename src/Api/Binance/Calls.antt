-- ===== src/Api/Binance/Calls.antt =====
-- src/api/binance_api.h: the calls that change a BinanceAPI object, as one type.
pub mod Steps
pub mod Laws
pub mod Living
pub mod Sending
pub mod Receiving
use crypto_shloma.Prelude.{ℕ, String, List, [], ◌∷◌, ◌++◌}
use crypto_shloma.Qt.{Qt}
use crypto_shloma.Base.Order.{OrderType}
use crypto_shloma.Api.Signals.{CancellationOrderType}
use crypto_shloma.Storage.Markets.{MarketsStorage}
use crypto_shloma.Api.TemporaryOrders.{OrderRecord}
use crypto_shloma.Api.Binance.Session as Session
use crypto_shloma.Api.Binance.Session.{Reply, Env, BinanceApi, Call, Effect}
use crypto_shloma.Api.Binance.Lifecycle as Lifecycle
use crypto_shloma.Api.Binance.Lifecycle.{HttpError}
use crypto_shloma.Api.Binance.Receive as Receive
use crypto_shloma.Api.Binance.Submit as Submit
use crypto_shloma.Api.Binance.Requests as Requests

module _ ⦃q : Qt⦄ where
  open q use {Qreal, QJsonObject}

  pub data ApiCall : Type 0 where
    start stop log_out set_online set_offline : ApiCall
    server_time user_auth list_market_info list_market_data user_balance : ApiCall
    timer_event : ℕ → ApiCall
    http_error : HttpError → ApiCall
    process_user_auth process_exchange_info process_market_data process_balance : Reply → ApiCall
    process_user_trade_history process_user_open_orders : Reply → ApiCall
    process_cancel_orders process_new_orders : Reply → ApiCall
    process_streams process_user_streams : QJsonObject → ApiCall
    submit_order : MarketsStorage → String → OrderType → Qreal → Qreal → Qreal → ApiCall
    new_order_failed : OrderRecord → ApiCall
    cancel_order : CancellationOrderType → ℕ → String → ApiCall
    list_market_orders : String → ℕ → ApiCall
    remove_list_market_orders user_open_orders user_trade_history : String → ApiCall
    list_market_order_groups : List String → ℕ → ApiCall
    break_timeout : ApiCall

  unfoldable pub perform : Env → ApiCall → Call
  perform env ApiCall.start = Lifecycle.start env
  perform env ApiCall.stop = Lifecycle.stop env
  perform env ApiCall.log_out = Lifecycle.log_out
  perform env ApiCall.set_online = Session.set_online
  perform env ApiCall.set_offline = Session.set_offline
  perform env ApiCall.server_time = Lifecycle.server_time env
  perform env ApiCall.user_auth = Lifecycle.user_auth env
  perform env ApiCall.list_market_info = Requests.list_market_info env
  perform env ApiCall.list_market_data = Requests.list_market_data env
  perform env ApiCall.user_balance = Requests.user_balance env
  perform env (ApiCall.timer_event id) = Lifecycle.timer_event env id
  perform env (ApiCall.http_error e) = Lifecycle.http_error env e
  perform env (ApiCall.process_user_auth r) = Lifecycle.process_user_auth env r
  perform env (ApiCall.process_exchange_info r) = Receive.process_exchange_info env r
  perform env (ApiCall.process_market_data r) = Receive.process_market_data env r
  perform env (ApiCall.process_balance r) = Receive.process_balance env r
  perform env (ApiCall.process_user_trade_history r) = Receive.process_user_trade_history env r
  perform env (ApiCall.process_user_open_orders r) = Receive.process_user_open_orders env r
  perform env (ApiCall.process_cancel_orders r) = Receive.process_cancel_orders r
  perform env (ApiCall.process_new_orders r) = Receive.process_new_orders r
  perform env (ApiCall.process_streams root) = Receive.process_streams env root
  perform env (ApiCall.process_user_streams root) = Receive.process_user_streams root
  perform env (ApiCall.submit_order markets id side price base_volume volume) =
      Submit.submit_order env markets id side price base_volume volume
  perform env (ApiCall.new_order_failed r) = Submit.new_order_failed r
  perform env (ApiCall.cancel_order type order_id id) = Submit.cancel_order type env order_id id
  perform env (ApiCall.list_market_orders id count) = Requests.list_market_orders id count
  perform env (ApiCall.remove_list_market_orders id) = Requests.remove_list_market_orders id
  perform env (ApiCall.user_open_orders id) = Requests.user_open_orders env id
  perform env (ApiCall.user_trade_history id) = Requests.user_trade_history env id
  perform env (ApiCall.list_market_order_groups ids count) =
      Requests.list_market_order_groups ids count
  perform env ApiCall.break_timeout = Lifecycle.break_timeout

  -- A sequence of calls, each with what it reads from outside.
  unfoldable pub perform_all : List (Env × ApiCall) → BinanceApi → BinanceApi × List Effect
  perform_all [] a = (a, [])
  perform_all ((env, c) ∷ cs) a =
      let (a', es) = perform env c a in let (a'', es') = perform_all cs a' in (a'', es ++ es')
