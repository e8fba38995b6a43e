-- ===== src/Api/Binance/Requests.antt =====
-- src/api/binance_api.cpp: the requests for reports.
use crypto_shloma.Prelude.{
  true, ℕ, pos, String, List, [], ◌∷◌, map, is_empty_text, join, text_of, if◌then◌else◌,
}
use crypto_shloma.Qt.{Qt}
use crypto_shloma.Api.Binance.EndPoints.{BinanceUrl, StreamKind, stream_text}
use crypto_shloma.Api.Binance.Session.{
  does, nothing, Verb, Channel, Effect, Reply, Env, Call, nothing, does, signed_request,
  plain_request,
}
use crypto_shloma.Api.Binance.Receive.{
  process_exchange_info, process_market_data, process_balance, process_user_open_orders,
  process_user_trade_history,
}

module _ ⦃q : Qt⦄ where
  open q use {number, to_lower}

  -- The requests for reports; with test data the report is handled at once.
  unfoldable pub list_market_info : Env → Call
  unfolding plain_request process_exchange_info
  list_market_info env =
      if env.test_data
      then process_exchange_info env Reply.missing
      else plain_request BinanceUrl.url_exchange_info

  unfoldable pub list_market_data : Env → Call
  unfolding plain_request process_market_data
  list_market_data env =
      if env.test_data
      then process_market_data env Reply.missing
      else plain_request BinanceUrl.url_ticker24_price_change_statistics

  -- The stream of an order book with `count` orders on each side.
  abbrev depth_stream : String → ℕ → String
  depth_stream id count =
      text_of
        (to_lower id ∷ stream_text StreamKind.partial_book_depth_streams ∷ number (pos count) ∷ [])

  unfoldable pub list_market_orders : String → ℕ → Call
  unfolding does stream_text
  list_market_orders id count =
      does (Effect.adds_stream Channel.markets_channel (depth_stream id count) ∷ [])

  -- `CONST_ORDERS_COUNT`.
  abbrev pub orders_count : ℕ
  orders_count = 5

  unfoldable pub remove_list_market_orders : String → Call
  unfolding does stream_text
  remove_list_market_orders id =
      does (Effect.removes_stream Channel.markets_channel (depth_stream id orders_count) true ∷ [])

  unfoldable pub list_market_order_groups : List String → ℕ → Call
  unfolding does stream_text
  list_market_order_groups markets count = does (
      Effect.adds_stream Channel.markets_channel
        (join "/" (map (λ id. depth_stream id count) markets))
      ∷ [])

  unfoldable pub user_balance : Env → Call
  unfolding signed_request process_balance
  user_balance env =
      if env.test_data
      then process_balance env Reply.missing
      else signed_request Verb.get env BinanceUrl.url_account_information ""

  abbrev symbol_param : String → String
  symbol_param id = text_of ("symbol=" ∷ id ∷ [])

  unfoldable pub user_open_orders : Env → String → Call
  unfolding signed_request process_user_open_orders
  user_open_orders env id =
      if env.test_data
      then process_user_open_orders env Reply.missing
      else signed_request Verb.get env BinanceUrl.url_current_open_orders
          (if is_empty_text id then "" else symbol_param id)

  unfoldable pub user_trade_history : Env → String → Call
  unfolding nothing signed_request process_user_trade_history
  user_trade_history env id =
      if env.test_data
      then process_user_trade_history env Reply.missing
      else if is_empty_text id
      then nothing
      else signed_request Verb.get env BinanceUrl.url_account_trade_list (symbol_param id)
