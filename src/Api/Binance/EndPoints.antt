-- ===== src/Api/Binance/EndPoints.antt =====
-- src/api/binance_api_p.h and binance_api_p.cpp: the addresses and the streams of the exchange.
use crypto_shloma.Prelude.{String}

pub data BinanceUrl : Type 0 where
  url_rest url_withdraw url_web_sockets url_ping url_server_time url_exchange_info : BinanceUrl
  url_order_book url_recent_trades_list url_old_trade_lookup : BinanceUrl
  url_aggregate_trades_list url_kline_data url_current_average_price : BinanceUrl
  url_ticker24_price_change_statistics url_symbol_price_ticker : BinanceUrl
  url_symbol_order_book_ticker url_new_order url_test_new_order url_query_order : BinanceUrl
  url_cancel_order url_current_open_orders url_all_orders url_new_oco url_cancel_oco : BinanceUrl
  url_query_oco url_query_all_oco url_query_open_oco url_account_information : BinanceUrl
  url_account_trade_list url_user_data_stream url_account_with_draw : BinanceUrl

unfoldable pub end_point : BinanceUrl → String
end_point BinanceUrl.url_rest = "https://api.binance.com/api/v3/"
end_point BinanceUrl.url_withdraw = "https://api.binance.com/wapi/v3/"
end_point BinanceUrl.url_web_sockets = "wss://stream.binance.com:9443/"
end_point BinanceUrl.url_ping = "ping"
end_point BinanceUrl.url_server_time = "time"
end_point BinanceUrl.url_exchange_info = "exchangeInfo"
end_point BinanceUrl.url_order_book = "depth"
end_point BinanceUrl.url_recent_trades_list = "trades"
end_point BinanceUrl.url_old_trade_lookup = "historicalTrades"
end_point BinanceUrl.url_aggregate_trades_list = "aggTrades"
end_point BinanceUrl.url_kline_data = "klines"
end_point BinanceUrl.url_current_average_price = "avgPrice"
end_point BinanceUrl.url_ticker24_price_change_statistics = "ticker/24hr"
end_point BinanceUrl.url_symbol_price_ticker = "ticker/price"
end_point BinanceUrl.url_symbol_order_book_ticker = "ticker/bookTicker"
end_point BinanceUrl.url_new_order = "order"
end_point BinanceUrl.url_test_new_order = "order/test"
end_point BinanceUrl.url_query_order = "order?"
end_point BinanceUrl.url_cancel_order = "order?"
end_point BinanceUrl.url_current_open_orders = "openOrders?"
end_point BinanceUrl.url_all_orders = "allOrders?"
end_point BinanceUrl.url_new_oco = "order/oco"
end_point BinanceUrl.url_cancel_oco = "orderList"
end_point BinanceUrl.url_query_oco = "orderList"
end_point BinanceUrl.url_query_all_oco = "allOrderList"
end_point BinanceUrl.url_query_open_oco = "openOrderList"
end_point BinanceUrl.url_account_information = "account?"
end_point BinanceUrl.url_account_trade_list = "myTrades?"
end_point BinanceUrl.url_user_data_stream = "userDataStream"
end_point BinanceUrl.url_account_with_draw = "withdraw.html"

pub data StreamKind : Type 0 where
  aggregate_trade_streams trade_streams kline_streams : StreamKind
  individual_symbol_mini_ticker_stream all_market_mini_tickers_stream : StreamKind
  individual_symbol_ticker_streams all_market_tickers_stream : StreamKind
  individual_symbol_book_ticker_streams all_book_tickers_stream : StreamKind
  partial_book_depth_streams diff_depth_stream outbound_account_info_stream : StreamKind
  outbound_account_position_stream execution_report_stream list_status_stream : StreamKind
  balance_update_stream : StreamKind

unfoldable pub stream_text : StreamKind → String
stream_text StreamKind.aggregate_trade_streams = "@aggTrade"
stream_text StreamKind.trade_streams = "@trade"
stream_text StreamKind.kline_streams = "@kline_"
stream_text StreamKind.individual_symbol_mini_ticker_stream = "@miniTicker"
stream_text StreamKind.all_market_mini_tickers_stream = "!miniTicker@arr"
stream_text StreamKind.individual_symbol_ticker_streams = "@ticker"
stream_text StreamKind.all_market_tickers_stream = "!ticker@arr"
stream_text StreamKind.individual_symbol_book_ticker_streams = "@bookTicker"
stream_text StreamKind.all_book_tickers_stream = "!bookTicker"
stream_text StreamKind.partial_book_depth_streams = "@depth"
stream_text StreamKind.diff_depth_stream = "@depth"
stream_text StreamKind.outbound_account_info_stream = "outboundAccountInfo"
stream_text StreamKind.outbound_account_position_stream = "outboundAccountPosition"
stream_text StreamKind.execution_report_stream = "executionReport"
stream_text StreamKind.list_status_stream = "listStatus"
stream_text StreamKind.balance_update_stream = "balanceUpdate"
