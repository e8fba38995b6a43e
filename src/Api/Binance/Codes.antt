-- ===== src/Api/Binance/Codes.antt =====
-- src/api/binance_api_p.h and binance_api_p.cpp: the enumerations of the exchange and the texts that
-- stand for them.
pub mod Laws
use crypto_shloma.Prelude.{String, List, [], ◌∷◌, str_eq, if◌then◌else◌}

-- `QMap::key`: the first key with the value, else the default, which is the first of the enumeration.
unfoldable pub key : {K : Type 0} → K → (K → String) → List K → String → K
key fallback text [] s = fallback
key fallback text (k ∷ ks) s =
    let rest = key fallback text ks s in if str_eq (text k) s then k else rest

pub data SymbolStatus : Type 0 where
  pre_trading trading post_trading end_of_day halt auction_match break : SymbolStatus

unfoldable pub symbol_status_text : SymbolStatus → String
symbol_status_text SymbolStatus.pre_trading = "PRE_TRADING"
symbol_status_text SymbolStatus.trading = "TRADING"
symbol_status_text SymbolStatus.post_trading = "POST_TRADING"
symbol_status_text SymbolStatus.end_of_day = "END_OF_DAY"
symbol_status_text SymbolStatus.halt = "HALT"
symbol_status_text SymbolStatus.auction_match = "AUCTION_MATCH"
symbol_status_text SymbolStatus.break = "BREAK"

abbrev pub symbol_statuses : List SymbolStatus
symbol_statuses =
    SymbolStatus.pre_trading ∷ SymbolStatus.trading ∷ SymbolStatus.post_trading
    ∷ SymbolStatus.end_of_day ∷ SymbolStatus.halt ∷ SymbolStatus.auction_match ∷ SymbolStatus.break
    ∷ []

pub data OrderStatus : Type 0 where
  new partially_filled filled canceled pending_cancel rejected expired : OrderStatus

unfoldable pub order_status_text : OrderStatus → String
order_status_text OrderStatus.new = "NEW"
order_status_text OrderStatus.partially_filled = "PARTIALLY_FILLED"
order_status_text OrderStatus.filled = "FILLED"
order_status_text OrderStatus.canceled = "CANCELED"
order_status_text OrderStatus.pending_cancel = "PENDING_CANCEL"
order_status_text OrderStatus.rejected = "REJECTED"
order_status_text OrderStatus.expired = "EXPIRED"

abbrev pub order_statuses : List OrderStatus
order_statuses =
    OrderStatus.new ∷ OrderStatus.partially_filled ∷ OrderStatus.filled ∷ OrderStatus.canceled
    ∷ OrderStatus.pending_cancel ∷ OrderStatus.rejected ∷ OrderStatus.expired ∷ []

pub data OrderKind : Type 0 where
  limit market stop_loss stop_loss_limit take_profit take_profit_limit limit_maker : OrderKind

unfoldable pub order_kind_text : OrderKind → String
order_kind_text OrderKind.limit = "LIMIT"
order_kind_text OrderKind.market = "MARKET"
order_kind_text OrderKind.stop_loss = "STOP_LOSS"
order_kind_text OrderKind.stop_loss_limit = "STOP_LOSS_LIMIT"
order_kind_text OrderKind.take_profit = "TAKE_PROFIT"
order_kind_text OrderKind.take_profit_limit = "TAKE_PROFIT_LIMIT"
order_kind_text OrderKind.limit_maker = "LIMIT_MAKER"

abbrev pub order_kinds : List OrderKind
order_kinds =
    OrderKind.limit ∷ OrderKind.market ∷ OrderKind.stop_loss ∷ OrderKind.stop_loss_limit
    ∷ OrderKind.take_profit ∷ OrderKind.take_profit_limit ∷ OrderKind.limit_maker ∷ []

pub data OrderSide : Type 0 where
  buy sell : OrderSide

unfoldable pub order_side_text : OrderSide → String
order_side_text OrderSide.buy = "BUY"
order_side_text OrderSide.sell = "SELL"

abbrev pub order_sides : List OrderSide
order_sides = OrderSide.buy ∷ OrderSide.sell ∷ []

pub data TimeInForce : Type 0 where
  gtc ioc fok : TimeInForce

unfoldable pub time_in_force_text : TimeInForce → String
time_in_force_text TimeInForce.gtc = "GTC"
time_in_force_text TimeInForce.ioc = "IOC"
time_in_force_text TimeInForce.fok = "FOK"

abbrev pub times_in_force : List TimeInForce
times_in_force = TimeInForce.gtc ∷ TimeInForce.ioc ∷ TimeInForce.fok ∷ []

pub data Kline : Type 0 where
  minute1 minute3 minute5 minute15 minute30 hour1 hour2 hour4 hour6 hour8 hour12 day1 : Kline
  day3 week month : Kline

unfoldable pub kline_text : Kline → String
kline_text Kline.minute1 = "1m"
kline_text Kline.minute3 = "3m"
kline_text Kline.minute5 = "5m"
kline_text Kline.minute15 = "15m"
kline_text Kline.minute30 = "30m"
kline_text Kline.hour1 = "1h"
kline_text Kline.hour2 = "2h"
kline_text Kline.hour4 = "4h"
kline_text Kline.hour6 = "6h"
kline_text Kline.hour8 = "8h"
kline_text Kline.hour12 = "12h"
kline_text Kline.day1 = "1d"
kline_text Kline.day3 = "3d"
kline_text Kline.week = "1w"
kline_text Kline.month = "1M"

abbrev pub klines : List Kline
klines =
    Kline.minute1 ∷ Kline.minute3 ∷ Kline.minute5 ∷ Kline.minute15 ∷ Kline.minute30 ∷ Kline.hour1
    ∷ Kline.hour2 ∷ Kline.hour4 ∷ Kline.hour6 ∷ Kline.hour8 ∷ Kline.hour12 ∷ Kline.day1 ∷ Kline.day3
    ∷ Kline.week ∷ Kline.month ∷ []

pub data RateLimitType : Type 0 where
  request_weight orders raw_requests : RateLimitType

unfoldable pub rate_limit_type_text : RateLimitType → String
rate_limit_type_text RateLimitType.request_weight = "REQUEST_WEIGHT"
rate_limit_type_text RateLimitType.orders = "IORDERSOC"
rate_limit_type_text RateLimitType.raw_requests = "RAW_REQUESTS"

abbrev pub rate_limit_types : List RateLimitType
rate_limit_types =
    RateLimitType.request_weight ∷ RateLimitType.orders ∷ RateLimitType.raw_requests ∷ []

pub data RateLimitInterval : Type 0 where
  second minute day : RateLimitInterval

unfoldable pub rate_limit_interval_text : RateLimitInterval → String
rate_limit_interval_text RateLimitInterval.second = "SECOND"
rate_limit_interval_text RateLimitInterval.minute = "MINUTE"
rate_limit_interval_text RateLimitInterval.day = "DAY"

abbrev pub rate_limit_intervals : List RateLimitInterval
rate_limit_intervals =
    RateLimitInterval.second ∷ RateLimitInterval.minute ∷ RateLimitInterval.day ∷ []

pub data SymbolFilter : Type 0 where
  price_filter percent_price lot_size min_notional iceberg_parts market_lot_size : SymbolFilter
  max_num_orders max_num_algo_orders max_num_iceberg_orders max_position : SymbolFilter

unfoldable pub symbol_filter_text : SymbolFilter → String
symbol_filter_text SymbolFilter.price_filter = "PRICE_FILTER"
symbol_filter_text SymbolFilter.percent_price = "PERCENT_PRICE"
symbol_filter_text SymbolFilter.lot_size = "LOT_SIZE"
symbol_filter_text SymbolFilter.min_notional = "MIN_NOTIONAL"
symbol_filter_text SymbolFilter.iceberg_parts = "ICEBERG_PARTS"
symbol_filter_text SymbolFilter.market_lot_size = "MARKET_LOT_SIZE"
symbol_filter_text SymbolFilter.max_num_orders = "MAX_NUM_ORDERS"
symbol_filter_text SymbolFilter.max_num_algo_orders = "MAX_NUM_ALGO_ORDERS"
symbol_filter_text SymbolFilter.max_num_iceberg_orders = "MAX_NUM_ICEBERG_ORDERS"
symbol_filter_text SymbolFilter.max_position = "MAX_POSITION"

abbrev pub symbol_filters : List SymbolFilter
symbol_filters =
    SymbolFilter.price_filter ∷ SymbolFilter.percent_price ∷ SymbolFilter.lot_size
    ∷ SymbolFilter.min_notional ∷ SymbolFilter.iceberg_parts ∷ SymbolFilter.market_lot_size
    ∷ SymbolFilter.max_num_orders ∷ SymbolFilter.max_num_algo_orders
    ∷ SymbolFilter.max_num_iceberg_orders ∷ SymbolFilter.max_position ∷ []

pub data ExchangeFilter : Type 0 where
  exchange_max_num_orders exchange_max_algo_orders : ExchangeFilter

unfoldable pub exchange_filter_text : ExchangeFilter → String
exchange_filter_text ExchangeFilter.exchange_max_num_orders = "EXCHANGE_MAX_NUM_ORDERS"
exchange_filter_text ExchangeFilter.exchange_max_algo_orders = "EXCHANGE_MAX_ALGO_ORDERS"

abbrev pub exchange_filters : List ExchangeFilter
exchange_filters =
    ExchangeFilter.exchange_max_num_orders ∷ ExchangeFilter.exchange_max_algo_orders ∷ []
