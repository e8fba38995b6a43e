-- ===== src/Api/Binance/Codes/Laws.antt =====
-- src/api/binance_api_p.cpp: the texts and the search for them.
use crypto_shloma.Prelude.{◌≡◌, refl, String, List, [], ◌∷◌, any, false, str_eq, arith}
use crypto_shloma.Api.Binance.Codes.{
  key, SymbolStatus, symbol_status_text, symbol_statuses, OrderStatus, order_status_text,
  order_statuses, OrderKind, order_kind_text, order_kinds, OrderSide, order_side_text, order_sides,
  TimeInForce, time_in_force_text, times_in_force, Kline, kline_text, klines, RateLimitType,
  rate_limit_type_text, rate_limit_types, RateLimitInterval, rate_limit_interval_text,
  rate_limit_intervals, SymbolFilter, symbol_filter_text, symbol_filters, ExchangeFilter,
  exchange_filter_text, exchange_filters,
}

pub key-symbol_status_text :
    (fallback c : SymbolStatus)
    → key fallback symbol_status_text symbol_statuses (symbol_status_text c) ≡ c
unfolding key symbol_status_text
key-symbol_status_text fallback SymbolStatus.pre_trading = refl
key-symbol_status_text fallback SymbolStatus.trading = refl
key-symbol_status_text fallback SymbolStatus.post_trading = refl
key-symbol_status_text fallback SymbolStatus.end_of_day = refl
key-symbol_status_text fallback SymbolStatus.halt = refl
key-symbol_status_text fallback SymbolStatus.auction_match = refl
key-symbol_status_text fallback SymbolStatus.break = refl

pub key-order_status_text :
    (fallback c : OrderStatus)
    → key fallback order_status_text order_statuses (order_status_text c) ≡ c
unfolding key order_status_text
key-order_status_text fallback OrderStatus.new = refl
key-order_status_text fallback OrderStatus.partially_filled = refl
key-order_status_text fallback OrderStatus.filled = refl
key-order_status_text fallback OrderStatus.canceled = refl
key-order_status_text fallback OrderStatus.pending_cancel = refl
key-order_status_text fallback OrderStatus.rejected = refl
key-order_status_text fallback OrderStatus.expired = refl

pub key-order_kind_text :
    (fallback c : OrderKind) → key fallback order_kind_text order_kinds (order_kind_text c) ≡ c
unfolding key order_kind_text
key-order_kind_text fallback OrderKind.limit = refl
key-order_kind_text fallback OrderKind.market = refl
key-order_kind_text fallback OrderKind.stop_loss = refl
key-order_kind_text fallback OrderKind.stop_loss_limit = refl
key-order_kind_text fallback OrderKind.take_profit = refl
key-order_kind_text fallback OrderKind.take_profit_limit = refl
key-order_kind_text fallback OrderKind.limit_maker = refl

pub key-order_side_text :
    (fallback c : OrderSide) → key fallback order_side_text order_sides (order_side_text c) ≡ c
unfolding key order_side_text
key-order_side_text fallback OrderSide.buy = refl
key-order_side_text fallback OrderSide.sell = refl

pub key-time_in_force_text :
    (fallback c : TimeInForce)
    → key fallback time_in_force_text times_in_force (time_in_force_text c) ≡ c
unfolding key time_in_force_text
key-time_in_force_text fallback TimeInForce.gtc = refl
key-time_in_force_text fallback TimeInForce.ioc = refl
key-time_in_force_text fallback TimeInForce.fok = refl

pub key-kline_text : (fallback c : Kline) → key fallback kline_text klines (kline_text c) ≡ c
unfolding key kline_text
key-kline_text fallback Kline.minute1 = refl
key-kline_text fallback Kline.minute3 = refl
key-kline_text fallback Kline.minute5 = refl
key-kline_text fallback Kline.minute15 = refl
key-kline_text fallback Kline.minute30 = refl
key-kline_text fallback Kline.hour1 = refl
key-kline_text fallback Kline.hour2 = refl
key-kline_text fallback Kline.hour4 = refl
key-kline_text fallback Kline.hour6 = refl
key-kline_text fallback Kline.hour8 = refl
key-kline_text fallback Kline.hour12 = refl
key-kline_text fallback Kline.day1 = refl
key-kline_text fallback Kline.day3 = refl
key-kline_text fallback Kline.week = refl
key-kline_text fallback Kline.month = refl

pub key-rate_limit_type_text :
    (fallback c : RateLimitType)
    → key fallback rate_limit_type_text rate_limit_types (rate_limit_type_text c) ≡ c
unfolding key rate_limit_type_text
key-rate_limit_type_text fallback RateLimitType.request_weight = refl
key-rate_limit_type_text fallback RateLimitType.orders = refl
key-rate_limit_type_text fallback RateLimitType.raw_requests = refl

pub key-rate_limit_interval_text :
    (fallback c : RateLimitInterval)
    → key fallback rate_limit_interval_text rate_limit_intervals (rate_limit_interval_text c) ≡ c
unfolding key rate_limit_interval_text
key-rate_limit_interval_text fallback RateLimitInterval.second = refl
key-rate_limit_interval_text fallback RateLimitInterval.minute = refl
key-rate_limit_interval_text fallback RateLimitInterval.day = refl

pub key-symbol_filter_text :
    (fallback c : SymbolFilter)
    → key fallback symbol_filter_text symbol_filters (symbol_filter_text c) ≡ c
unfolding key symbol_filter_text
key-symbol_filter_text fallback SymbolFilter.price_filter = refl
key-symbol_filter_text fallback SymbolFilter.percent_price = refl
key-symbol_filter_text fallback SymbolFilter.lot_size = refl
key-symbol_filter_text fallback SymbolFilter.min_notional = refl
key-symbol_filter_text fallback SymbolFilter.iceberg_parts = refl
key-symbol_filter_text fallback SymbolFilter.market_lot_size = refl
key-symbol_filter_text fallback SymbolFilter.max_num_orders = refl
key-symbol_filter_text fallback SymbolFilter.max_num_algo_orders = refl
key-symbol_filter_text fallback SymbolFilter.max_num_iceberg_orders = refl
key-symbol_filter_text fallback SymbolFilter.max_position = refl

pub key-exchange_filter_text :
    (fallback c : ExchangeFilter)
    → key fallback exchange_filter_text exchange_filters (exchange_filter_text c) ≡ c
unfolding key exchange_filter_text
key-exchange_filter_text fallback ExchangeFilter.exchange_max_num_orders = refl
key-exchange_filter_text fallback ExchangeFilter.exchange_max_algo_orders = refl

pub key-fallback :
    {K : Type 0} (fallback : K) (text : K → String) (ks : List K) (s : String)
    → any (λ k. str_eq (text k) s) ks ≡ false
    → key fallback text ks s ≡ fallback
unfolding key
key-fallback fallback text [] s h = refl
key-fallback fallback text (k ∷ ks) s h = ground (arith, key-fallback fallback text ks s)

abbrev IsInverse : {K : Type 0} → (K → String) → List K → Type 0
IsInverse {K} text ks = (fallback c : K) → key fallback text ks (text c) ≡ c

-- Whatever the fallback, each code is found by its own text in the tables of the states of symbols and
-- orders, of the kinds and sides of orders, of the times in force and of the intervals.
pub key-text_lem :
    IsInverse symbol_status_text symbol_statuses
    × IsInverse order_status_text order_statuses
    × IsInverse order_kind_text order_kinds
    × IsInverse order_side_text order_sides
    × IsInverse time_in_force_text times_in_force
    × IsInverse kline_text klines
    × IsInverse rate_limit_type_text rate_limit_types
    × IsInverse rate_limit_interval_text rate_limit_intervals
    × IsInverse symbol_filter_text symbol_filters
    × IsInverse exchange_filter_text exchange_filters
key-text_lem = (
  key-symbol_status_text, key-order_status_text, key-order_kind_text, key-order_side_text,
  key-time_in_force_text, key-kline_text, key-rate_limit_type_text, key-rate_limit_interval_text,
  key-symbol_filter_text, key-exchange_filter_text,
)
