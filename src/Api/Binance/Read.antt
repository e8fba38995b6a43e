-- ===== src/Api/Binance/Read.antt =====
-- src/api/binance_api.cpp and src/common/utils.h: reading the values of an answer, and the exchange's
-- words for states and sides.
use crypto_shloma.Prelude.{ℕ, String, Bool, List, Option, none, some, get_elem?, ◌||◌, str_eq}
use crypto_shloma.Qt.{Qt}
use crypto_shloma.Base.Order.{OrderType}
use crypto_shloma.Base.Currency as Currency
use crypto_shloma.Base.Market.Data as Market
use crypto_shloma.Api.Binance.Codes.{
  key, SymbolStatus, symbol_status_text, symbol_statuses, OrderSide, order_side_text, order_sides,
  OrderStatus, order_status_text,
}

module _ ⦃q : Qt⦄ where
  open q use {
    Qreal, QDateTime, QJsonObject, QJsonValue, literal, value, to_string, text_to_double, to_u64,
    to_i64, date_of_msecs, undefined,
  }

  -- `BINANCE_FEE`.
  abbrev pub binance_fee : Qreal
  binance_fee = literal 75 5

  -- `CryptoShloma::Utils::toDouble`.
  unfoldable pub to_double : QJsonValue → Qreal
  to_double v = text_to_double (to_string v)

  abbrev pub double_at : QJsonObject → String → Qreal
  double_at o k = to_double (value o k)

  abbrev pub text_at : QJsonObject → String → String
  text_at o k = to_string (value o k)

  abbrev pub id_at : QJsonObject → String → ℕ
  id_at o k = to_u64 (value o k)

  abbrev pub date_at : QJsonObject → String → QDateTime
  date_at o k = date_of_msecs (to_i64 (value o k))

  abbrev or_undefined : Option QJsonValue → QJsonValue
  or_undefined none = undefined
  or_undefined (some v) = v

  -- `QJsonArray::at`.
  abbrev pub elem_at : List QJsonValue → ℕ → QJsonValue
  elem_at a i = or_undefined (get_elem? a i)

abbrev symbol_status : String → SymbolStatus
symbol_status = key SymbolStatus.pre_trading symbol_status_text symbol_statuses

abbrev market_status_of : SymbolStatus → Market.Status
market_status_of SymbolStatus.trading = Market.Status.ok
market_status_of _ = Market.Status.closed

unfoldable pub market_status_to_enum : String → Market.Status
unfolding key symbol_status_text
market_status_to_enum status = market_status_of (symbol_status status)

abbrev currency_status_of : SymbolStatus → Currency.Status
currency_status_of SymbolStatus.pre_trading = Currency.Status.ok
currency_status_of SymbolStatus.trading = Currency.Status.ok
currency_status_of SymbolStatus.post_trading = Currency.Status.ok
currency_status_of SymbolStatus.halt = Currency.Status.maintenance
currency_status_of _ = Currency.Status.offline

unfoldable pub currency_status_to_enum : String → Currency.Status
unfolding key symbol_status_text
currency_status_to_enum status = currency_status_of (symbol_status status)

abbrev listing_status_of : SymbolStatus → Currency.StatusListing
listing_status_of SymbolStatus.halt = Currency.StatusListing.delisting
listing_status_of SymbolStatus.break = Currency.StatusListing.delisting
listing_status_of _ = Currency.StatusListing.active

unfoldable pub currency_listing_status_to_enum : String → Currency.StatusListing
unfolding key symbol_status_text
currency_listing_status_to_enum status = listing_status_of (symbol_status status)

abbrev type_of_side : OrderSide → OrderType
type_of_side OrderSide.buy = OrderType.buy
type_of_side OrderSide.sell = OrderType.sell

unfoldable pub order_type_to_enum : String → OrderType
unfolding key order_side_text
order_type_to_enum type = type_of_side (key OrderSide.buy order_side_text order_sides type)

unfoldable pub order_type_to_string : OrderType → String
unfolding order_side_text
order_type_to_string OrderType.buy = order_side_text OrderSide.buy
order_type_to_string _ = order_side_text OrderSide.sell

-- `!status.compare(OrderStatusMap().value(s))`.
abbrev pub is_status : OrderStatus → String → Bool
is_status s status = str_eq status (order_status_text s)

-- The test for an order that is open.
abbrev pub is_open_status : String → Bool
is_open_status status =
    is_status OrderStatus.partially_filled status || is_status OrderStatus.new status
