-- ===== src/Api/Binance/Markets.antt =====
-- src/api/binance_api.cpp and i_exchange_api.cpp: the markets and currencies of an answer.
pub mod Laws
pub mod Info
use crypto_shloma.Prelude.{String, List, [], ◌∷◌, ◌++◌, any, str_eq, if◌then◌else◌}
use crypto_shloma.Qt.{Qt}
use crypto_shloma.Base.Currency as Currency
use crypto_shloma.Base.Market.Data as Market
use crypto_shloma.Api.Entry.{MarketEntry}
use crypto_shloma.Algo.Average.{round8}
use crypto_shloma.Api.Binance.Codes.{key, SymbolFilter, symbol_filter_text, symbol_filters}
use crypto_shloma.Api.Binance.Read.{
  binance_fee, double_at, text_at, market_status_to_enum, currency_status_to_enum,
  currency_listing_status_to_enum,
}

module _ ⦃q : Qt⦄ where
  open q use {
    Qreal, QJsonObject, QJsonValue, literal, add, sub, mul, div, value, to_object, to_array,
  }

  unfoldable pub new_coin : String → String → Currency.Config
  unfolding currency_status_to_enum currency_listing_status_to_enum
  new_coin status symbol = record Currency.default_config {
    id = symbol;
    status = currency_status_to_enum status;
    listing_status = currency_listing_status_to_enum status;
  }

  -- `createCoin` in `processExchangeInfo`: a coin that is listed already stays as it is.
  unfoldable pub create_coin : String → String → List Currency.Config → List Currency.Config
  unfolding new_coin
  create_coin status symbol currencys =
      if any (λ c. str_eq c.id symbol) currencys
      then currencys
      else currencys ++ new_coin status symbol ∷ []

  -- The first loop of `processExchangeInfo`.
  unfoldable pub currencies_loop : List QJsonValue → List Currency.Config → List Currency.Config
  unfolding create_coin
  currencies_loop [] currencys = currencys
  currencies_loop (v ∷ vs) currencys =
      let obj = to_object v in
      let status = text_at obj "status" in
      currencies_loop vs (
        create_coin status (text_at obj "quoteAsset")
          (create_coin status (text_at obj "baseAsset") currencys))

  abbrev price_filter : QJsonObject → Market.Config → Market.Config
  price_filter f c = record c {
    min_base_trade_price = double_at f "minPrice";
    max_base_trade_price = double_at f "maxPrice";
    price_tick_size = double_at f "tickSize";
  }

  abbrev lot_size : QJsonObject → Market.Config → Market.Config
  lot_size f c = record c {
    min_base_volume = double_at f "minQty";
    max_base_volume = double_at f "maxQty";
    volume_step_size = double_at f "stepSize";
  }

  -- The `switch` on the type of a filter.
  abbrev pub filter_of : SymbolFilter → QJsonObject → Market.Config → Market.Config
  filter_of SymbolFilter.price_filter f c = price_filter f c
  filter_of SymbolFilter.lot_size f c = lot_size f c
  filter_of SymbolFilter.min_notional f c = record c { min_notional = double_at f "minNotional" }
  filter_of _ f c = c

  abbrev pub filter_kind : QJsonObject → SymbolFilter
  filter_kind f =
      key SymbolFilter.price_filter symbol_filter_text symbol_filters (text_at f "filterType")

  unfoldable pub apply_filters : List QJsonValue → Market.Config → Market.Config
  unfolding key symbol_filter_text
  apply_filters [] c = c
  apply_filters (x ∷ xs) c =
      apply_filters xs (filter_of (filter_kind (to_object x)) (to_object x) c)

  -- One round of the second loop of `processExchangeInfo`.
  unfoldable pub market_info : QJsonValue → MarketEntry
  unfolding apply_filters market_status_to_enum
  market_info v =
      let obj = to_object v in
      record {
        trade_currency_id = text_at obj "baseAsset";
        base_currency_id = text_at obj "quoteAsset";
        params = apply_filters (to_array (value obj "filters")) (record Market.default_config {
          id = text_at obj "symbol";
          status = market_status_to_enum (text_at obj "status");
          trade_fee = binance_fee;
        });
      }

  -- `IExchangeAPI::calculateSpreadForMarket`, with the settings of the sum and of the difference.
  unfoldable pub calculate_spread_for_market : Qreal → Qreal → Market.Config → Market.Config
  calculate_spread_for_market summ difference c =
      let ask_price = sub c.ask_price difference in
      let bid_price = add c.bid_price difference in
      let trade_fee = sub (literal 1 0) c.trade_fee in
      let start_buy = mul (div summ bid_price) trade_fee in
      let start_sell = mul (mul start_buy ask_price) trade_fee in
      record c { spread = round8 (sub start_sell summ) }

  abbrev ticker :
      (low high bid ask open_price volume base_volume last symbol : String)
      → Qreal
      → Qreal
      → QJsonValue
      → MarketEntry
  ticker low high bid ask open_price volume base_volume last symbol summ difference v =
      let obj = to_object v in
      record {
        trade_currency_id = "";
        base_currency_id = "";
        params = calculate_spread_for_market summ difference (record Market.default_config {
          id = text_at obj symbol;
          low = double_at obj low;
          high = double_at obj high;
          bid_price = double_at obj bid;
          ask_price = double_at obj ask;
          open_price = double_at obj open_price;
          volume = double_at obj volume;
          base_volume = double_at obj base_volume;
          last_price = double_at obj last;
          trade_fee = binance_fee;
        });
      }

  -- One round of the loop of `processMarketData`.
  unfoldable pub market_data : Qreal → Qreal → QJsonValue → MarketEntry
  unfolding calculate_spread_for_market
  market_data =
      ticker "lowPrice" "highPrice" "bidPrice" "askPrice" "openPrice" "volume" "quoteVolume"
        "lastPrice" "symbol"

  -- One round of the loop of `processAllMarketTicketStream`.
  unfoldable pub market_tick : Qreal → Qreal → QJsonValue → MarketEntry
  unfolding calculate_spread_for_market
  market_tick = ticker "l" "h" "b" "a" "o" "v" "q" "c" "s"
