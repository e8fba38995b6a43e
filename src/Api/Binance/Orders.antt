-- ===== src/Api/Binance/Orders.antt =====
-- src/api/binance_api.cpp: the orders and balances of an answer.
pub mod Trades
use crypto_shloma.Prelude.{
  ℕ, String, Bool, List, [], ◌∷◌, ◌++◌, Option, some, ◌==◌, any, filter, map, if◌then◌else◌,
}
use crypto_shloma.Qt.{Qt}
use crypto_shloma.Base.Order as Order
use crypto_shloma.Base.Order.{OrderType}
use crypto_shloma.Base.Balance as Balance
use crypto_shloma.Api.Entry.{OrderEntry, BalanceEntry}
use crypto_shloma.Api.TemporaryOrders.{OrderRecord, known_record}
use crypto_shloma.Storage.Keyed.{upsert_all}
use crypto_shloma.Api.Binance.Read.{
  binance_fee, double_at, text_at, id_at, date_at, to_double, elem_at, order_type_to_enum,
  is_open_status,
}

module _ ⦃q : Qt⦄ where
  open q use {
    Qreal, QJsonObject, QJsonValue, literal, add, sub, mul, value, to_object, to_array, to_bool,
    fuzzy_is_null, to_upper, first_part,
  }

  abbrev pub entry_id : OrderEntry → ℕ
  entry_id e = e.params.order_id

  -- The order id of one reported trade.
  abbrev pub trade_id : QJsonValue → ℕ
  trade_id v = id_at (to_object v) "orderId"

  -- A further trade of an order that is in the list: both volumes grow.
  abbrev pub add_trade : QJsonValue → OrderEntry → OrderEntry
  add_trade v e = record e {
    params = record (e.params) {
      currency_volume = add e.params.currency_volume (double_at (to_object v) "qty");
      base_volume = add e.params.base_volume (double_at (to_object v) "quoteQty");
    };
  }

  abbrev pub new_trade : QJsonValue → OrderEntry
  new_trade v =
      let obj = to_object v in
      record {
        market_id = text_at obj "symbol";
        params = record Order.default_config {
          order_id = trade_id v;
          price = double_at obj "price";
          currency_volume = double_at obj "qty";
          base_volume = double_at obj "quoteQty";
          fee = mul (double_at obj "quoteQty") binance_fee;
          time_stamp = date_at obj "time";
          updated_time_stamp = date_at obj "time";
          type = if to_bool (value obj "isBuyer") then OrderType.buy else OrderType.sell;
        };
      }

  -- The loop of `processUserTradeHistory`.
  unfoldable pub trade_history : List QJsonValue → List OrderEntry
  unfolding upsert_all
  trade_history array =
      upsert_all entry_id trade_id ◌==◌ add_trade (λ v. some (new_trade v)) array []

  -- One round of the loop of `processUserOpenOrders`.
  unfoldable pub open_order : QJsonValue → OrderEntry
  unfolding order_type_to_enum
  open_order v =
      let obj = to_object v in
      let volume = double_at obj "origQty" in
      record {
        market_id = text_at obj "symbol";
        params = record Order.default_config {
          order_id = id_at obj "orderId";
          price = double_at obj "price";
          currency_volume = volume;
          base_volume = mul volume (double_at obj "price");
          remaining = sub volume (double_at obj "executedQty");
          time_stamp = date_at obj "time";
          updated_time_stamp = date_at obj "updateTime";
          type = order_type_to_enum (text_at obj "side");
        };
      }

  abbrev pub is_open_at : QJsonValue → Bool
  is_open_at v = is_open_status (text_at (to_object v) "status")

  -- The loop of `processUserOpenOrders`.
  unfoldable pub open_orders : List QJsonValue → List OrderEntry
  unfolding open_order
  open_orders [] = []
  open_orders (v ∷ vs) =
      let rest = open_orders vs in if is_open_at v then open_order v ∷ rest else rest

  -- The record that an entry is looked up by in the table of temporary orders.
  abbrev pub record_of : OrderEntry → OrderRecord
  record_of e =
      known_record e.market_id e.params.order_id e.params.time_stamp e.params.price
        e.params.base_volume e.params.type e.params.currency_volume

  -- One round of either loop of `processPartialBookDepthStream`.
  unfoldable pub depth_order : String → OrderType → QJsonValue → OrderEntry
  depth_order market_id type v =
      let obj = to_array v in
      let price = to_double (elem_at obj 0) in
      let volume = to_double (elem_at obj 1) in
      record {
        market_id = market_id;
        params = record Order.default_config {
          price = price;
          currency_volume = volume;
          base_volume = mul volume price;
          type = type;
        };
      }

  unfoldable pub depth_orders : QJsonObject → List OrderEntry
  unfolding depth_order
  depth_orders root =
      let market_id = to_upper (first_part (text_at root "stream") "@") in
      let data' = to_object (value root "data") in
      map (depth_order market_id OrderType.buy) (to_array (value data' "bids"))
      ++ map (depth_order market_id OrderType.sell) (to_array (value data' "asks"))

  abbrev balance_entry :
      (asset locked free updated : String) → QJsonObject → QJsonValue → BalanceEntry
  balance_entry asset locked free updated root v =
      let obj = to_object v in
      record {
        currency_id = text_at obj asset;
        params = record Balance.default_config {
          held_for_trades = double_at obj locked;
          available = double_at obj free;
          total = add (double_at obj locked) (double_at obj free);
          timestamp = date_at root updated;
        };
      }

  -- The loop of `processBalance`.
  unfoldable pub balances : QJsonObject → List BalanceEntry
  balances root =
      map (balance_entry "asset" "locked" "free" "updateTime" root)
        (to_array (value root "balances"))

  -- The loop of `processOutboundAccountInfo`.
  unfoldable pub account_balances : QJsonObject → List BalanceEntry
  account_balances root = map (balance_entry "a" "l" "f" "u" root) (to_array (value root "B"))

  -- The price of an execution report: of the last trade, if there was one.
  abbrev report_price : Qreal → Qreal → Qreal
  report_price last price = if fuzzy_is_null last then price else last

  -- The entry of `processExecutionReportStream`, before its base volume is known.
  unfoldable pub report_order : QJsonObject → OrderEntry
  unfolding order_type_to_enum
  report_order root = record {
    market_id = text_at root "s";
    params = record Order.default_config {
      order_id = id_at root "i";
      price = report_price (double_at root "L") (double_at root "p");
      currency_volume = double_at root "q";
      remaining = sub (double_at root "q") (double_at root "z");
      time_stamp = date_at root "O";
      updated_time_stamp = date_at root "T";
      type = order_type_to_enum (text_at root "S");
    };
  }

  -- The entry of a report of an open order.
  abbrev pub open_report : OrderEntry → OrderEntry
  open_report e = record e {
    params = record (e.params) { base_volume = mul e.params.currency_volume e.params.price };
  }

  -- The entry of a report of a filled order.
  abbrev pub filled_report : QJsonObject → OrderEntry → OrderEntry
  filled_report root e =
      let base_volume = double_at root "Z" in
      record e {
        params = record (e.params) { base_volume = base_volume; fee = mul base_volume binance_fee };
      }
