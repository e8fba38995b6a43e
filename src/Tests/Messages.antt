-- ===== src/Tests/Messages.antt =====
-- Concrete answers of the exchange.
use crypto_shloma.Prelude.{pos, String}
use crypto_shloma.Tests.Platform.{Json, Elements, Fields}

abbrev pub filter : String → String → Json
filter type tick = Json.object (
    Fields.field "filterType" (Json.text type) (
      Fields.field "tickSize" (Json.text tick) (
        Fields.field "minPrice" (Json.text "1")
          (Fields.field "maxPrice" (Json.text "9") Fields.end))))

abbrev pub symbol : Json
symbol = Json.object (
    Fields.field "symbol" (Json.text "BTCUSD") (
      Fields.field "status" (Json.text "TRADING") (
        Fields.field "baseAsset" (Json.text "BTC") (
          Fields.field "quoteAsset" (Json.text "USD") (
            Fields.field "filters"
              (Json.array (Elements.cons (filter "PRICE_FILTER" "2") Elements.nil)) Fields.end)))))

abbrev pub trade : String → Json
trade quantity = Json.object (
    Fields.field "orderId" (Json.int (pos 4)) (
      Fields.field "symbol" (Json.text "BTCUSD") (
        Fields.field "qty" (Json.text quantity)
          (Fields.field "quoteQty" (Json.text quantity) Fields.end))))

abbrev pub execution : String → Fields
execution status = Fields.field "i" (Json.int (pos 4)) (
    Fields.field "s" (Json.text "BTCUSD")
      (Fields.field "S" (Json.text "BUY") (Fields.field "X" (Json.text status) Fields.end)))

abbrev pub canceled : Fields
canceled = Fields.field "orderId" (Json.int (pos 4)) Fields.end
