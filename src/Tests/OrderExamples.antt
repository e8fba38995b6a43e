-- ===== src/Tests/OrderExamples.antt =====
-- The theorems on the storages of orders at concrete inputs.
use crypto_shloma.Prelude.{List, [], ◌∷◌, ◌≡◌, refl, not, ◌&&◌, arith, ◌==◌, filter, if◌then◌else◌}
use crypto_shloma.Base.Order.{Order, OrderType}
use crypto_shloma.Storage.Keyed.{lookup}
use crypto_shloma.Storage.Orders.{is_of, order_id, make_order}
use crypto_shloma.Storage.TradeHistory as History
use crypto_shloma.Storage.TradeHistory.Laws as HistoryLaws
use crypto_shloma.Storage.MarketOrders as Books
use crypto_shloma.Storage.MarketOrders.Laws as BookLaws
use crypto_shloma.Storage.OpenOrders as Open
use crypto_shloma.Storage.OpenOrders.Pointers.{in_reported_market, remove_reported_lem}
use crypto_shloma.Storage.OpenOrders.Merge as OpenMerge
use crypto_shloma.Tests.Platform.{platform}
use crypto_shloma.Tests.Data.{markets, order, order_entry}

abbrev stored : List Order
stored = order 1 OrderType.buy 5 ∷ order 2 OrderType.sell 6 ∷ []

abbrev history : History.TradeHistory
history = record { orders = stored; filters = "BTCUSD" ∷ [] }

history-IsValid : HistoryLaws.IsValid history
history-IsValid = record {
  distinct = (refl, (refl, tt));
  followed = (("BTCUSD", refl, refl), (("BTCUSD", refl, refl), tt));
}

abbrev books : Books.MarketOrders
books = record { orders = stored; filters = "BTCUSD" ∷ [] }

merge_lem_example :
    filter (is_of "BTCUSD") (Books.merge markets (order_entry 3 OrderType.buy 8 ∷ []) books).orders
    ≡ (if BookLaws.reports (order_entry 3 OrderType.buy 8 ∷ []) "BTCUSD"
        then BookLaws.book markets ("BTCUSD" ∷ []) "BTCUSD" (order_entry 3 OrderType.buy 8 ∷ [])
        else filter (is_of "BTCUSD") stored)
merge_lem_example = BookLaws.merge_lem markets (order_entry 3 OrderType.buy 8 ∷ []) books "BTCUSD"

remove_reported_lem_example :
    Open.remove_reported (order_entry 2 OrderType.sell 4 ∷ []) stored
    ≡ filter
        (λ o. not (
          in_reported_market (order_entry 2 OrderType.sell 4 ∷ []) o
          && Open.is_reported (order_entry 2 OrderType.sell 4 ∷ []) o))
        stored
remove_reported_lem_example = remove_reported_lem (order_entry 2 OrderType.sell 4 ∷ []) stored

abbrev open_orders : Open.OpenOrders
open_orders = record { orders = stored }

open_orders-IsValid : OpenMerge.IsValid open_orders
open_orders-IsValid = record {
  distinct = (refl, (refl, tt));
  set = (ground arith, (ground arith, tt));
}

-- The stored order is newer than the report.
merge_ignores_time_example :
    lookup order_id ◌==◌ 2
      (Open.merge markets (order_entry 2 OrderType.sell 4 ∷ []) open_orders).orders
    ≡ make_order markets (order_entry 2 OrderType.sell 4)
unfolding lookup
merge_ignores_time_example =
    OpenMerge.merge_ignores_time markets (order_entry 2 OrderType.sell 4 ∷ []) open_orders 2
      (order 2 OrderType.sell 6) (order_entry 2 OrderType.sell 4) open_orders-IsValid (refl, tt)
      refl refl refl

merge_keeps_unreported_example :
    lookup order_id ◌==◌ 1
      (Open.merge markets (order_entry 2 OrderType.sell 4 ∷ []) open_orders).orders
    ≡ lookup order_id ◌==◌ 1 stored
unfolding lookup
merge_keeps_unreported_example =
    OpenMerge.merge_keeps_unreported markets (order_entry 2 OrderType.sell 4 ∷ []) open_orders 1
      open_orders-IsValid (refl, tt) refl
