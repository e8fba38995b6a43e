-- ===== src/Tests/PoolExamples.antt =====
-- The theorems on the trend searcher and on the pool of exchanges at concrete inputs.
use crypto_shloma.Prelude.{
  ℕ, String, none, inl, if◌then◌else◌, true, List, [], ◌∷◌, ◌≡◌, refl, All, str_eq,
}
use mathlib.Core.Option
use crypto_shloma.Base.Order.{Order, OrderType}
use crypto_shloma.Base.Market.Data.{Market}
use crypto_shloma.Storage.Keyed.{lookup, has}
use crypto_shloma.Storage.Keyed.Laws.{found_where}
use crypto_shloma.Storage.Markets.{find_market_by_id}
use crypto_shloma.Storage.MarketOrders.{MarketOrders}
use crypto_shloma.Storage.TradeHistory.{TradeHistory}
use crypto_shloma.Algo.Average.{round8}
use crypto_shloma.Algo.Average.Cycle.{cycle_buys}
use crypto_shloma.Algo.Trend.{find_first_sell_price, scan}
use crypto_shloma.Algo.Trend.Prices.{last_price, find_first_sell_price-cycle_buys}
use crypto_shloma.Algo.Trend.Scan.{scan_stops, scan-Among, Among}
use crypto_shloma.Models.ExchangePool.{
  Pool, group_key, row_key, row_of, other_rows, loaded_group, saved_rows,
}
use crypto_shloma.Algo.Action.{CacheRow}
use crypto_shloma.Models.ExchangePool.Saved.{restored, loaded_group-saved_rows}
use crypto_shloma.Models.ExchangePool.Laws as PoolLaws
use crypto_shloma.Tests.Platform.{platform}
use crypto_shloma.Tests.Data.{markets, market, old_market, order}

abbrev trades : List Order
trades = order 3 OrderType.buy 8 ∷ order 2 OrderType.buy 7 ∷ order 1 OrderType.sell 5 ∷ []

find_first_sell_price-cycle_buys_example :
    find_first_sell_price trades 6
    ≡ round8 (last_price (platform.literal 0 0) (cycle_buys 6 trades))
find_first_sell_price-cycle_buys_example = find_first_sell_price-cycle_buys trades 6

abbrev book : MarketOrders
book = record { orders = []; filters = [] }

abbrev history : TradeHistory
history = record { orders = order 1 OrderType.sell 5 ∷ []; filters = "BTCUSD" ∷ [] }

abbrev empty_history : TradeHistory
empty_history = record { orders = []; filters = [] }

abbrev now : String → ℕ
now id = if str_eq id "BTCUSD" then 9 else 10

-- A market with a rate, whose newest trade is a sale.
abbrev trending : Market
trending = record market {
  user_config = record (market.user_config) { current_trend_rate = platform.literal 3 0 };
}

scan_stops_example :
    scan now book history (trending ∷ old_market ∷ market ∷ [])
    ≡ scan now book history (trending ∷ [])
unfolding crypto_shloma.Algo.Trend.inspect crypto_shloma.Storage.TradeHistory.filter_market
    crypto_shloma.Tests.Sort.insertion_sort
scan_stops_example = scan_stops now book history (trending ∷ []) (market ∷ []) old_market (inl refl)

scan-Among_example : All (λ u. Among now u (trending ∷ [])) (scan now book history (trending ∷ []))
scan-Among_example = scan-Among now book history (trending ∷ [])

-- The row of another exchange.
abbrev other_row : CacheRow
other_row = record (row_of 2 market) { market_id = "ETHUSD" }

loaded_group-saved_rows_example :
    lookup group_key str_eq "BTCUSD" (loaded_group 1 (saved_rows 1 markets (other_row ∷ []))) ≡ (
      if has row_key str_eq "BTCUSD" (other_rows 1 (other_row ∷ []))
      then none
      else Option.map restored (
          found_where
            (λ (m : Market). m.user_config.is_tradable)
            (find_market_by_id markets "BTCUSD")))
loaded_group-saved_rows_example =
    loaded_group-saved_rows 1 markets (other_row ∷ []) "BTCUSD"
      (record { markets = (refl, (refl, tt)); currencys = (refl, (refl, tt)) })

abbrev pool : Pool
pool = record { entries = []; rows = [] }

abbrev calls : List PoolLaws.Call
calls =
    PoolLaws.Call.appends 1
    ∷ PoolLaws.Call.appends 1
    ∷ PoolLaws.Call.loads 1
    ∷ PoolLaws.Call.removes 1 true
    ∷ []
