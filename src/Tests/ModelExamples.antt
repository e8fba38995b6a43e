-- ===== src/Tests/ModelExamples.antt =====
-- The theorems on src/models and src/algo/spreder.cpp at concrete inputs.
use mathlib.Core.List.{Perm}
use crypto_shloma.Prelude.{ℕ, false, List, [], ◌∷◌, some, ◌≡◌, refl, All}
use crypto_shloma.Base.Balance as Balance
use crypto_shloma.Base.Balance.{Balance}
use crypto_shloma.Base.Order.{Order, OrderType}
use crypto_shloma.Storage.MarketOrders as Book
use crypto_shloma.Storage.MarketOrders.{MarketOrders}
use crypto_shloma.Api.Signals.{Signal}
use crypto_shloma.Api.Hub.{Hub, emit_all, return_to_loop}
use crypto_shloma.Models.Proxies.{shown_buy_orders, shown_sell_orders}
use crypto_shloma.Models.Proxies.Laws.{ProxyLaws, shown_book}
use crypto_shloma.Models.ExchangeEntry as Entry
use crypto_shloma.Models.ExchangeEntry.{Models, Event}
use crypto_shloma.Models.ExchangeEntry.Laws.{AllShow, run_models-AllShow}
use crypto_shloma.Models.ExchangeEntry.Stored.{stored, receive_all, models_and_storages}
use crypto_shloma.Algo.Spreder as Spreder
use crypto_shloma.Algo.Spreder.Submit.{start_submit_orders, drop_coin}
use crypto_shloma.Algo.Spreder.Laws as Spread
use crypto_shloma.Tests.Sort.{insertion_sort-perm}
use crypto_shloma.Tests.Platform.{platform}
use crypto_shloma.Tests.Laws.{sort_laws}
use crypto_shloma.Tests.Data.{
  market, market_entry, balance_entry, order, order_config, order_entry, markets, storages,
}

abbrev proxy_laws : ProxyLaws
proxy_laws = record { shows = λ A less xs. insertion_sort-perm less xs }

abbrev models : Models
models = record {
  markets = record { rows = markets.markets; currencys = markets.currencys };
  market_orders = record { rows = []; filters = [] };
  open_orders = [];
  balances = [];
  history = record { rows = []; filters = [] };
}

abbrev reports : List Signal
reports =
    Signal.receive_market_info (market_entry ∷ [])
    ∷ Signal.receive_balance (balance_entry ∷ [])
    ∷ Signal.receive_user_open_orders
        (order_entry 1 OrderType.buy 3 ∷ order_entry 2 OrderType.sell 3 ∷ [])
    ∷ Signal.receive_user_open_orders (order_entry 2 OrderType.sell 5 ∷ [])
    ∷ []

abbrev events : List Event
events =
    Event.appended_market "BTCUSD"
    ∷ Event.signal (Signal.receive_market_info (market_entry ∷ []))
    ∷ Event.signal (
        Signal.receive_user_open_orders
          (order_entry 1 OrderType.buy 3 ∷ order_entry 2 OrderType.sell 3 ∷ []))
    ∷ Event.signal (Signal.receive_canceled_orders (1 ∷ []))
    ∷ Event.refreshes
    ∷ []

run_models-AllShow_example : AllShow models (Entry.run events models)
run_models-AllShow_example = run_models-AllShow events models

abbrev hub : Hub
hub = record { storages = storages; queue = [] }

models_and_storages_example :
    (return_to_loop (emit_all reports hub)).storages ≡ stored (receive_all reports models)
models_and_storages_example =
    models_and_storages reports models hub (refl, (refl, (refl, (refl, tt)))) refl refl

abbrev book : MarketOrders
book = record {
  orders = order 1 OrderType.buy 3 ∷ order 2 OrderType.sell 4 ∷ order 3 OrderType.buy 5 ∷ [];
  filters = "BTCUSD" ∷ [];
}

shown_book_example :
    Perm (shown_buy_orders "BTCUSD" book.orders) (Book.filter_type "BTCUSD" OrderType.buy book)
    × Perm (shown_sell_orders "BTCUSD" book.orders) (Book.filter_type "BTCUSD" OrderType.sell book)
shown_book_example = shown_book proxy_laws sort_laws "BTCUSD" book refl

abbrev trades : List Order
trades =
    order 5 OrderType.buy 9
    ∷ order 4 OrderType.buy 8
    ∷ order 3 OrderType.sell 7
    ∷ order 2 OrderType.buy 6
    ∷ []

abbrev holding : ℕ → Balance
holding n = record {
  currency = some "BTC";
  config = record Balance.default_config { total = platform.literal n 0 };
}

abbrev view : Spreder.View
view = record {
  difference = platform.literal 1 8;
  trade_base_summ = platform.literal 1 0;
  market = market;
  buys = order 1 OrderType.buy 3 ∷ [];
  sells =
      record {
        config = record (order_config 2 OrderType.sell 3) { price = platform.literal 120 0 };
        market = some "BTCUSD";
      }
      ∷ [];
  open_buys = order 5 OrderType.buy 3 ∷ [];
  open_sells = [];
  history = trades;
  btc = some (holding 1000);
  coin = some (holding 3);
}

start_submit_orders-IsVain_example :
    All (Spread.IsVain view) (start_submit_orders view false).0
    × All (Spread.IsDrop view) (drop_coin view).0
start_submit_orders-IsVain_example = Spread.start_submit_orders-IsVain view false
