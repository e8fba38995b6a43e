-- ===== src/Tests/AlgoExamples.antt =====
-- The theorems on src/algo at concrete inputs.
use crypto_shloma.Prelude.{ℕ, pos, true, List, [], ◌∷◌, none, some, ◌≡◌}
use crypto_shloma.Base.Balance as Balance
use crypto_shloma.Base.Order.{Order, OrderType}
use crypto_shloma.Algo.Average.{calculate_average, no_data}
use crypto_shloma.Algo.Average.Cycle.{add_all, cycle_buys, rounded, calculate_average-cycle_buys}
use crypto_shloma.Algo.Chain as Chain
use crypto_shloma.Algo.Chain.{Step, StepClass}
use crypto_shloma.Algo.Action.{View}
use crypto_shloma.Algo.Step as Ordinary
use crypto_shloma.Algo.Step.Safety.{Acts, bought_again, execute_buy_logic-Justified}
use crypto_shloma.Algo.ZeroStep as Zero
use crypto_shloma.Algo.ZeroStep.Safety.{bought_first, zero_buy-Justified}
use crypto_shloma.Algo.Hanukkah.{Hanukkah, Session, choose, step_of}
use crypto_shloma.Algo.Step.Selling.{AllSell, execute_sell_logic-AllSell}
use crypto_shloma.Algo.Hanukkah.Schedule.{Chosen, choose-Chosen}
use crypto_shloma.Tests.Platform.{Json, Fields, Elements, platform}
use crypto_shloma.Tests.Data.{market, user_config, order, order_config}

abbrev entry : ℕ → Json
entry n = Json.object (
    Fields.field "step" (Json.real (platform.literal n 0))
      (Fields.field "growth" (Json.real (platform.literal 1 0)) Fields.end))

abbrev meta_config : Fields
meta_config = Fields.field "execSteps" (Json.int (pos 1)) (
    Fields.field "maxSteps" (Json.int (pos 3)) (
      Fields.field "hannukahTable"
        (Json.array (Elements.cons (entry 0) (Elements.cons (entry 2) Elements.nil))) Fields.end))

abbrev view : View
view = record {
  market = record market { user_config = record user_config { meta_config = meta_config } };
  balances = record {
    balances =
        record {
          currency = some "BTC";
          config = record Balance.default_config {
            total = platform.literal 1 0;
            available = platform.literal 1 0;
          };
        }
        ∷ record {
          currency = some "USD";
          config = record Balance.default_config { total = platform.literal 1000 0 };
        }
        ∷ [];
  };
  open_orders = record { orders = [] };
  market_orders = record {
    orders =
        record (order 1 OrderType.sell 5) {
          config = record (order_config 1 OrderType.sell 5) { price = platform.literal 101 0 };
        }
        ∷ order 3 OrderType.buy 5
        ∷ [];
    filters = [];
  };
  trade_history = record { orders = order 2 OrderType.buy 6 ∷ []; filters = [] };
  exchange = 0;
  cached = true;
}

abbrev first : Step
first = step_of StepClass.zero_step (entry 0)

abbrev second : Step
second = step_of StepClass.ordinary (entry 2)

-- There is nothing of the coin yet.
abbrev new_view : View
new_view = record view {
  balances = record {
    balances =
        record { currency = some "BTC"; config = Balance.default_config }
        ∷ record {
          currency = some "USD";
          config = record Balance.default_config { total = platform.literal 1000 0 };
        }
        ∷ [];
  };
}

execute_buy_logic-Justified_example :
    Acts bought_again view (Ordinary.execute_buy_logic (some view) second none)
execute_buy_logic-Justified_example = execute_buy_logic-Justified view second none

zero_buy-Justified_example :
    Acts bought_first new_view (Zero.execute_buy_logic (some new_view) first)
    × (new_view.market.user_config.pause_mode ≡ true
        → Zero.execute_buy_logic (some new_view) first ≡ (first, []))
zero_buy-Justified_example = zero_buy-Justified new_view first

execute_sell_logic-AllSell_example :
    AllSell view (Ordinary.execute_sell_logic (some view) second none).1
execute_sell_logic-AllSell_example = execute_sell_logic-AllSell view second none

-- Sessions without steps, of a traded market and of another one.
abbrev old_session : Session
old_session = record { meta_config = []; container = Chain.empty }

abbrev running : Hanukkah
running = record {
  sessions = ("BTCUSD", old_session) ∷ ("ETHUSD", old_session) ∷ [];
  heap = [];
  timer_id = 4;
}

choose-Chosen_example :
    Chosen view (first ∷ second ∷ []) (0 ∷ 1 ∷ []) (choose view (first ∷ second ∷ []) (0 ∷ 1 ∷ []))
choose-Chosen_example = choose-Chosen view (first ∷ second ∷ []) (0 ∷ 1 ∷ [])

abbrev past : List Order
past = order 9 OrderType.buy 9 ∷ order 8 OrderType.buy 8 ∷ order 7 OrderType.sell 7 ∷ []

calculate_average-cycle_buys_example :
    calculate_average past 3 ≡ rounded (add_all no_data (cycle_buys 3 past))
calculate_average-cycle_buys_example = calculate_average-cycle_buys 3 past

abbrev bought : Step
bought = record second { buy_blocked = true }
