-- ===== src/Emulator.antt =====
-- src/emulator.h and emulator.cpp: the answers to orders in test mode. The signals of the emulator are
-- connected to the storages as the signals of the API of the same kind are (src/api/i_exchange_api.cpp),
-- and are named after them.
pub mod Laws
use crypto_shloma.Prelude.{
  ℕ, String, Bool, true, false, ◌||◌, List, [], ◌∷◌, ◌++◌, Option, none, some, length, is_empty,
  leb, ltb, if◌then◌else◌,
}
use crypto_shloma.Qt.{Qt}
use crypto_shloma.Base.Order as Order
use crypto_shloma.Base.Order.{OrderType, type_eq}
use crypto_shloma.Base.Balance as Balance
use crypto_shloma.Base.Balance.{Balance}
use crypto_shloma.Api.Entry.{OrderEntry, BalanceEntry}
use crypto_shloma.Api.Signals.{Signal}
use crypto_shloma.Storage.Balances.{BalancesStorage, find}
use crypto_shloma.Api.Binance.Read.{binance_fee}

module _ ⦃q : Qt⦄ where
  open q use {Qreal, QDateTime, literal, add, sub, mul, mid, split, text_to_double}

  -- A file of test data that could be opened: its base name and its lines.
  pub record TestFile : Type 0 where
    pub base_name : String
    pub lines : List String

  abbrev book_order : String → OrderType → String → String → OrderEntry
  book_order id side price volume = record {
    market_id = id;
    params = record Order.default_config {
      price = text_to_double price;
      currency_volume = text_to_double volume;
      base_volume = mul (text_to_double volume) (text_to_double price);
      type = side;
    };
  }

  -- The two orders of a line; `none` is an access out of range.
  unfoldable pub line_orders : String → List String → Option (List OrderEntry)
  line_orders id (p ∷ v ∷ p' ∷ v' ∷ _) =
      some (book_order id OrderType.sell p v ∷ book_order id OrderType.buy p' v' ∷ [])
  line_orders id _ = none

  abbrev pub is_invalid_line : List String → Bool
  is_invalid_line data' = leb (length data') 1 || ltb 4 (length data')

  abbrev pub append_lines :
      Option (List OrderEntry) → Option (List OrderEntry) → Option (List OrderEntry)
  append_lines (some os) (some rest) = some (os ++ rest)
  append_lines _ _ = none

  -- The loop over the lines.
  unfoldable pub read_lines : String → List String → Option (List OrderEntry)
  unfolding line_orders
  read_lines id [] = some []
  read_lines id (line ∷ lines) =
      let rest = read_lines id lines in
      let data' = split line "," in
      if is_invalid_line data' then some [] else append_lines (line_orders id data') rest

  abbrev emit_orders : Option (List OrderEntry) → Option (List Signal)
  emit_orders none = none
  emit_orders (some os) = some (if is_empty os then [] else Signal.receive_market_orders os ∷ [])

  abbrev load_named : List String → List String → Option (List Signal)
  load_named [] lines = none
  load_named (id ∷ _ ∷ []) lines = emit_orders (read_lines id lines)
  load_named _ lines = some []

  -- `none` is an access out of range. A file that cannot be opened is `none` among the arguments.
  unfoldable pub load_market_orders : Option TestFile → Option (List Signal)
  unfolding read_lines
  load_market_orders none = some []
  load_market_orders (some file) = load_named (split file.base_name "_") file.lines

  abbrev zero_real : Qreal
  zero_real = literal 0 0

  -- The texts for a coin and for its base coin in the id of a market.
  abbrev pub coin_of : String → String
  coin_of id = mid id 0 3

  abbrev pub base_coin_of : String → String
  base_coin_of id = mid id 3 3

  abbrev emulated_order : QDateTime → ℕ → OrderType → Qreal → Qreal → Qreal → Order.Config
  emulated_order now order_id side price base_volume volume = record Order.default_config {
    order_id = order_id;
    price = price;
    currency_volume = volume;
    base_volume = base_volume;
    time_stamp = now;
    updated_time_stamp = now;
    type = side;
  }

  abbrev balance_report : QDateTime → String → Qreal → Qreal → Qreal → BalanceEntry
  balance_report now currency held available total = record {
    currency_id = currency;
    params = record Balance.default_config {
      held_for_trades = held;
      available = available;
      total = total;
      timestamp = now;
    };
  }

  -- A balance with its total added up.
  abbrev pub summed : QDateTime → String → Qreal → Qreal → BalanceEntry
  summed now currency held available =
      balance_report now currency held available (add held available)

  abbrev pub held_of : Option Balance → Qreal
  held_of none = zero_real
  held_of (some b) = b.config.held_for_trades

  abbrev pub available_or : (Qreal → Qreal) → Qreal → Option Balance → Qreal
  available_or f x none = x
  available_or f x (some b) = f b.config.available

  abbrev sale_balance : QDateTime → String → Qreal → Option Balance → BalanceEntry
  sale_balance now coin volume none = summed now coin zero_real volume
  sale_balance now coin volume (some b) = summed now coin volume zero_real

  -- What `submitOrder` says of the balances.
  unfoldable pub submitted_balances :
      QDateTime → String → OrderType → Qreal → Qreal → BalancesStorage → List BalanceEntry
  unfolding find
  submitted_balances now id OrderType.buy base_volume volume s =
      let coin = find s (coin_of id) in
      let base = find s (base_coin_of id) in
      summed now (coin_of id) (held_of coin) (available_or (λ x. add x volume) volume coin)
      ∷ summed now (base_coin_of id) (held_of base)
          (available_or (λ x. sub x base_volume) base_volume base)
      ∷ []
  submitted_balances now id _ base_volume volume s =
      sale_balance now (coin_of id) volume (find s (coin_of id)) ∷ []

  -- The order that `submitOrder` reports: bought at once, or open.
  unfoldable pub submitted_order : String → Order.Config → Signal
  submitted_order id c =
      if type_eq c.type OrderType.buy
      then Signal.receive_user_trade_history (
          record { market_id = id; params = record c { fee = mul c.base_volume binance_fee } } ∷ [])
      else Signal.receive_user_open_orders
          (record { market_id = id; params = record c { remaining = c.currency_volume } } ∷ [])

  -- One time stands for all the times that a call takes.
  unfoldable pub submit_order :
      QDateTime → String → ℕ → OrderType → Qreal → Qreal → Qreal → BalancesStorage → List Signal
  unfolding submitted_balances submitted_order
  submit_order now id order_id side price base_volume volume s =
      submitted_order id (emulated_order now order_id side price base_volume volume)
      ∷ Signal.receive_balance (submitted_balances now id side base_volume volume s)
      ∷ []

  abbrev canceled_balance : QDateTime → String → Option Balance → Option (List BalanceEntry)
  canceled_balance now coin none = none
  canceled_balance now coin (some b) =
      some (balance_report now coin zero_real b.config.held_for_trades b.config.total ∷ [])

  -- The order is canceled before the balance is looked up; the second part is `none` where the code
  -- follows the null pointer.
  unfoldable pub cancel_order :
      QDateTime → ℕ → String → BalancesStorage → List Signal × Option (List BalanceEntry)
  unfolding find
  cancel_order now order_id id s = (
    Signal.receive_canceled_orders (order_id ∷ []) ∷ [],
    canceled_balance now (coin_of id) (find s (coin_of id)),
  )

  unfoldable pub sell_order :
      QDateTime → String → ℕ → Qreal → Qreal → Qreal → BalancesStorage → List Signal
  unfolding find
  sell_order now id order_id price base_volume volume s =
      let order = emulated_order now order_id OrderType.sell price base_volume volume in
      let base = find s (base_coin_of id) in
      Signal.receive_canceled_orders (order_id ∷ [])
      ∷ Signal.receive_user_trade_history (
          record { market_id = id; params = record order { fee = mul base_volume binance_fee } }
          ∷ [])
      ∷ Signal.receive_balance (
          balance_report now (coin_of id) zero_real zero_real zero_real
          ∷ summed now (base_coin_of id) (held_of base)
              (available_or (λ x. add x base_volume) base_volume base)
          ∷ [])
      ∷ []
