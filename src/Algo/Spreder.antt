-- ===== src/Algo/Spreder.antt =====
-- src/algo/spreder.h and spreder.cpp. `start`, `restart`, `reconfigure` and the timer do nothing.
pub mod Submit
pub mod History
pub mod Laws
use crypto_shloma.Prelude.{
  ℕ, suc, ◌+◌, Bool, true, false, not, ◌&&◌, ◌||◌, List, [], ◌∷◌, ◌++◌, Option, none, some,
  is_empty, get_elem?, if◌then◌else◌,
}
use crypto_shloma.Qt.{Qt}
use crypto_shloma.Base.Order.{Order, OrderType, type_eq}
use crypto_shloma.Base.Balance.{Balance}
use crypto_shloma.Base.Market.Data.{Market}
use crypto_shloma.Algo.Average.{is_sell}

module _ ⦃q : Qt⦄ where
  open q use {
    Qreal, literal, add, sub, mul, div, lt, le, fuzzy_compare, fuzzy_is_null, number8,
    text_to_double,
  }

  -- `Spreder::Historydata`.
  pub record HistoryData : Type 0 where
    pub amount_btc : Qreal
    pub rate : Qreal
    pub fee : Qreal
    pub amount_currency : Qreal

  -- What a call reads: the settings TradeDifference and TradeBaseSumm, the market, the newest offers of
  -- both sides, the open orders and the trades of the market, and the two balances.
  pub record View : Type 0 where
    pub difference : Qreal
    pub trade_base_summ : Qreal
    pub market : Market
    pub buys : List Order
    pub sells : List Order
    pub open_buys : List Order
    pub open_sells : List Order
    pub history : List Order
    pub btc : Option Balance
    pub coin : Option Balance

  -- `cancelOrder(OrderId, …)` without a market, and `submitOrder` with the side, the price, the base
  -- volume and the volume.
  pub data Action : Type 0 where
    cancels : ℕ → Action
    submits : OrderType → Qreal → Qreal → Qreal → Action

  -- What was done, and whether the call came to its end. `false` is an access out of range or a null
  -- pointer that is followed: from there on its behaviour is undefined, and only what was done before is
  -- recorded.
  abbrev pub Outcome : Type 0
  Outcome = List Action × Bool

  abbrev pub done : List Action → Outcome
  done as' = (as', true)

  abbrev pub after : List Action → Outcome → Outcome
  after as' o = (as' ++ o.0, o.1)

  -- `first()` and `at(1)`, which are out of range in a list that is too short. The pointers of a
  -- container are never null.
  abbrev pub pointed : (Option Order → Outcome) → Option Order → Outcome
  pointed k none = ([], false)
  pointed k (some o) = k (some o)

  abbrev pub zero_real : Qreal
  zero_real = literal 0 0

  abbrev percent_part : Qreal → Qreal
  percent_part p = sub (literal 1 0) (div (sub (literal 100 0) p) (literal 100 0))

  -- `PRECISSION` stands for a profit of zero.
  abbrev some_profit : Qreal → Qreal
  some_profit profit = if fuzzy_is_null profit then literal 1 8 else profit

  -- `QString::number(x, 'f', 8).toDouble()`.
  abbrev eight_places : Qreal → Qreal
  eight_places x = text_to_double (number8 x)

  unfoldable pub calculate_profit : Qreal → Qreal → Qreal → Qreal → Qreal
  calculate_profit trade_base_summ bid ask fee =
      let trade_fee = sub (literal 1 0) fee in
      let start_buy = mul (div trade_base_summ bid) trade_fee in
      sub (mul (mul start_buy ask) trade_fee) trade_base_summ

  unfoldable pub calculate_stop_loss : Qreal → Qreal → Qreal → Qreal → Qreal → Qreal → Qreal
  calculate_stop_loss old_bid old_fee old_amount_btc fee old_amount_currency pair_profit =
      let profit = some_profit (mul old_bid (percent_part pair_profit)) in
      let new_fee = mul old_amount_btc fee in
      eight_places (add (div (add (add old_amount_btc new_fee) old_fee) old_amount_currency) profit)

  unfoldable pub calculate_buy_in : Qreal → Qreal → Qreal → Qreal → Qreal → Qreal → Qreal
  calculate_buy_in old_bid old_fee fee old_amount_currency pair_profit step =
      let falling = sub (literal 1 0) (div step (literal 100 0)) in
      let new_rate = mul old_bid falling in
      let profit = some_profit (mul new_rate (percent_part pair_profit)) in
      let amount_btc = div new_rate old_amount_currency in
      let new_fee = mul amount_btc fee in
      eight_places (add (div (add (add amount_btc new_fee) old_fee) old_amount_currency) profit)

  abbrev pub is_buy : Order → Bool
  is_buy o = type_eq o.config.type OrderType.buy

  -- `rate` sums up the rates that the code first puts into a list, in the same order.
  abbrev pub add_order : HistoryData → Order → HistoryData
  add_order d o = record {
    amount_btc = add d.amount_btc o.config.base_volume;
    rate = add d.rate o.config.price;
    fee = add d.fee o.config.fee;
    amount_currency = add d.amount_currency o.config.currency_volume;
  }

  -- The loop of `findPreviousBuyOrders`, with the count of `ratesList`.
  unfoldable pub history_loop : HistoryData → ℕ → Bool → List Order → HistoryData × ℕ
  history_loop ret n found [] = (ret, n)
  history_loop ret n found (o ∷ os) =
      let ret' = if is_buy o then add_order ret o else ret in
      let n' = if is_buy o then n + 1 else n in
      let found' = is_buy o || found in
      let rest = history_loop ret' n' found' os in if is_sell o && found' then (ret', n') else rest

  abbrev pub no_data : HistoryData
  no_data = record {
    amount_btc = zero_real;
    rate = zero_real;
    fee = zero_real;
    amount_currency = zero_real;
  }

  abbrev pub mean_rate : HistoryData × ℕ → HistoryData
  mean_rate r = record (r.0) { rate = div r.0.rate (literal r.1 0) }

  unfoldable pub find_previous_buy_orders : List Order → HistoryData
  unfolding history_loop
  find_previous_buy_orders container = mean_rate (history_loop no_data 0 false container)

  -- The trend is not used.
  abbrev get_step_merchant : Qreal → Qreal × Qreal
  get_step_merchant trend = (zero_real, zero_real)

  unfoldable pub search_and_cancel_orders : List Order → List Action
  search_and_cancel_orders [] = []
  search_and_cancel_orders (o ∷ os) = cancels o.config.order_id ∷ search_and_cancel_orders os
