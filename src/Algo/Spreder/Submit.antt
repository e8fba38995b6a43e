-- ===== src/Algo/Spreder/Submit.antt =====
-- src/algo/spreder.cpp: startSubmitOrders and dropCoin.
use crypto_shloma.Prelude.{
  Bool, true, false, not, ◌&&◌, ◌||◌, List, [], ◌∷◌, ◌++◌, Option, none, some, get_elem?,
  if◌then◌else◌,
}
use crypto_shloma.Qt.{Qt}
use crypto_shloma.Base.Order.{Order, OrderType}
use crypto_shloma.Base.Balance.{Balance}
use crypto_shloma.Algo.Spreder.{
  View, Action, cancels, submits, Outcome, HistoryData, done, after, pointed, zero_real,
  calculate_profit, calculate_stop_loss, calculate_buy_in, find_previous_buy_orders,
  get_step_merchant, search_and_cancel_orders,
}

module _ ⦃q : Qt⦄ where
  open q use {Qreal, literal, add, sub, mul, div, lt, le, fuzzy_compare}

  -- What the branches share: the prices of the newest offers, the fee as a part, the profit and the balances.
  pub record Quote : Type 0 where
    pub top_buy : Qreal
    pub top_sell : Qreal
    pub trade_fee : Qreal
    pub profit : Qreal
    pub btc : Balance
    pub coin : Balance

  -- A second order of a book that is worse than the own order by more than 0.0000001; it is the order
  -- of the book that is canceled.
  abbrev pub cancel_second : (Qreal → Qreal) → Option Order → Outcome
  cancel_second distance none = done []
  cancel_second distance (some second) =
      if lt (literal 1 7) (distance second.config.price)
      then done (cancels second.config.order_id ∷ [])
      else done []

  abbrev pub is_overbid : View → Quote → Bool → Qreal → Order → Bool
  is_overbid v r sell_mode stop_loss o =
      let price = o.config.price in
      let part = lt o.config.currency_volume r.coin.config.total in
      (sell_mode && ((lt r.top_sell price) || part))
      || ((lt r.top_sell price && lt stop_loss r.top_sell) || part)

  -- The part on the first open sale.
  abbrev pub review_sale : View → Quote → Bool → Qreal → Option Order → Outcome
  review_sale v r sell_mode stop_loss (some o) =
      if is_overbid v r sell_mode stop_loss o
      then done (cancels o.config.order_id ∷ [])
      else pointed (cancel_second (λ value. sub value o.config.price)) (get_elem? v.sells 1)
  review_sale v r sell_mode stop_loss none =
      let rate = sub r.top_sell v.difference in
      let rate' = if lt rate stop_loss && not sell_mode then stop_loss else rate in
      done (submits OrderType.sell rate' r.coin.config.total zero_real ∷ [])

  abbrev pub is_replaced : HistoryData → Qreal → Order → Bool
  is_replaced h buy_in o =
      not (fuzzy_compare h.amount_currency o.config.currency_volume)
      && not (fuzzy_compare buy_in o.config.price)

  -- Whether the first open purchase gives way to a new one, and what is canceled.
  abbrev pub replace_purchase : HistoryData → Qreal → Option Order → Bool × List Action
  replace_purchase h buy_in none = (true, [])
  replace_purchase h buy_in (some o) =
      if is_replaced h buy_in o then (true, cancels o.config.order_id ∷ []) else (false, [])

  abbrev pub buy_in_again : Quote → HistoryData → Qreal → Bool × List Action → List Action
  buy_in_again r h buy_in (needed, as') =
      let full = mul (mul h.amount_currency buy_in) (add (literal 1 0) r.trade_fee) in
      as'
      ++ (if le full r.btc.config.total && needed
          then submits OrderType.buy buy_in h.amount_currency zero_real ∷ []
          else [])

  -- What was bought last, the price to buy it again and the price that stops the loss.
  unfoldable pub bought : View → Quote → HistoryData × (Qreal × Qreal)
  unfolding find_previous_buy_orders calculate_buy_in calculate_stop_loss
  bought v r =
      let h = find_previous_buy_orders v.history in
      let step = get_step_merchant v.market.user_config.current_trend_rate in
      let buy_in = calculate_buy_in h.rate h.fee r.trade_fee h.amount_currency step.1 step.0 in
      let stop_loss =
        calculate_stop_loss h.rate h.fee h.amount_btc r.trade_fee h.amount_currency
          v.market.user_config.percentage_profit in
      (h, (buy_in, stop_loss))

  abbrev pub sell_with :
      View → Quote → Bool → HistoryData × (Qreal × Qreal) → Option Order → Outcome
  sell_with v r sell_mode (h, (buy_in, stop_loss)) o =
      after (buy_in_again r h buy_in (replace_purchase h buy_in o))
        (pointed (review_sale v r sell_mode stop_loss) (get_elem? v.open_sells 0))

  -- There is enough of the coin to sell it.
  unfoldable pub start_selling : View → Quote → Bool → Outcome
  unfolding bought
  start_selling v r sell_mode =
      pointed (sell_with v r sell_mode (bought v r)) (get_elem? v.open_buys 0)

  -- The part on the first open purchase.
  abbrev pub review_purchase : View → Quote → Option Order → Outcome
  review_purchase v r (some o) =
      if lt o.config.price r.top_buy
      then done (cancels o.config.order_id ∷ [])
      else after
          (if le r.profit zero_real && not v.market.user_config.is_volume_trading
            then cancels o.config.order_id ∷ []
            else [])
          (pointed (cancel_second (λ value. sub o.config.price value)) (get_elem? v.buys 1))
  review_purchase v r none =
      let summ = v.market.user_config.trade_summ in
      let rate = add r.top_buy v.difference in
      if (lt zero_real r.profit || v.market.user_config.is_volume_trading)
        && le (mul summ (add (literal 1 0) r.trade_fee)) r.btc.config.total
      then done (submits OrderType.buy rate (div summ rate) zero_real ∷ [])
      else done []

  -- There is too little of the coin.
  unfoldable pub start_buying : View → Quote → Bool → Outcome
  unfolding search_and_cancel_orders
  start_buying v r sell_mode =
      if sell_mode
      then done (search_and_cancel_orders v.open_buys)
      else after (search_and_cancel_orders v.open_sells)
          (pointed (review_purchase v r) (get_elem? v.open_buys 0))

  abbrev pub quoted : View → Order → Order → Balance → Balance → Quote
  quoted v buy sell btc coin =
      let fee = div v.market.config.trade_fee (literal 100 0) in
      record {
        top_buy = buy.config.price;
        top_sell = sell.config.price;
        trade_fee = fee;
        profit =
            calculate_profit v.trade_base_summ (add buy.config.price v.difference)
              (sub sell.config.price v.difference) fee;
        btc = btc;
        coin = coin;
      }

  abbrev pub trade : View → Bool → Quote → Outcome
  trade v sell_mode r =
      if le r.top_sell r.top_buy
      then done []
      else if le v.market.config.min_base_trade_price (mul r.coin.config.total r.top_sell)
      then start_selling v r sell_mode
      else start_buying v r sell_mode

  abbrev pub with_balances : View → Bool → Order → Order → Option Balance → Option Balance → Outcome
  with_balances v sell_mode buy sell (some btc) (some coin) =
      trade v sell_mode (quoted v buy sell btc coin)
  with_balances v sell_mode buy sell _ _ = done []

  abbrev pub with_book : View → Bool → List Order → List Order → Outcome
  with_book v sell_mode (buy ∷ _) (sell ∷ _) = with_balances v sell_mode buy sell v.btc v.coin
  with_book v sell_mode _ _ = done []

  -- `startSubmitOrders`. The assertion of debug builds, which asks for a null market, is left out.
  unfoldable pub start_submit_orders : View → Bool → Outcome
  unfolding calculate_profit start_selling start_buying
  start_submit_orders v sell_mode = with_book v sell_mode v.buys v.sells

  abbrev pub drop_at : Qreal → Option Balance → Outcome
  drop_at stop_loss none = ([], false)
  drop_at stop_loss (some b) = done (submits OrderType.sell stop_loss b.config.total zero_real ∷ [])

  unfoldable pub drop_coin : View → Outcome
  unfolding find_previous_buy_orders calculate_stop_loss
  drop_coin v =
      let h = find_previous_buy_orders v.history in
      let fee = div v.market.config.trade_fee (literal 100 0) in
      drop_at
        (calculate_stop_loss h.rate h.fee h.amount_btc fee h.amount_currency
          v.market.user_config.percentage_profit)
        v.coin
