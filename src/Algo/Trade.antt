-- ===== src/Algo/Trade.antt =====
-- What `Step` and `ZeroStep` (src/algo/hanukkah/step.cpp and zero_step.cpp) do alike: the guards of
-- a purchase, and the placing of a sell order.
use crypto_shloma.Prelude.{
  String, Bool, not, ◌&&◌, ◌||◌, List, [], ◌∷◌, Option, none, some, if◌then◌else◌,
}
use crypto_shloma.Qt.{Qt}
use crypto_shloma.Base.Balance.{Balance}
use crypto_shloma.Base.Order.{Order, OrderType}
use crypto_shloma.Base.Market.UserConfig.{get_percentage_profit_100th}
use crypto_shloma.Storage.Balances as Balances
use crypto_shloma.Storage.OpenOrders as OpenOrders
use crypto_shloma.Storage.MarketOrders as MarketOrders
use crypto_shloma.Storage.TradeHistory as TradeHistory
use crypto_shloma.Algo.Average.{calculate_average, calculate_stop_loss, rounding}
use crypto_shloma.Algo.Action.{
  Action, submit_order, cancel_order, unlock_all_steps, View, meta_of, cycle_start,
}

module _ ⦃q : Qt⦄ where
  open q use {Qreal, lt, le, mul, fuzzy_compare, fuzzy_is_null}

  -- The balance of one of the market's currencies; both are set in a stored market.
  abbrev pub balance_in : View → Option String → Option Balance
  balance_in v none = none
  balance_in v (some id) = Balances.find v.balances id

  abbrev pub own_id : View → String
  own_id v = v.market.config.id

  -- The orders of the market's book, of the user, and of the user's past.
  abbrev pub book_of : View → OrderType → List Order
  book_of v type = MarketOrders.filter_type (own_id v) type v.market_orders

  abbrev pub open_of : View → OrderType → List Order
  open_of v type = OpenOrders.filter_type (own_id v) type v.open_orders

  abbrev pub history_of : View → List Order
  history_of v = TradeHistory.filter_market (own_id v) v.trade_history

  -- What a purchase works with once its guards are passed.
  pub record Quote : Type 0 where
    pub base : Balance
    pub currency : Balance
    pub top_sell : Order

  abbrev pub uncrossed : Balance → Balance → List Order → List Order → Option Quote
  uncrossed base currency (s ∷ _) (b ∷ _) =
      if le s.config.price b.config.price
      then none
      else some (record { base = base; currency = currency; top_sell = s })
  uncrossed base currency _ _ = none

  abbrev pub with_balances : View → Option Balance → Option Balance → Option Quote
  with_balances v (some base) (some currency) =
      uncrossed base currency (book_of v OrderType.sell) (book_of v OrderType.buy)
  with_balances v _ _ = none

  -- The guards of `executeBuyLogic`: both balances, both sides of the book, and a first sale above the
  -- first purchase. The storage sorts by time, so the first order of a side is the newest one.
  unfoldable pub quote : View → Option Quote
  quote v =
      with_balances v (balance_in v v.market.base_currency) (balance_in v v.market.trade_currency)

  -- The branch of `executeSellLogic` without an open sell order.
  unfoldable pub place_sell : View → Balance → List Action
  place_sell v balance = elim (history_of v) [
    | [] ↦ []
    | o ∷ os ↦
        let average = calculate_average (o ∷ os) (cycle_start (meta_of v)) in
        let total = balance.config.total in
        let available = balance.config.available in
        let stop_loss =
          calculate_stop_loss average.price average.fee average.base_volume
            v.market.config.trade_fee average.volume (get_percentage_profit_100th v.market) in
        let full = mul available stop_loss in
        if (fuzzy_is_null total && fuzzy_is_null available)
          || (lt total v.market.config.volume_step_size || lt full v.market.config.min_notional)
        then unlock_all_steps (own_id v) ∷ []
        else if lt available total && not (fuzzy_compare total available)
        then []
        else submit_order (own_id v) OrderType.sell stop_loss full available ∷ []
  ]

  -- Whether the balance has outgrown the open sell order.
  abbrev pub outgrown : View → Balance → Order → Bool
  outgrown v balance o =
      let whole = rounding v.market.config.volume_step_size balance.config.total in
      lt o.config.currency_volume whole && not (fuzzy_compare o.config.currency_volume whole)

  abbrev pub cancel : View → Order → Action
  cancel v o = cancel_order o.config.order_id (own_id v)
