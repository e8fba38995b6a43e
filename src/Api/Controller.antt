-- ===== src/Api/Controller.antt =====
-- src/api/binance_api_controller.cpp: what the interface asks of the API of the exchange.
pub mod Laws
use crypto_shloma.Prelude.{
  ℕ, ℤ, String, Bool, not, List, [], ◌∷◌, ◌++◌, Option, none, some, map, filter, ◌==◌,
  if◌then◌else◌,
}
use crypto_shloma.Qt.{Qt}
use crypto_shloma.Base.Order.{Order, OrderType, type_eq}
use crypto_shloma.Base.Market.Data.{Market, UserConfig}
use crypto_shloma.Api.Signals.{CancellationOrderType}
use crypto_shloma.Api.Hub.{Storages}
use crypto_shloma.Storage.Markets.{
  find_market_by_id, find_market_by_currency_id, filter_trading_pairs,
}
use crypto_shloma.Storage.OpenOrders.{orders_by_market_id}

module _ ⦃q : Qt⦄ where
  open q use {Qreal, QDateTime, literal, mul}

  -- What the controller does: it calls an operation of the API, which the constructors name, or emits
  -- one of its own signals.
  pub data Command : Type 0 where
    list_market_info list_market_data server_time user_auth user_balance start : Command
    user_trade_history user_open_orders : String → Command
    list_market_orders remove_list_market_orders : String → Command
    list_market_order_groups : List String → Command
    cancel_order : CancellationOrderType → ℕ → String → Command
    submit_order : String → OrderType → Qreal → Qreal → Qreal → Command
    remove_book : String → Command
    starts_timer : ℕ → Command
    appended_market removed_market : String → Command
    update_market_config : String → UserConfig → Command

  abbrev live : Bool → List Command → List Command
  live test_data cs = if test_data then [] else cs

  -- The reactions to the signals of lost connections.
  unfoldable pub disconnected_public_api : Bool → List Command
  disconnected_public_api test_data =
      live test_data (Command.list_market_info ∷ Command.list_market_data ∷ Command.start ∷ [])

  abbrev user_reports : String → List Command
  user_reports id = Command.user_trade_history id ∷ Command.user_open_orders id ∷ []

  abbrev reports_of : List Market → List Command
  reports_of [] = []
  reports_of (m ∷ ms) = user_reports m.config.id ++ reports_of ms

  unfoldable pub disconnected_private_api : Bool → Storages → List Command
  unfolding filter_trading_pairs
  disconnected_private_api test_data s = live test_data (
      Command.server_time ∷ Command.user_auth ∷ reports_of (filter_trading_pairs s.markets)
      ++ Command.user_balance ∷ [])

  -- `run`; `timer` is `m_marketInfoTimerId`.
  unfoldable pub run : Bool → ℕ → List Command
  run test_data timer =
      Command.list_market_info
        ∷ Command.list_market_data
        ∷ (if test_data
            then Command.user_balance ∷ Command.user_trade_history "" ∷ []
            else Command.server_time
              ∷ Command.user_auth
              ∷ Command.user_balance
              ∷ Command.start
              ∷ (if timer == 0 then Command.starts_timer 1800000 ∷ [] else []))
      ++ Command.user_open_orders "" ∷ []

  unfoldable pub append_market : Bool → String → UserConfig → List Command
  append_market test_data id config =
      Command.appended_market id
      ∷ Command.update_market_config id config
      ∷ live test_data (Command.list_market_orders id ∷ user_reports id)

  abbrev append_each : Bool → List (String × UserConfig) → List Command
  append_each test_data [] = []
  append_each test_data ((id, config) ∷ group) =
      Command.appended_market id
        ∷ Command.update_market_config id config
        ∷ live test_data (user_reports id)
      ++ append_each test_data group

  unfoldable pub append_markets_group : Bool → List (String × UserConfig) → List Command
  append_markets_group test_data group =
      append_each test_data group
      ++ live test_data (Command.list_market_order_groups (map (λ p. p.0) group) ∷ [])

  -- The user configuration of a market that is no longer traded.
  abbrev retired : QDateTime → UserConfig → UserConfig
  retired now config = record config {
    last_rate_update_time = now;
    is_tradable = Bool.false;
    is_volume_trading = Bool.false;
    current_trend_rate = literal 0 0;
    min_trend = literal 0 0;
  }

  -- The call of `cancelOrder` leaves out the market, whose default is the empty text.
  abbrev pub cancel_purchases : List Order → List Command
  cancel_purchases [] = []
  cancel_purchases (o ∷ os) =
      let rest = cancel_purchases os in
      if type_eq o.config.type OrderType.buy
      then Command.cancel_order CancellationOrderType.order_id o.config.order_id "" ∷ rest
      else rest

  abbrev pub retire : Bool → QDateTime → Storages → String → Option Market → List Command
  retire test_data now s id none = []
  retire test_data now s id (some m) =
      Command.update_market_config id (retired now m.user_config)
      ∷ live test_data (cancel_purchases (orders_by_market_id id s.open_orders))

  unfoldable pub remove_market : Bool → QDateTime → Storages → String → List Command
  unfolding find_market_by_id orders_by_market_id
  remove_market test_data now s id =
      Command.remove_list_market_orders id
      ∷ Command.removed_market id
      ∷ retire test_data now s id (find_market_by_id s.markets id)

  unfoldable pub cancel_all_orders : List Command
  cancel_all_orders = Command.cancel_order CancellationOrderType.all 0 "" ∷ []

  unfoldable pub cancel_market_order : String → ℕ → List Command
  cancel_market_order id order_id =
      Command.cancel_order CancellationOrderType.order_id order_id id ∷ []

  unfoldable pub submit_market_order : String → Qreal → Qreal → List Command
  submit_market_order id price volume =
      Command.submit_order id OrderType.sell price (mul price volume) volume ∷ []

  -- `none` stands for the read through the null pointer where no market has the currency.
  unfoldable pub drop_coin : Bool → QDateTime → Storages → String → Option (List Command)
  unfolding find_market_by_currency_id remove_market
  drop_coin test_data now s currency_id = elim (find_market_by_currency_id s.markets currency_id) [
    | none ↦ none
    | some m ↦
        some (remove_market test_data now s m.config.id ++ Command.remove_book m.config.id ∷ [])
  ]

  unfoldable pub timer_event : ℕ → ℕ → List Command
  timer_event timer id = if id == timer then Command.list_market_info ∷ [] else []
