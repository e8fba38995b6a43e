-- ===== src/Models/ExchangeEntry.antt =====
-- src/models/exchange_pool.cpp, `ExchangeEntry`: the five models of an exchange, and what they do at the
-- signals that they are connected to. A signal of the API is a direct call; most of the emulator's are
-- queued, and are events of their own when they arrive.
pub mod Shows
pub mod Laws
pub mod Stored
use crypto_shloma.Prelude.{ℕ, String, Bool, List, [], ◌∷◌, ◌++◌, ◌+◌}
use crypto_shloma.Qt.{Qt}
use crypto_shloma.Base.Balance.{Balance}
use crypto_shloma.Base.Order.{Order}
use crypto_shloma.Base.Market.Data.{Market, UserConfig}
use crypto_shloma.Api.Signals.{Signal}
use crypto_shloma.Models.Rows.{Change, refresh}
use crypto_shloma.Models.MarketsModel as Markets
use crypto_shloma.Models.MarketsModel.{MarketsModel}
use crypto_shloma.Models.BalancesModel as Balances
use crypto_shloma.Models.OpenOrdersModel as Open
use crypto_shloma.Models.MarketOrdersModel as Book
use crypto_shloma.Models.MarketOrdersModel.{MarketOrdersModel}
use crypto_shloma.Models.TradeHistoryModel as History
use crypto_shloma.Models.TradeHistoryModel.{TradeHistoryModel}

module _ ⦃q : Qt⦄ where
  pub record Models : Type 0 where
    pub markets : MarketsModel
    pub market_orders : MarketOrdersModel
    pub open_orders : List Order
    pub balances : List Balance
    pub history : TradeHistoryModel

  -- What the views of each model are told.
  pub record Told : Type 0 where
    pub markets : List (Change Market)
    pub market_orders : List (Change Order)
    pub open_orders : List (Change Order)
    pub balances : List (Change Balance)
    pub history : List (Change Order)
    -- How often `mergeCompeleted` is emitted, which `ExchangePool::loadState` takes.
    pub completed_merges : ℕ

  abbrev pub nothing : Told
  nothing = record {
    markets = [];
    market_orders = [];
    open_orders = [];
    balances = [];
    history = [];
    completed_merges = 0;
  }

  abbrev pub both : Told → Told → Told
  both t u = record {
    markets = t.markets ++ u.markets;
    market_orders = t.market_orders ++ u.market_orders;
    open_orders = t.open_orders ++ u.open_orders;
    balances = t.balances ++ u.balances;
    history = t.history ++ u.history;
    completed_merges = t.completed_merges + u.completed_merges;
  }

  -- The slot of a signal of the API. The signals to the emulator have none here, and what
  -- `ExchangePool::loadState` does to the models at `mergeCompeleted` are events of their own below.
  unfoldable pub receive : Signal → Models → Models × Told
  unfolding Markets.merge_currencies Markets.merge_market_info Markets.merge_market_data Book.merge
      Open.merge Open.remove Balances.merge History.merge
  receive (Signal.receive_currencies l) m =
      (record m { markets = Markets.merge_currencies l m.markets }, nothing)
  receive (Signal.receive_market_info l) m =
      let r = Markets.merge_market_info l m.markets in
      (record m { markets = r.0 }, record nothing { markets = r.1 })
  receive (Signal.receive_market_data l) m =
      let r = Markets.merge_market_data l m.markets in
      (record m { markets = r.0 }, record nothing { markets = r.1; completed_merges = 1 })
  receive (Signal.receive_market_orders l) m =
      let r = Book.merge m.markets l m.market_orders in
      (record m { market_orders = r.0 }, record nothing { market_orders = r.1 })
  receive (Signal.receive_balance l) m =
      let r = Balances.merge m.markets l m.balances in
      (record m { balances = r.0 }, record nothing { balances = r.1 })
  receive (Signal.receive_user_open_orders l) m =
      let r = Open.merge m.markets l m.open_orders in
      (record m { open_orders = r.0 }, record nothing { open_orders = r.1 })
  receive (Signal.receive_user_trade_history l) m =
      let r = History.merge m.markets l m.history in
      (record m { history = r.0 }, record nothing { history = r.1 })
  receive (Signal.receive_canceled_orders l) m =
      let r = Open.remove l m.open_orders in
      (record m { open_orders = r.0 }, record nothing { open_orders = r.1 })
  receive _ m = (m, nothing)

  -- What reaches the models: a signal of the API, the controller's appended and removed markets, a new
  -- configuration of the controller or an algorithm, a write by a view, and `refresh`.
  pub data Event : Type 0 where
    signal : Signal → Event
    appended_market removed_market : String → Event
    update_market_config : String → UserConfig → Event
    set_data : ℕ → Markets.Role → Bool → Event
    refreshes : Event

  unfoldable pub step : Event → Models → Models × Told
  unfolding receive Book.insert History.insert Book.remove History.remove
      Markets.update_market_config Markets.set_data refresh
  step (signal s) m = receive s m
  step (appended_market id) m = (
    record m {
      market_orders = Book.insert id m.market_orders;
      history = History.insert id m.history;
    },
    nothing,
  )
  step (removed_market id) m =
      let b = Book.remove id m.market_orders in
      let h = History.remove id m.history in
      (
        record m { market_orders = b.0; history = h.0 },
        record nothing { market_orders = b.1; history = h.1 },
      )
  step (update_market_config id config) m =
      let r = Markets.update_market_config id config m.markets in
      (record m { markets = r.0 }, record nothing { markets = r.1 })
  step (set_data row role value) m =
      let r = Markets.set_data row role value m.markets in
      (record m { markets = r.1 }, record nothing { markets = r.2 })
  step refreshes m = (
    m,
    record {
      markets = (refresh m.markets.rows).1;
      market_orders = (refresh m.market_orders.rows).1;
      open_orders = (refresh m.open_orders).1;
      balances = (refresh m.balances).1;
      history = (refresh m.history.rows).1;
      completed_merges = 0;
    },
  )

  unfoldable pub run : List Event → Models → Models × Told
  unfolding step
  run [] m = (m, nothing)
  run (e ∷ es) m = let r = step e m in let s = run es r.0 in (s.0, both r.1 s.1)
