-- ===== src/Models/ExchangeEntry/Laws.antt =====
-- src/models/exchange_pool.cpp, `ExchangeEntry`: the models and their views.
use crypto_shloma.Prelude.{ℕ, String, false, List, [], ◌∷◌, ◌≡◌, arith, any, option_eq, ◌==◌}
use crypto_shloma.Qt.{Qt}
use crypto_shloma.Base.Market.Data.{Market}
use crypto_shloma.Base.Balance.{Balance}
use crypto_shloma.Base.Order.{Order}
use crypto_shloma.Api.Signals.{Signal}
use crypto_shloma.Storage.Balances.{balance_key, entry_key}
use crypto_shloma.Storage.Orders.{order_id, entry_order_id, is_of}
use crypto_shloma.Models.Rows.{Change, Rows}
use crypto_shloma.Models.Rows.Laws.{
  Shows, Shows-same, Shows-compose, Shows-refresh, Shows-erase, Shows-upsert,
}
use crypto_shloma.Models.MarketsModel as Markets
use crypto_shloma.Models.MarketsModel.{MarketsModel}
use crypto_shloma.Models.BalancesModel as Balances
use crypto_shloma.Models.OpenOrdersModel as Open
use crypto_shloma.Models.MarketOrdersModel as Book
use crypto_shloma.Models.MarketOrdersModel.{MarketOrdersModel}
use crypto_shloma.Models.TradeHistoryModel as History
use crypto_shloma.Models.TradeHistoryModel.{TradeHistoryModel}
use crypto_shloma.Models.ExchangeEntry.{
  Models, Told, nothing, both, receive, Event, step, run, signal, appended_market, removed_market,
  update_market_config, set_data, refreshes,
}
use crypto_shloma.Models.ExchangeEntry.Shows.{
  merge_market_info-Shows, merge_market_data-Shows, update_market_config-Shows, set_data-Shows,
  open_merge-Shows, book_merge-Shows,
}

module _ ⦃q : Qt⦄ where
  -- Views that had the rows of the models before have those after, and are told only of rows that
  -- there are.
  pub record AllShow (m : Models) (r : Models × Told) : Type 0 where
    pub markets : Shows m.markets.rows (r.0.markets.rows, r.1.markets)
    pub market_orders : Shows m.market_orders.rows (r.0.market_orders.rows, r.1.market_orders)
    pub open_orders : Shows m.open_orders (r.0.open_orders, r.1.open_orders)
    pub balances : Shows m.balances (r.0.balances, r.1.balances)
    pub history : Shows m.history.rows (r.0.history.rows, r.1.history)

  same-AllShow : (m : Models) → AllShow m (m, nothing)
  same-AllShow m = record {
    markets = Shows-same _;
    market_orders = Shows-same _;
    open_orders = Shows-same _;
    balances = Shows-same _;
    history = Shows-same _;
  }

  markets-AllShow :
      (m : Models) (r : MarketsModel × List (Change Market)) (n : ℕ)
      → Shows m.markets.rows (r.0.rows, r.1)
      → AllShow m
          (record m { markets = r.0 }, record nothing { markets = r.1; completed_merges = n })
  markets-AllShow m r n h = record {
    markets = h;
    market_orders = Shows-same _;
    open_orders = Shows-same _;
    balances = Shows-same _;
    history = Shows-same _;
  }

  market_orders-AllShow :
      (m : Models) (r : MarketOrdersModel × List (Change Order))
      → Shows m.market_orders.rows (r.0.rows, r.1)
      → AllShow m (record m { market_orders = r.0 }, record nothing { market_orders = r.1 })
  market_orders-AllShow m r h = record {
    markets = Shows-same _;
    market_orders = h;
    open_orders = Shows-same _;
    balances = Shows-same _;
    history = Shows-same _;
  }

  open_orders-AllShow :
      (m : Models) (r : Rows Order)
      → Shows m.open_orders r
      → AllShow m (record m { open_orders = r.0 }, record nothing { open_orders = r.1 })
  open_orders-AllShow m r h = record {
    markets = Shows-same _;
    market_orders = Shows-same _;
    open_orders = h;
    balances = Shows-same _;
    history = Shows-same _;
  }

  balances-AllShow :
      (m : Models) (r : Rows Balance)
      → Shows m.balances r
      → AllShow m (record m { balances = r.0 }, record nothing { balances = r.1 })
  balances-AllShow m r h = record {
    markets = Shows-same _;
    market_orders = Shows-same _;
    open_orders = Shows-same _;
    balances = h;
    history = Shows-same _;
  }

  history-AllShow :
      (m : Models) (r : TradeHistoryModel × List (Change Order))
      → Shows m.history.rows (r.0.rows, r.1)
      → AllShow m (record m { history = r.0 }, record nothing { history = r.1 })
  history-AllShow m r h = record {
    markets = Shows-same _;
    market_orders = Shows-same _;
    open_orders = Shows-same _;
    balances = Shows-same _;
    history = h;
  }

  receive-AllShow : (s : Signal) (m : Models) → AllShow m (receive s m)
  unfolding receive Balances.merge History.merge Open.remove Markets.merge_currencies
  receive-AllShow (Signal.receive_currencies l) m = record {
    markets = Shows-same _;
    market_orders = Shows-same _;
    open_orders = Shows-same _;
    balances = Shows-same _;
    history = Shows-same _;
  }
  receive-AllShow (Signal.receive_market_info l) m =
      markets-AllShow m _ 0 (merge_market_info-Shows l m.markets)
  receive-AllShow (Signal.receive_market_data l) m =
      markets-AllShow m _ 1 (merge_market_data-Shows l m.markets)
  receive-AllShow (Signal.receive_market_orders l) m =
      market_orders-AllShow m _ (book_merge-Shows m.markets l m.market_orders)
  receive-AllShow (Signal.receive_balance l) m = balances-AllShow m _ (
      Shows-upsert balance_key entry_key option_eq Balances.is_newer Balances.update_balance
        (Balances.make_balance m.markets) l m.balances)
  receive-AllShow (Signal.receive_user_open_orders l) m =
      open_orders-AllShow m _ (open_merge-Shows m.markets l m.open_orders)
  receive-AllShow (Signal.receive_user_trade_history l) m = history-AllShow m _ (
      Shows-upsert order_id entry_order_id ◌==◌ (λ _ _. false) (λ e o. o)
        (History.make_followed m.markets m.history.filters) l m.history.rows)
  receive-AllShow (Signal.receive_canceled_orders l) m =
      open_orders-AllShow m _ (Shows-erase (λ o. any (λ id. order_id o == id) l) m.open_orders)
  receive-AllShow Signal.is_online_changed m = same-AllShow m
  receive-AllShow Signal.disconnected_public_api m = same-AllShow m
  receive-AllShow Signal.disconnected_private_api m = same-AllShow m
  receive-AllShow (Signal.emul_submit_order a b c d e f) m = same-AllShow m
  receive-AllShow (Signal.emul_cancel_order a b) m = same-AllShow m

  book_insert-rows : (id : String) (m : MarketOrdersModel) → (Book.insert id m).rows ≡ m.rows
  unfolding Book.insert
  book_insert-rows id m = ground arith

  history_insert-rows : (id : String) (m : TradeHistoryModel) → (History.insert id m).rows ≡ m.rows
  unfolding History.insert
  history_insert-rows id m = ground arith

  step-AllShow : (e : Event) (m : Models) → AllShow m (step e m)
  unfolding step Book.remove History.remove
  step-AllShow (signal s) m = receive-AllShow s m
  step-AllShow (appended_market id) m = record {
    markets = Shows-same _;
    market_orders = rw (book_insert-rows id m.market_orders) (Shows-same _);
    open_orders = Shows-same _;
    balances = Shows-same _;
    history = rw (history_insert-rows id m.history) (Shows-same _);
  }
  step-AllShow (removed_market id) m = record {
    markets = Shows-same _;
    market_orders = Shows-erase (is_of id) m.market_orders.rows;
    open_orders = Shows-same _;
    balances = Shows-same _;
    history = Shows-erase (is_of id) m.history.rows;
  }
  step-AllShow (update_market_config id c) m =
      markets-AllShow m _ 0 (update_market_config-Shows id c m.markets)
  step-AllShow (set_data row role value) m =
      markets-AllShow m _ 0 (set_data-Shows row role value m.markets)
  step-AllShow refreshes m = record {
    markets = Shows-refresh m.markets.rows;
    market_orders = Shows-refresh m.market_orders.rows;
    open_orders = Shows-refresh m.open_orders;
    balances = Shows-refresh m.balances;
    history = Shows-refresh m.history.rows;
  }

  both-AllShow :
      (m n o : Models) (t u : Told) → AllShow m (n, t) → AllShow n (o, u) → AllShow m (o, both t u)
  both-AllShow m n o t u h k = record {
    markets = Shows-compose _ _ _ _ _ h.markets k.markets;
    market_orders = Shows-compose _ _ _ _ _ h.market_orders k.market_orders;
    open_orders = Shows-compose _ _ _ _ _ h.open_orders k.open_orders;
    balances = Shows-compose _ _ _ _ _ h.balances k.balances;
    history = Shows-compose _ _ _ _ _ h.history k.history;
  }

  -- Whatever signals, markets, configurations, writes and refreshes reach the five models of an
  -- exchange: a view that had the rows of a model and follows the changes it is told has its rows
  -- afterwards, and each change speaks of a row that the view has then, or, for a new one, of the
  -- row behind its last at most.
  pub run_models-AllShow : (es : List Event) (m : Models) → AllShow m (run es m)
  unfolding run
  run_models-AllShow [] m = same-AllShow m
  run_models-AllShow (e ∷ es) m =
      both-AllShow m (step e m).0 _ (step e m).1 _ (step-AllShow e m)
        (run_models-AllShow es (step e m).0)
