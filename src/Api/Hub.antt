-- ===== src/Api/Hub.antt =====
-- src/api/i_exchange_api.cpp: how the signals of an exchange API reach the storages. All reports but
-- that of canceled orders are queued: they wait until control returns to the event loop.

pub mod Laws
use crypto_shloma.Prelude.{List, [], ◌∷◌, ◌++◌}
use crypto_shloma.Qt.{Qt}
use crypto_shloma.Api.Signals.{Signal}
use crypto_shloma.Storage.Markets.{
  MarketsStorage, merge_currencies, merge_market_info, merge_market_data,
}
use crypto_shloma.Storage.MarketOrders as Book
use crypto_shloma.Storage.MarketOrders.{MarketOrders}
use crypto_shloma.Storage.OpenOrders as Open
use crypto_shloma.Storage.OpenOrders.{OpenOrders}
use crypto_shloma.Storage.Balances as Balances
use crypto_shloma.Storage.Balances.{BalancesStorage}
use crypto_shloma.Storage.TradeHistory as History
use crypto_shloma.Storage.TradeHistory.{TradeHistory}

module _ ⦃q : Qt⦄ where
  pub record Storages : Type 0 where
    pub markets : MarketsStorage
    pub market_orders : MarketOrders
    pub open_orders : OpenOrders
    pub balances : BalancesStorage
    pub history : TradeHistory

  -- The slot that a signal is connected to.
  unfoldable pub deliver : Signal → Storages → Storages
  unfolding merge_currencies merge_market_info merge_market_data
  deliver (Signal.receive_currencies l) s = record s { markets = merge_currencies l s.markets }
  deliver (Signal.receive_market_info l) s = record s { markets = merge_market_info l s.markets }
  deliver (Signal.receive_market_data l) s = record s { markets = merge_market_data l s.markets }
  deliver (Signal.receive_market_orders l) s = record s {
    market_orders = Book.merge s.markets l s.market_orders;
  }
  deliver (Signal.receive_user_open_orders l) s = record s {
    open_orders = Open.merge s.markets l s.open_orders;
  }
  deliver (Signal.receive_user_trade_history l) s = record s {
    history = History.merge s.markets l s.history;
  }
  deliver (Signal.receive_canceled_orders l) s = record s {
    open_orders = Open.remove l s.open_orders;
  }
  deliver (Signal.receive_balance l) s = record s {
    balances = Balances.merge s.markets l s.balances;
  }
  deliver _ s = s

  -- The storages, and the signals that wait in the queue of the event loop.
  pub record Hub : Type 0 where
    pub storages : Storages
    pub queue : List Signal

  -- An emission: the report of canceled orders is delivered at once.
  unfoldable pub emit : Signal → Hub → Hub
  unfolding deliver
  emit (Signal.receive_canceled_orders l) h = record h {
    storages = deliver (Signal.receive_canceled_orders l) h.storages;
  }
  emit s h = record h { queue = h.queue ++ s ∷ [] }

  unfoldable pub emit_all : List Signal → Hub → Hub
  unfolding emit
  emit_all [] h = h
  emit_all (s ∷ ss) h = emit_all ss (emit s h)

  unfoldable pub deliver_all : List Signal → Storages → Storages
  unfolding deliver
  deliver_all [] s = s
  deliver_all (x ∷ xs) s = deliver_all xs (deliver x s)

  -- Control returns to the event loop.
  unfoldable pub return_to_loop : Hub → Hub
  unfolding deliver_all
  return_to_loop h = record { storages = deliver_all h.queue h.storages; queue = [] }
