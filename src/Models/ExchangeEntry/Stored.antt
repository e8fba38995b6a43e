-- ===== src/Models/ExchangeEntry/Stored.antt =====
-- src/models/exchange_pool.cpp, `ExchangeEntry`, and src/api/i_exchange_api.cpp: the models of the views
-- and the storages of the algorithms, which take the same reports.
use mathlib.Core.List.{append-nil, append_assoc}
use crypto_shloma.Prelude.{
  String, Bool, true, false, not, List, [], ◌∷◌, ◌++◌, none, ◌≡◌, refl, sym, ◌∙◌, ap, fun_ext,
  str_eq, option_eq, ◌==◌, any, filter, All,
}
use crypto_shloma.Qt.{Qt}
use crypto_shloma.Base.Order.{Order}
use crypto_shloma.Api.Entry.{MarketEntry, OrderEntry, BalanceEntry}
use crypto_shloma.Api.Signals.{Signal}
use crypto_shloma.Api.Hub.{Storages, Hub, deliver, emit, emit_all, deliver_all, return_to_loop}
use crypto_shloma.Storage.Keyed.{upsert_all}
use crypto_shloma.Storage.Markets as StoredMarkets
use crypto_shloma.Storage.Markets.{MarketsStorage, market_id, entry_market_id, update_market}
use crypto_shloma.Storage.Balances as StoredBalances
use crypto_shloma.Storage.Balances.{balance_key, entry_key}
use crypto_shloma.Storage.Orders as StoredOrders
use crypto_shloma.Storage.Orders.{order_id, entry_order_id, is_of}
use crypto_shloma.Storage.MarketOrders as StoredBook
use crypto_shloma.Storage.MarketOrders.{is_of_any, reported_ids}
use crypto_shloma.Storage.OpenOrders as StoredOpen
use crypto_shloma.Storage.TradeHistory as StoredHistory
use crypto_shloma.Models.Rows.{append_row, each_row, then_rows}
use crypto_shloma.Models.Rows.Laws.{erase_rows-rows}
use crypto_shloma.Models.Rows.Stored.{upsert_rows-rows, append_row-rows}
use crypto_shloma.Models.MarketsModel as Markets
use crypto_shloma.Models.MarketsModel.{MarketsModel}
use crypto_shloma.Models.BalancesModel as Balances
use crypto_shloma.Models.OpenOrdersModel as Open
use crypto_shloma.Models.OpenOrdersModel.Removal.{remove_reported-rows}
use crypto_shloma.Models.MarketOrdersModel as Book
use crypto_shloma.Models.MarketOrdersModel.{MarketOrdersModel}
use crypto_shloma.Models.TradeHistoryModel as History
use crypto_shloma.Models.TradeHistoryModel.{TradeHistoryModel}
use crypto_shloma.Models.ExchangeEntry.{Models, receive}

module _ ⦃q : Qt⦄ where
  abbrev pub stored_markets : MarketsModel → MarketsStorage
  stored_markets m = record { currencys = m.currencys; markets = m.rows }

  -- The storages with the data of the models.
  abbrev pub stored : Models → Storages
  stored m = record {
    markets = stored_markets m.markets;
    market_orders = record { orders = m.market_orders.rows; filters = m.market_orders.filters };
    open_orders = record { orders = m.open_orders };
    balances = record { balances = m.balances };
    history = record { orders = m.history.rows; filters = m.history.filters };
  }

  not-not : (b : Bool) → not (not b) ≡ b
  not-not true = refl
  not-not false = refl

  info_rows :
      (l : List MarketEntry) (m : MarketsModel)
      → (Markets.merge_market_info l m).0.rows
        ≡ (StoredMarkets.merge_market_info l (stored_markets m)).markets
  unfolding Markets.merge_market_info StoredMarkets.merge_market_info then_rows Markets.make_market
      StoredMarkets.make_market Markets.find_currency_by_id StoredMarkets.find_currency_by_id
  info_rows l m =
      upsert_rows-rows market_id entry_market_id str_eq (λ _ _. true) update_market
        (Markets.make_market m) l _
      ∙ ap (upsert_all market_id entry_market_id str_eq update_market (Markets.make_market m) l) (
          erase_rows-rows (Markets.is_gone l) 0 m.rows
          ∙ ap (λ p. filter p m.rows)
              (fun_ext (λ x. not-not (any (λ e. str_eq e.params.id x.config.id) l))))

  data_rows :
      (l : List MarketEntry) (m : MarketsModel)
      → (Markets.merge_market_data l m).0.rows
        ≡ (StoredMarkets.merge_market_data l (stored_markets m)).markets
  unfolding Markets.merge_market_data StoredMarkets.merge_market_data
  data_rows l m =
      upsert_rows-rows market_id entry_market_id str_eq (λ _ _. true) update_market (λ _. none) l
        m.rows

  followed_stored :
      (m : MarketsModel) (filters : List String) (e : OrderEntry)
      → Book.make_followed m filters e ≡ StoredBook.make_followed (stored_markets m) filters e
  unfolding Book.make_followed StoredBook.make_followed Open.make_order StoredOrders.make_order
      Markets.find_market_by_id StoredMarkets.find_market_by_id
  followed_stored m filters e = refl

  book_rows :
      (m : MarketsModel) (filters : List String) (l : List OrderEntry) (rows : List Order)
      → (each_row (λ e. append_row (Book.make_followed m filters e)) l rows).0
        ≡ StoredBook.append_all (stored_markets m) filters l rows
  unfolding each_row then_rows StoredBook.append_all
  book_rows m filters [] rows = refl
  book_rows m filters (e ∷ l) rows =
      rw (append_row-rows (Book.make_followed m filters e) rows, followed_stored m filters e)
        (book_rows m filters l _)

  book_stored :
      (l : List OrderEntry) (m : Models)
      → (Book.merge m.markets l m.market_orders).0.rows
        ≡ (StoredBook.merge (stored m).markets l (stored m).market_orders).orders
  unfolding Book.merge StoredBook.merge then_rows
  book_stored l m =
      book_rows m.markets m.market_orders.filters l _
      ∙ ap (StoredBook.append_all (stored_markets m.markets) m.market_orders.filters l)
          (erase_rows-rows (is_of_any (reported_ids l [])) 0 m.market_orders.rows)

  open_rows :
      (l : List OrderEntry) (m : MarketsModel) (rows : List Order)
      → (Open.merge m l rows).0
        ≡ (StoredOpen.merge (stored_markets m) l (record { orders = rows })).orders
  unfolding Open.merge StoredOpen.merge then_rows Open.make_order StoredOrders.make_order
      Markets.find_market_by_id StoredMarkets.find_market_by_id
  open_rows l m rows =
      upsert_rows-rows order_id entry_order_id ◌==◌ Open.is_newer Open.update_order
        (Open.make_order m) l _
      ∙ ap (upsert_all order_id entry_order_id ◌==◌ StoredOpen.update_order (Open.make_order m) l)
          (remove_reported-rows l rows)

  balances_rows :
      (l : List BalanceEntry) (m : Models)
      → (Balances.merge m.markets l m.balances).0
        ≡ (StoredBalances.merge (stored m).markets l (stored m).balances).balances
  unfolding Balances.merge StoredBalances.merge Balances.make_balance StoredBalances.make_balance
      Markets.find_currency_by_id StoredMarkets.find_currency_by_id
  balances_rows l m =
      upsert_rows-rows balance_key entry_key option_eq Balances.is_newer Balances.update_balance
        (Balances.make_balance m.markets) l m.balances

  history_rows :
      (l : List OrderEntry) (m : Models)
      → (History.merge m.markets l m.history).0.rows
        ≡ (StoredHistory.merge (stored m).markets l (stored m).history).orders
  unfolding History.merge StoredHistory.merge History.make_followed StoredHistory.make_followed
      Open.make_order StoredOrders.make_order Markets.find_market_by_id
      StoredMarkets.find_market_by_id
  history_rows l m =
      upsert_rows-rows order_id entry_order_id ◌==◌ (λ _ _. false) (λ e o. o)
        (History.make_followed m.markets m.history.filters) l m.history.rows

  -- A report makes of the models what it makes of the storages.
  pub stored-receive : (s : Signal) (m : Models) → stored (receive s m).0 ≡ deliver s (stored m)
  unfolding receive deliver Markets.merge_market_info StoredMarkets.merge_market_info
      Markets.merge_market_data StoredMarkets.merge_market_data Markets.merge_currencies
      StoredMarkets.merge_currencies Book.merge StoredBook.merge StoredOpen.merge
      StoredBalances.merge History.merge StoredHistory.merge Open.remove StoredOpen.remove
  stored-receive (Signal.receive_currencies l) m = refl
  stored-receive (Signal.receive_market_info l) m =
      ap (λ x. record (stored m) { markets = record (stored_markets m.markets) { markets = x } })
        (info_rows l m.markets)
  stored-receive (Signal.receive_market_data l) m =
      ap (λ x. record (stored m) { markets = record (stored_markets m.markets) { markets = x } })
        (data_rows l m.markets)
  stored-receive (Signal.receive_market_orders l) m =
      ap
        (λ x. record (stored m) {
          market_orders = record { orders = x; filters = m.market_orders.filters };
        })
        (book_stored l m)
  stored-receive (Signal.receive_balance l) m =
      ap (λ x. record (stored m) { balances = record { balances = x } }) (balances_rows l m)
  stored-receive (Signal.receive_user_open_orders l) m =
      ap (λ x. record (stored m) { open_orders = record { orders = x } })
        (open_rows l m.markets m.open_orders)
  stored-receive (Signal.receive_user_trade_history l) m =
      ap (λ x. record (stored m) { history = record { orders = x; filters = m.history.filters } })
        (history_rows l m)
  stored-receive (Signal.receive_canceled_orders l) m =
      ap (λ x. record (stored m) { open_orders = record { orders = x } })
        (erase_rows-rows (λ o. any (λ id. order_id o == id) l) 0 m.open_orders)
  stored-receive Signal.is_online_changed m = refl
  stored-receive Signal.disconnected_public_api m = refl
  stored-receive Signal.disconnected_private_api m = refl
  stored-receive (Signal.emul_submit_order a b c d e f) m = refl
  stored-receive (Signal.emul_cancel_order a b) m = refl

  unfoldable pub receive_all : List Signal → Models → Models
  unfolding receive
  receive_all [] m = m
  receive_all (s ∷ ss) m = receive_all ss (receive s m).0

  -- The signal is a report of currencies, market information, order books, balances, open orders or
  -- trade history.
  abbrev pub is_report : Signal → Bool
  is_report (Signal.receive_currencies l) = true
  is_report (Signal.receive_market_info l) = true
  is_report (Signal.receive_market_orders l) = true
  is_report (Signal.receive_balance l) = true
  is_report (Signal.receive_user_open_orders l) = true
  is_report (Signal.receive_user_trade_history l) = true
  is_report _ = false

  emit_report :
      (s : Signal) (h : Hub)
      → is_report s ≡ true
      → emit s h ≡ record h { queue = h.queue ++ s ∷ [] }
  unfolding emit
  emit_report (Signal.receive_currencies l) h e = refl
  emit_report (Signal.receive_market_info l) h e = refl
  emit_report (Signal.receive_market_orders l) h e = refl
  emit_report (Signal.receive_balance l) h e = refl
  emit_report (Signal.receive_user_open_orders l) h e = refl
  emit_report (Signal.receive_user_trade_history l) h e = refl
  emit_report (Signal.receive_market_data l) h e = cc
  emit_report (Signal.receive_canceled_orders l) h e = cc
  emit_report Signal.is_online_changed h e = cc
  emit_report Signal.disconnected_public_api h e = cc
  emit_report Signal.disconnected_private_api h e = cc
  emit_report (Signal.emul_submit_order a b c d e' f) h e = cc
  emit_report (Signal.emul_cancel_order a b) h e = cc

  emit_all_reports :
      (ss : List Signal) (h : Hub)
      → All (λ s. is_report s ≡ true) ss
      → emit_all ss h ≡ record h { queue = h.queue ++ ss }
  unfolding emit_all
  emit_all_reports [] h a = ap (λ l. record h { queue = l }) (sym (append-nil h.queue))
  emit_all_reports (s ∷ ss) h a =
      ap (emit_all ss) (emit_report s h a.0)
      ∙ emit_all_reports ss (record h { queue = h.queue ++ s ∷ [] }) a.1
      ∙ ap (λ l. record h { queue = l }) (append_assoc h.queue (s ∷ []) ss)

  stored-receive_all :
      (ss : List Signal) (m : Models) → stored (receive_all ss m) ≡ deliver_all ss (stored m)
  unfolding receive_all deliver_all
  stored-receive_all [] m = refl
  stored-receive_all (s ∷ ss) m =
      stored-receive_all ss (receive s m).0 ∙ ap (deliver_all ss) (stored-receive s m)

  -- If the storages and the models of an exchange have the same data and no report waits, then
  -- after any reports of currencies, market information, order books, balances, open orders and
  -- trade history, once the event loop ran, the storages have the data of the models, which took
  -- the reports at once.
  pub models_and_storages :
      (ss : List Signal) (m : Models) (h : Hub)
      → All (λ s. is_report s ≡ true) ss
      → h.queue ≡ []
      → h.storages ≡ stored m
      → (return_to_loop (emit_all ss h)).storages ≡ stored (receive_all ss m)
  unfolding return_to_loop
  models_and_storages ss m h a e f =
      ap (λ k. (return_to_loop k).storages) (emit_all_reports ss h a)
      ∙ rw (e, f) (sym (stored-receive_all ss m))
