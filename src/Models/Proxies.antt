-- ===== src/Models/Proxies.antt =====
-- The proxy models of src/models: which rows of a model a view shows, and in which order.
pub mod Laws
use crypto_shloma.Prelude.{
  String, Bool, true, false, not, ◌&&◌, ◌||◌, List, Option, none, some, filter, is_empty_text,
  if◌then◌else◌,
}
use crypto_shloma.Qt.{Qt}
use crypto_shloma.Base.Balance.{Balance}
use crypto_shloma.Base.Order.{Order, OrderType, type_eq}
use crypto_shloma.Base.Market.Data.{Market, Status, status_eq}
use crypto_shloma.Storage.Orders.{is_of}

module _ ⦃q : Qt⦄ where
  open q use {
    Qreal, literal, lt, date_lt, text_lt, contains_ignoring_case, fuzzy_is_null, proxy_sort,
  }

  -- `sort(0, Qt::AscendingOrder)` and `sort(0, Qt::DescendingOrder)`.
  abbrev pub ascending : {A : Type 0} → (A → A → Bool) → List A → List A
  ascending {A} less = proxy_sort A less

  abbrev pub descending : {A : Type 0} → (A → A → Bool) → List A → List A
  descending {A} less = proxy_sort A (λ x y. less y x)

  -- balances_proxy_model.cpp. The currency is set before a balance is stored.
  abbrev pub balance_less : Balance → Balance → Bool
  balance_less x y = elim x.currency [
    | none ↦ false
    | some c ↦ elim y.currency [ none ↦ false | some d ↦ text_lt c d ]
  ]

  abbrev pub accepts_balance : Balance → Bool
  accepts_balance b = not (fuzzy_is_null b.config.total)

  unfoldable pub shown_balances : List Balance → List Balance
  unfolding filter
  shown_balances rows = ascending balance_less (filter accepts_balance rows)

  abbrev pub price_less : Order → Order → Bool
  price_less x y = lt x.config.price y.config.price

  -- market_orders_proxy_model.cpp: `m_marketId` filters, and the rows keep their order.
  abbrev pub accepts_market_order : String → Order → Bool
  accepts_market_order id o = if is_empty_text id then false else is_of id o

  unfoldable pub shown_market_orders : String → List Order → List Order
  unfolding filter
  shown_market_orders id rows = filter (accepts_market_order id) rows

  abbrev pub has_type : OrderType → Order → Bool
  has_type type o = type_eq o.config.type type

  -- buy_orders_proxy_model.cpp and sell_orders_proxy_model.cpp. Their source is the proxy above.
  unfoldable pub shown_buy_orders : String → List Order → List Order
  unfolding filter shown_market_orders
  shown_buy_orders id rows =
      descending price_less (filter (has_type OrderType.buy) (shown_market_orders id rows))

  unfoldable pub shown_sell_orders : String → List Order → List Order
  unfolding filter shown_market_orders
  shown_sell_orders id rows =
      ascending price_less (filter (has_type OrderType.sell) (shown_market_orders id rows))

  -- `m_OrderTypeFilter` and `m_marketId` of open_orders_proxy_model.h and trade_history_proxy_model.h.
  pub record OrderFilter : Type 0 where
    pub order_type : OrderType
    pub market_id : String

  unfoldable pub set_filter_order_type : OrderType → OrderFilter → OrderFilter
  set_filter_order_type type f = record f { order_type = type }

  unfoldable pub set_filter_market_id : String → OrderFilter → OrderFilter
  set_filter_market_id id f = record f { market_id = id }

  abbrev pub accepts_open_order : OrderFilter → Order → Bool
  accepts_open_order f o =
      if type_eq f.order_type OrderType.no_type then true else has_type f.order_type o

  unfoldable pub shown_open_orders : OrderFilter → List Order → List Order
  unfolding filter
  shown_open_orders f rows =
      descending (λ x y. date_lt x.config.time_stamp y.config.time_stamp)
        (filter (accepts_open_order f) rows)

  -- trade_history_proxy_model.cpp.
  abbrev pub updated_less : Order → Order → Bool
  updated_less x y = date_lt x.config.updated_time_stamp y.config.updated_time_stamp

  abbrev pub accepts_trade : OrderFilter → Order → Bool
  accepts_trade f o = if is_empty_text f.market_id then true else is_of f.market_id o

  unfoldable pub shown_trade_history : OrderFilter → List Order → List Order
  unfolding filter
  shown_trade_history f rows = descending updated_less (filter (accepts_trade f) rows)

  abbrev pub accepts_selected_trade : OrderFilter → Order → Bool
  accepts_selected_trade f o = if is_empty_text f.market_id then false else is_of f.market_id o

  unfoldable pub shown_selected_trades : OrderFilter → List Order → List Order
  unfolding filter
  shown_selected_trades f rows = descending updated_less (filter (accepts_selected_trade f) rows)

  abbrev pub matches_pattern : String → Market → Bool
  matches_pattern pattern m =
      if is_empty_text pattern then true else contains_ignoring_case m.config.id pattern

  -- spread_markets_proxy_model.cpp, with the setting MinBaseVolume.
  abbrev pub accepts_spread : Qreal → String → Market → Bool
  accepts_spread min_base_volume pattern m =
      (lt min_base_volume m.config.base_volume)
      && ((lt (literal 0 0) m.config.spread)
          && ((status_eq m.config.status Status.ok)
              && (not m.user_config.is_tradable && matches_pattern pattern m)))

  unfoldable pub shown_spread_markets : Qreal → String → List Market → List Market
  unfolding filter
  shown_spread_markets min_base_volume pattern rows =
      descending (λ x y. lt x.config.spread y.config.spread)
        (filter (accepts_spread min_base_volume pattern) rows)

  -- volume_markets_proxy_model.cpp, with the settings MinCoinPrice and MinBaseVolume.
  abbrev pub accepts_volume : Qreal → Qreal → String → Market → Bool
  accepts_volume min_coin_price min_base_volume pattern m =
      (lt min_coin_price m.config.last_price)
      && ((lt min_base_volume m.config.base_volume)
          && ((status_eq m.config.status Status.ok)
              && (not m.user_config.is_tradable && matches_pattern pattern m)))

  unfoldable pub shown_volume_markets : Qreal → Qreal → String → List Market → List Market
  unfolding filter
  shown_volume_markets min_coin_price min_base_volume pattern rows =
      descending (λ x y. lt x.config.base_volume y.config.base_volume)
        (filter (accepts_volume min_coin_price min_base_volume pattern) rows)

  -- trading_pairs_proxy_model.cpp; it does not sort.
  unfoldable pub shown_trading_pairs : List Market → List Market
  unfolding filter
  shown_trading_pairs rows = filter (λ m. m.user_config.is_tradable) rows
