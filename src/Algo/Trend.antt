-- ===== src/Algo/Trend.antt =====
-- src/algo/trend_searcher.h and trend_searcher.cpp.
pub mod Prices
pub mod Scan
use crypto_shloma.Prelude.{
  ℕ, String, Bool, true, false, not, ◌&&◌, ◌||◌, List, [], ◌∷◌, ◌++◌, Option, none, some, ◌==◌,
  if◌then◌else◌,
}
use crypto_shloma.Qt.{Qt}
use crypto_shloma.Base.Order.{Order, OrderType, type_eq}
use crypto_shloma.Base.Market.Data.{Market, UserConfig}
use crypto_shloma.Storage.Markets.{MarketsStorage, filter_trading_pairs}
use crypto_shloma.Storage.MarketOrders as Book
use crypto_shloma.Storage.MarketOrders.{MarketOrders}
use crypto_shloma.Storage.TradeHistory.{TradeHistory, filter_market}
use crypto_shloma.Algo.Average.{counts, is_sell, round8}
use crypto_shloma.Algo.Action.{cycle_start}

module _ ⦃q : Qt⦄ where
  open q use {
    Qreal, QDateTime, literal, sub, mul, div, neg, fabs, lt, fuzzy_compare, fuzzy_is_null,
    date_is_null, date_is_valid,
  }

  abbrev zero_real : Qreal
  zero_real = literal 0 0

  abbrev percent : Qreal → Qreal → Qreal
  percent part whole = mul (div part whole) (literal 100 0)

  unfoldable pub calc_perc : Qreal → Qreal → Qreal
  calc_perc a b =
      if fuzzy_is_null a
      then zero_real
      else if lt a zero_real && lt b zero_real
      then if lt (fabs a) (fabs b)
        then percent (sub a b) a
        else if lt (fabs b) (fabs a)
        then mul (neg (div (sub b a) a)) (literal 100 0)
        else zero_real
      else if lt b a
      then neg (percent (sub a b) a)
      else if lt a b
      then fabs (percent (sub b a) a)
      else zero_real

  -- The loop of `findFirstSellPrice`, with its variables `ret` and `find`.
  unfoldable pub first_sell_loop : QDateTime → Qreal → Bool → List Order → Qreal
  first_sell_loop start ret found [] = ret
  first_sell_loop start ret found (o ∷ os) =
      let ret' = if counts start o then o.config.price else ret in
      let found' = counts start o || found in
      let rest = first_sell_loop start ret' found' os in if is_sell o && found' then ret' else rest

  unfoldable pub find_first_sell_price : List Order → QDateTime → Qreal
  unfolding first_sell_loop
  find_first_sell_price model start = round8 (first_sell_loop start zero_real false model)

  -- The signal `updateMarketConfig`.
  abbrev pub Update : Type 0
  Update = String × UserConfig

  -- A rate that differs from the stored one is taken over.
  unfoldable pub with_rate : QDateTime → Market → Qreal → List Update
  with_rate now m rate =
      let c = m.user_config in
      if fuzzy_compare c.current_trend_rate rate
      then []
      else (
        m.config.id,
        record c {
          current_trend_rate = rate;
          last_rate_update_time = now;
          min_trend = if lt rate c.min_trend then rate else c.min_trend;
        },
      )
        ∷ []

  -- After a sale the trend starts anew.
  unfoldable pub reset_rate : QDateTime → Market → List Update
  reset_rate now m =
      let c = m.user_config in
      if fuzzy_is_null c.current_trend_rate
      then []
      else (
        m.config.id,
        record c {
          current_trend_rate = zero_real;
          min_trend = zero_real;
          last_rate_update_time = now;
        },
      )
        ∷ []

  -- Against the newest sell offer; `none` is the `return` that ends the scan.
  abbrev pub against_book : QDateTime → Market → Qreal → List Order → Option (List Update)
  against_book now m price [] = none
  against_book now m price (sell ∷ _) = some (with_rate now m (calc_perc price sell.config.price))

  abbrev pub follow_cycle : QDateTime → Market → List Order → List Order → Option (List Update)
  follow_cycle now m history sells =
      let start = cycle_start m.user_config.meta_config in
      if date_is_null start || not (date_is_valid start)
      then none
      else against_book now m (find_first_sell_price history start) sells

  -- One round of the loop of `timerEvent` for a market with its history and its sell offers.
  unfoldable pub inspect_with : QDateTime → Market → List Order → List Order → Option (List Update)
  unfolding calc_perc find_first_sell_price with_rate reset_rate
  inspect_with now m [] sells = none
  inspect_with now m (o ∷ os) sells =
      if type_eq o.config.type OrderType.buy
      then follow_cycle now m (o ∷ os) sells
      else some (reset_rate now m)

  unfoldable pub inspect : QDateTime → MarketOrders → TradeHistory → Market → Option (List Update)
  unfolding inspect_with
  inspect now book history m =
      inspect_with now m (filter_market m.config.id history)
        (Book.filter_type m.config.id OrderType.sell book)

  abbrev pub go_on : Option (List Update) → List Update → List Update
  go_on none rest = []
  go_on (some us) rest = us ++ rest

  -- Each round reads the time anew: `now` is the time that the round of the market with an id reads.
  unfoldable pub scan :
      (String → QDateTime) → MarketOrders → TradeHistory → List Market → List Update
  unfolding inspect
  scan now book history [] = []
  scan now book history (m ∷ ms) =
      let rest = scan now book history ms in go_on (inspect (now m.config.id) book history m) rest

  -- `m_TimerId`, and whether the trading algorithm and its API are set.
  pub record TrendSearcher : Type 0 where
    pub timer_id : ℕ
    pub has_api : Bool

  unfoldable pub timer_event :
      TrendSearcher
      → ℕ
      → (String → QDateTime)
      → MarketsStorage
      → MarketOrders
      → TradeHistory
      → List Update
  unfolding scan
  timer_event t id now markets book history =
      if id == t.timer_id && t.has_api
      then scan now book history (filter_trading_pairs markets)
      else []

  -- `timer` is the number that `startTimer` returns.
  unfoldable pub start : ℕ → TrendSearcher → TrendSearcher
  start timer t = if t.timer_id == 0 then record t { timer_id = timer } else t

  unfoldable pub stop : TrendSearcher → TrendSearcher
  stop t = record t { timer_id = 0 }
