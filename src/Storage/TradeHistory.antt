-- ===== src/Storage/TradeHistory.antt =====
-- src/storage/trade_history_storage.cpp.
pub mod Laws
use crypto_shloma.Prelude.{
  String, List, [], ◌∷◌, ◌++◌, Option, none, str_eq, ◌==◌, any, filter, not, if◌then◌else◌,
}
use crypto_shloma.Qt.{Qt}
use crypto_shloma.Base.Order.{Order}
use crypto_shloma.Api.Entry.{OrderEntry}
use crypto_shloma.Storage.Keyed.{upsert_all}
use crypto_shloma.Storage.Markets.{MarketsStorage}
use crypto_shloma.Storage.Orders.{is_of, order_id, entry_order_id, newest_first, make_order}

module _ ⦃q : Qt⦄ where
  -- `m_Data` and `m_Filters`, the markets that are followed.
  pub record TradeHistory : Type 0 where
    pub orders : List Order
    pub filters : List String

  unfoldable pub filter_market : String → TradeHistory → List Order
  unfolding filter
  filter_market id s = newest_first (filter (is_of id) s.orders)

  unfoldable pub insert : String → TradeHistory → TradeHistory
  insert id s =
      if any (λ f. str_eq f id) s.filters then s else record s { filters = s.filters ++ id ∷ [] }

  -- An order whose id is stored already stays as it is.
  abbrev pub keep_order : OrderEntry → Order → Order
  keep_order e o = o

  unfoldable pub make_followed : MarketsStorage → List String → OrderEntry → Option Order
  make_followed markets filters e =
      if any (λ f. str_eq f e.market_id) filters then make_order markets e else none

  unfoldable pub merge : MarketsStorage → List OrderEntry → TradeHistory → TradeHistory
  unfolding upsert_all
  merge markets data' s = record s {
    orders =
        upsert_all order_id entry_order_id ◌==◌ keep_order (make_followed markets s.filters) data'
          s.orders;
  }

  -- `removeAll` on the filters, and the loop that erases the market's orders.
  unfoldable pub remove : String → TradeHistory → TradeHistory
  unfolding filter
  remove id s = record {
    orders = filter (λ o. not (is_of id o)) s.orders;
    filters = filter (λ f. not (str_eq f id)) s.filters;
  }
