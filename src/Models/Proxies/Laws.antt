-- ===== src/Models/Proxies/Laws.antt =====
-- The proxy models of src/models: what the views show.
use mathlib.Core.List.{Perm}
use mathlib.Core.List.Perm
use crypto_shloma.Prelude.{
  String, Bool, false, List, filter, is_empty_text, ◌≡◌, refl, ◌∙◌, ap, fun_ext,
}
use crypto_shloma.Qt.{Qt}
use crypto_shloma.Base.Order.{Order, OrderType}
use crypto_shloma.Storage.Orders.{matches, is_of, newer}
use crypto_shloma.Storage.Orders.Filter.{SortLaws}
use crypto_shloma.Storage.MarketOrders as Book
use crypto_shloma.Storage.MarketOrders.{MarketOrders}
use crypto_shloma.Storage.OpenOrders.Pointers.{filter-filter}
use crypto_shloma.Models.Proxies.{
  has_type, shown_market_orders, shown_buy_orders, shown_sell_orders,
}

module _ ⦃q : Qt⦄ where
  -- What QSortFilterProxyModel promises: the rows that pass, in some order.
  pub record ProxyLaws : Type 1 where
    pub shows : (A : Type 0) (less : A → A → Bool) (xs : List A) → Perm (q.proxy_sort A less xs) xs

  of_market :
      (id : String) (type : OrderType) (rows : List Order)
      → is_empty_text id ≡ false
      → filter (has_type type) (shown_market_orders id rows) ≡ filter (matches id type) rows
  unfolding shown_market_orders
  of_market id type rows h =
      ap (λ p. filter (has_type type) (filter p rows)) (fun_ext (λ (o : Order). rw h refl))
      ∙ filter-filter (has_type type) (is_of id) rows

  module _ (proxies : ProxyLaws) (sorts : SortLaws) where
    shown_side :
        (less : Order → Order → Bool) (type : OrderType) (id : String) (s : MarketOrders)
        → is_empty_text id ≡ false
        → Perm
            (q.proxy_sort Order less (filter (has_type type) (shown_market_orders id s.orders)))
            (Book.filter_type id type s)
    unfolding Book.filter_type
    shown_side less type id s h =
        Perm.trans (proxies.shows Order less _)
          (rw (of_market id type s.orders h) (Perm.symm (sorts.permutes Order newer _)))

    -- Given that the proxy models of Qt and the sorting of the storage only permute: for a valid
    -- market id, the views of the purchases and of the sales of the order book show, up to their
    -- order, exactly the orders that the storage of the book selects for that market and side.
    pub shown_book :
        (id : String) (s : MarketOrders)
        → is_empty_text id ≡ false
        → Perm (shown_buy_orders id s.orders) (Book.filter_type id OrderType.buy s)
          × Perm (shown_sell_orders id s.orders) (Book.filter_type id OrderType.sell s)
    unfolding shown_buy_orders shown_sell_orders Book.filter_type
    shown_book id s h = (shown_side _ OrderType.buy id s h, shown_side _ OrderType.sell id s h)
