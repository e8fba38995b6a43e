-- ===== src/Models/ExchangeEntry/Shows.antt =====
-- src/models: what the views make of the operations of each model.
use crypto_shloma.Prelude.{
  ℕ, suc, ◌<◌, String, Bool, true, List, [], ◌∷◌, none, some, ◌≡◌, refl, arith, find, length,
  get_elem?, str_eq, ◌==◌, Bool-cases, Option-cases, inl, inr,
}
use crypto_shloma.Qt.{Qt}
use crypto_shloma.Base.Market.Data.{Market, UserConfig}
use crypto_shloma.Base.Market.UserConfig as User
use crypto_shloma.Base.Order.{Order}
use crypto_shloma.Api.Entry.{MarketEntry, OrderEntry}
use crypto_shloma.Storage.Markets.{market_id, entry_market_id, update_market}
use crypto_shloma.Storage.Orders.{order_id, entry_order_id}
use crypto_shloma.Storage.MarketOrders.{is_of_any, reported_ids}
use crypto_shloma.Models.Rows.{Change, follow, follow_all}
use crypto_shloma.Models.Rows.Laws.{
  Shows, Shows-same, Shows-then, Shows-erase, Shows-append, Shows-each, Shows-upsert, Shows-changed,
}
use crypto_shloma.Models.MarketsModel as Markets
use crypto_shloma.Models.MarketsModel.{MarketsModel}
use crypto_shloma.Models.OpenOrdersModel as Open
use crypto_shloma.Models.OpenOrdersModel.Removal.{Shows-remove_reported}
use crypto_shloma.Models.MarketOrdersModel as Book
use crypto_shloma.Models.MarketOrdersModel.{MarketOrdersModel}

module _ ⦃q : Qt⦄ where
  abbrev pub MarketsShow : MarketsModel → MarketsModel × List (Change Market) → Type 0
  MarketsShow m r = Shows m.rows (r.0.rows, r.1)

  pub merge_market_info-Shows :
      (l : List MarketEntry) (m : MarketsModel) → MarketsShow m (Markets.merge_market_info l m)
  unfolding Markets.merge_market_info
  merge_market_info-Shows l m = Shows-then _ _ m.rows (Shows-erase (Markets.is_gone l)) (
      Shows-upsert market_id entry_market_id str_eq (λ _ _. true) update_market
        (Markets.make_market m) l)

  pub merge_market_data-Shows :
      (l : List MarketEntry) (m : MarketsModel) → MarketsShow m (Markets.merge_market_data l m)
  unfolding Markets.merge_market_data
  merge_market_data-Shows l m =
      Shows-upsert market_id entry_market_id str_eq (λ _ _. true) update_market (λ _. none) l m.rows

  pub update_market_config-Shows :
      (id : String) (c : UserConfig) (m : MarketsModel)
      → MarketsShow m (Markets.update_market_config id c m)
  unfolding Markets.update_market_config Markets.change_market
  update_market_config-Shows id c m =
      elim (Option-cases (find (λ x. str_eq id x.config.id) m.rows)) [
        | inl n ↦ rw n (Shows-same m.rows)
        | inr (x, h) ↦ rw h (elim (Bool-cases (User.user_config_eq x.user_config c)) [
          | inl e ↦ rw e (Shows-same m.rows)
          | inr e ↦
              rw (e, h)
                (Shows-changed (λ y. str_eq id y.config.id) (λ y. (User.set_user_config c y).0) x
                  m.rows h)
        ])
      ]

  elem_in_range :
      {A : Type 0} (x : A) (i : ℕ) (xs : List A) → get_elem? xs i ≡ some x → i < length xs
  elem_in_range x i [] h = ground arith
  elem_in_range x ℕ.zero (y ∷ xs) h = omega arith
  elem_in_range x (suc i) (y ∷ xs) h = omega (arith, elem_in_range x i xs h)

  pub set_data-Shows :
      (row : ℕ) (role : Markets.Role) (value : Bool) (m : MarketsModel)
      → let r = Markets.set_data row role value m in MarketsShow m (r.1, r.2)
  unfolding Markets.set_data follow_all follow
  set_data-Shows row Markets.Role.market_role value m = Shows-same m.rows
  set_data-Shows row Markets.Role.is_tradable_role value m =
      elim (Option-cases (get_elem? m.rows row)) [
        | inl n ↦ rw n (Shows-same m.rows)
        | inr (x, h) ↦ rw h (record { shown = refl; in_range = (elem_in_range x row m.rows h, tt) })
      ]

  pub open_merge-Shows :
      (markets : MarketsModel) (l : List OrderEntry) (rows : List Order)
      → Shows rows (Open.merge markets l rows)
  unfolding Open.merge
  open_merge-Shows markets l rows = Shows-then _ _ rows (Shows-remove_reported l) (
      Shows-upsert order_id entry_order_id ◌==◌ Open.is_newer Open.update_order
        (Open.make_order markets) l)

  pub book_merge-Shows :
      (markets : MarketsModel) (l : List OrderEntry) (m : MarketOrdersModel)
      → let r = Book.merge markets l m in Shows m.rows (r.0.rows, r.1)
  unfolding Book.merge
  book_merge-Shows markets l m =
      Shows-then _ _ m.rows (Shows-erase (is_of_any (reported_ids l [])))
        (Shows-each _ (λ e ys. Shows-append (Book.make_followed markets m.filters e) ys) l)
