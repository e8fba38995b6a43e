-- ===== src/Api/Binance/Orders/Trades.antt =====
-- src/api/binance_api.cpp: the trades of processUserTradeHistory.
use crypto_shloma.Prelude.{
  ℕ, String, List, [], ◌∷◌, Option, none, some, ◌≡◌, refl, sym, ◌∙◌, ap, ◌==◌, ==_iff, filter,
}
use mathlib.Core.Option.{some-injective}
use crypto_shloma.Qt.{Qt}
use crypto_shloma.Api.Entry.{OrderEntry}
use crypto_shloma.Storage.Keyed.{lookup, Distinct}
use crypto_shloma.Storage.Keyed.Upsert.{all_merged, lookup-upsert_all_merged, Distinct-upsert_all}
use crypto_shloma.Api.Binance.Read.{double_at}
use crypto_shloma.Api.Binance.Orders.{entry_id, trade_id, add_trade, new_trade, trade_history}

module _ ⦃q : Qt⦄ where
  open q use {Qreal, QJsonValue, add, to_object}

  -- The sum of one number of the trades, from the left.
  pub sum_of : String → Qreal → List QJsonValue → Qreal
  sum_of k x [] = x
  sum_of k x (v ∷ vs) = sum_of k (add x (double_at (to_object v) k)) vs

  -- The entry of an order that was filled in these trades: the volumes are summed, all else is of
  -- the first.
  pub filled_in : List QJsonValue → Option OrderEntry
  filled_in [] = none
  filled_in (v ∷ vs) = some (record (new_trade v) {
    params = record ((new_trade v).params) {
      currency_volume = sum_of "qty" (new_trade v).params.currency_volume vs;
      base_volume = sum_of "quoteQty" (new_trade v).params.base_volume vs;
    };
  })

  all_merged-some :
      (vs : List QJsonValue) (e : OrderEntry)
      → all_merged add_trade (λ v. some (new_trade v)) vs (some e)
        ≡ some (record e {
          params = record (e.params) {
            currency_volume = sum_of "qty" e.params.currency_volume vs;
            base_volume = sum_of "quoteQty" e.params.base_volume vs;
          };
        })
  unfolding all_merged sum_of
  all_merged-some [] e = refl
  all_merged-some (v ∷ vs) e = all_merged-some vs (add_trade v e)

  all_merged-filled_in :
      (vs : List QJsonValue) → all_merged add_trade (λ v. some (new_trade v)) vs none ≡ filled_in vs
  unfolding all_merged filled_in
  all_merged-filled_in [] = refl
  all_merged-filled_in (v ∷ vs) = all_merged-some vs (new_trade v)

  new_trade_id :
      (v : QJsonValue) (e : OrderEntry) → some (new_trade v) ≡ some e → entry_id e ≡ trade_id v
  new_trade_id v e h = ap entry_id (sym (some-injective _ _ h))

  -- The trade history made from the reported trades has each order id once, and under an order id
  -- the order that the trades with this id, taken in turn, fill in: the first one makes it and the
  -- others add to it.
  pub trade_history_lem :
      (array : List QJsonValue)
      → Distinct entry_id ◌==◌ (trade_history array)
        × ((id : ℕ)
            → lookup entry_id ◌==◌ id (trade_history array)
              ≡ filled_in (filter (λ v. trade_id v == id) array))
  unfolding trade_history lookup
  trade_history_lem array = (
    Distinct-upsert_all entry_id trade_id ◌==◌ ==_iff add_trade _ (λ d x. refl) new_trade_id array
        [] tt,
    λ id.
        lookup-upsert_all_merged entry_id trade_id ◌==◌ ==_iff add_trade _ (λ d x. refl)
          new_trade_id array id []
        ∙ all_merged-filled_in (filter (λ v. trade_id v == id) array),
  )
