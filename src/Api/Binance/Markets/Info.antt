-- ===== src/Api/Binance/Markets/Info.antt =====
-- src/api/binance_api.cpp and src/storage/markets_storage.cpp: an answer with exchange information, from
-- the handler to the storage.
use crypto_shloma.Prelude.{
  String, true, List, [], ◌∷◌, Option, none, some, ◌≡◌, ◌≢◌, refl, ◌∙◌, ap, arith, str_eq, eq_iff,
  eq_refl, map, inl, inr, Bool-cases, Option-cases, subst,
}
use mathlib.Core.Option
use mathlib.Core.Option.{some-injective}
use crypto_shloma.Qt.{Qt}
use crypto_shloma.Base.Currency as Currency
use crypto_shloma.Base.Market.Data.{Market}
use crypto_shloma.Api.Entry.{MarketEntry}
use crypto_shloma.Storage.Keyed.{lookup, has, Distinct, merged}
use crypto_shloma.Storage.Keyed.Laws.{lookup-ne-none}
use crypto_shloma.Storage.Markets.{
  MarketsStorage, entry_market_id, find_currency_by_id, find_market_by_id, new_market, make_market,
  update_market, merge_currencies, merge_market_info,
}
use crypto_shloma.Storage.Markets.Lookups.{find-merge_currencies, find-merge_market_info}
use crypto_shloma.Api.Binance.Read.{text_at}
use crypto_shloma.Api.Binance.Markets.{currencies_loop, market_info}
use crypto_shloma.Api.Binance.Markets.Laws.{first_coin, currencies_loop_lem}

module _ ⦃q : Qt⦄ where
  open q use {QJsonValue, to_object}

  -- The storage after the two reports of an answer.
  abbrev informed : List QJsonValue → MarketsStorage → MarketsStorage
  informed vs s =
      merge_market_info (map market_info vs) (merge_currencies (currencies_loop vs []) s)

  abbrev as_currency : Option Currency.Config → Option Currency.Currency
  as_currency = Option.map (λ config. record { config = config })

  find_currency-reported :
      (vs : List QJsonValue) (s : MarketsStorage) (id : String)
      → find_currency_by_id (merge_currencies (currencies_loop vs []) s) id
        ≡ as_currency (first_coin id vs)
  find_currency-reported vs s id =
      let (distinct, found) = currencies_loop_lem vs in
      find-merge_currencies s (currencies_loop vs []) id distinct ∙ ap as_currency (found id)

  first_coin-base :
      (v : QJsonValue) (vs : List QJsonValue)
      → first_coin (text_at (to_object v) "baseAsset") (v ∷ vs) ≢ none
  unfolding first_coin
  first_coin-base v vs = ground (arith, eq_refl (text_at (to_object v) "baseAsset"))

  first_coin-quote :
      (v : QJsonValue) (vs : List QJsonValue)
      → first_coin (text_at (to_object v) "quoteAsset") (v ∷ vs) ≢ none
  unfolding first_coin
  first_coin-quote v vs = ground (arith, eq_refl (text_at (to_object v) "quoteAsset"))

  first_coin-later :
      (id : String) (v : QJsonValue) (vs : List QJsonValue)
      → first_coin id vs ≢ none
      → first_coin id (v ∷ vs) ≢ none
  unfolding first_coin
  first_coin-later id v vs h = ground arith

  abbrev CoinsKnown : List QJsonValue → MarketEntry → Type 0
  CoinsKnown vs e =
      (first_coin e.trade_currency_id vs ≢ none) × (first_coin e.base_currency_id vs ≢ none)

  entry-CoinsKnown :
      (vs : List QJsonValue) (id : String) (e : MarketEntry)
      → lookup entry_market_id str_eq id (map market_info vs) ≡ some e
      → CoinsKnown vs e
  unfolding lookup market_info
  entry-CoinsKnown [] id e h = cc
  entry-CoinsKnown (v ∷ vs) id e h =
      elim (Bool-cases (str_eq (entry_market_id (market_info v)) id)) [
        | inl t ↦
            subst (CoinsKnown (v ∷ vs)) (some-injective _ _ (rw t at h))
              (first_coin-base v vs, first_coin-quote v vs)
        | inr f ↦
            let (base, quote) = entry-CoinsKnown vs id e (rw f at h) in
            (first_coin-later _ v vs base, first_coin-later _ v vs quote)
      ]

  new_market-known :
      (e : MarketEntry) (c d : Option Currency.Config)
      → c ≢ none
      → d ≢ none
      → new_market e (as_currency c) (as_currency d) ≢ none
  new_market-known e none d h k = absurd (h refl)
  new_market-known e (some c) none h k = absurd (k refl)
  new_market-known e (some c) (some d) h k = cc

  make_market-known :
      (vs : List QJsonValue) (s : MarketsStorage) (e : MarketEntry)
      → CoinsKnown vs e
      → make_market (merge_currencies (currencies_loop vs []) s) e ≢ none
  unfolding make_market
  make_market-known vs s e (base, quote) =
      rw
        (
          find_currency-reported vs s e.trade_currency_id,
          find_currency-reported vs s e.base_currency_id,
        )
        (new_market-known e _ _ base quote)

  merged-known :
      (s : MarketsStorage) (e : MarketEntry) (old : Option Market)
      → make_market s e ≢ none
      → merged update_market (make_market s) e old ≢ none
  merged-known s e none h k = h k
  merged-known s e (some m) h k = cc

  -- If no market is reported twice, then after the currencies and the market information of one
  -- answer are merged, in this order, every reported market is found by its id.
  pub find_market-reported :
      (vs : List QJsonValue) (s : MarketsStorage) (id : String)
      → Distinct entry_market_id str_eq (map market_info vs)
      → has entry_market_id str_eq id (map market_info vs) ≡ true
      → find_market_by_id (informed vs s) id ≢ none
  find_market-reported vs s id d h =
      elim (Option-cases (lookup entry_market_id str_eq id (map market_info vs))) [
        | inl n ↦ absurd (lookup-ne-none entry_market_id str_eq eq_iff id _ h n)
        | inr (e, f) ↦
            rw (find-merge_market_info (merge_currencies (currencies_loop vs []) s) _ id d, f)
              (merged-known _ e _ (make_market-known vs s e (entry-CoinsKnown vs id e f)))
      ]
