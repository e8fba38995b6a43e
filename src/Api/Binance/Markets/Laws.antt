-- ===== src/Api/Binance/Markets/Laws.antt =====
-- src/api/binance_api.cpp: the loops of processExchangeInfo.
use crypto_shloma.Prelude.{
  String, Bool, true, false, List, [], ◌∷◌, ◌++◌, Option, none, some, ◌≡◌, refl, ◌∙◌, arith, any,
  str_eq, eq_iff, if◌then◌else◌, inl, inr, Bool-cases, Option-cases,
}
use crypto_shloma.Qt.{Qt}
use crypto_shloma.Base.Currency as Currency
use crypto_shloma.Base.Market.Data as Market
use crypto_shloma.Storage.Keyed.{lookup, has, Distinct}
use crypto_shloma.Storage.Keyed.Laws.{lookup-append, lookup-none, lookup-ne-none, Distinct-append}
use crypto_shloma.Storage.Markets.{entry_currency_id}
use crypto_shloma.Api.Binance.Codes.{symbol_filter_text, symbol_filters, SymbolFilter}
use crypto_shloma.Api.Binance.Codes.Laws.{key-fallback}
use crypto_shloma.Api.Binance.Read.{text_at, double_at}
use crypto_shloma.Api.Binance.Markets.{new_coin, create_coin, currencies_loop, apply_filters}

module _ ⦃q : Qt⦄ where
  open q use {QJsonValue, to_object}

  -- The coin of the first market that has the id as its coin or as its base coin.
  unfoldable pub first_coin : String → List QJsonValue → Option Currency.Config
  first_coin id [] = none
  first_coin id (v ∷ vs) =
      let rest = first_coin id vs in
      let status = text_at (to_object v) "status" in
      if str_eq (text_at (to_object v) "baseAsset") id
      then some (new_coin status id)
      else if str_eq (text_at (to_object v) "quoteAsset") id
      then some (new_coin status id)
      else rest

  abbrev listed : String → List Currency.Config → Option Currency.Config
  listed = lookup entry_currency_id str_eq

  abbrev has_coin : String → List Currency.Config → Bool
  has_coin = has entry_currency_id str_eq

  new_coin-id : (status symbol : String) → entry_currency_id (new_coin status symbol) ≡ symbol
  unfolding new_coin
  new_coin-id status symbol = refl

  abbrev or_else : Option Currency.Config → Option Currency.Config → Option Currency.Config
  or_else none new = new
  or_else (some c) new = some c

  listed-append :
      (status symbol id : String) (l : List Currency.Config)
      → listed id (l ++ new_coin status symbol ∷ [])
        ≡ or_else (listed id l) (if str_eq symbol id then some (new_coin status id) else none)
  listed-append status symbol id l = elim (Option-cases (listed id l)) [
    | inl e ↦ rw e (
        ground (
          arith,
          lookup-append entry_currency_id str_eq eq_iff id l (new_coin status symbol),
          new_coin-id status symbol,
          lookup-ne-none entry_currency_id str_eq eq_iff id l,
          eq_iff symbol id,
        ))
    | inr (c, e) ↦ rw e (
        ground (
          arith,
          lookup-append entry_currency_id str_eq eq_iff id l (new_coin status symbol),
          lookup-none entry_currency_id str_eq eq_iff id l,
        ))
  ]

  listed_kept :
      (status symbol id : String) (l : List Currency.Config)
      → has_coin symbol l ≡ true
      → listed id l
        ≡ or_else (listed id l) (if str_eq symbol id then some (new_coin status id) else none)
  listed_kept status symbol id l h = elim (Option-cases (listed id l)) [
    | inl e ↦
        rw e (ground (arith, lookup-ne-none entry_currency_id str_eq eq_iff id l, eq_iff symbol id))
    | inr (c, e) ↦ rw e refl
  ]

  or_none : (o : Option Currency.Config) → o ≡ or_else o none
  or_none none = refl
  or_none (some c) = refl

  or_all :
      (o : Option Currency.Config) (b d : Bool) (c : Currency.Config)
      (rest : Option Currency.Config)
      → or_else (or_else (or_else o (if b then some c else none)) (if d then some c else none)) rest
        ≡ or_else o (if b then some c else if d then some c else rest)
  or_all none true d c rest = refl
  or_all none false true c rest = refl
  or_all none false false c rest = refl
  or_all (some x) b d c rest = refl

  listed-create_coin :
      (status symbol id : String) (l : List Currency.Config)
      → listed id (create_coin status symbol l)
        ≡ or_else (listed id l) (if str_eq symbol id then some (new_coin status id) else none)
  unfolding create_coin
  listed-create_coin status symbol id l = elim (Bool-cases (has_coin symbol l)) [
    | inl e ↦ rw e (listed_kept status symbol id l e)
    | inr e ↦ rw e (listed-append status symbol id l)
  ]

  listed-loop :
      (id : String) (vs : List QJsonValue) (l : List Currency.Config)
      → listed id (currencies_loop vs l) ≡ or_else (listed id l) (first_coin id vs)
  unfolding currencies_loop first_coin
  listed-loop id [] l = or_none (listed id l)
  listed-loop id (v ∷ vs) l =
      let status = text_at (to_object v) "status" in
      let base = text_at (to_object v) "baseAsset" in
      let quote = text_at (to_object v) "quoteAsset" in
      listed-loop id vs (create_coin status quote (create_coin status base l))
      ∙ rw
          (
            listed-create_coin status quote id (create_coin status base l),
            listed-create_coin status base id l,
          )
          (or_all (listed id l) (str_eq base id) (str_eq quote id) (new_coin status id)
            (first_coin id vs))

  Distinct-create_coin :
      (status symbol : String) (l : List Currency.Config)
      → Distinct entry_currency_id str_eq l
      → Distinct entry_currency_id str_eq (create_coin status symbol l)
  unfolding create_coin
  Distinct-create_coin status symbol l d = elim (Bool-cases (has_coin symbol l)) [
    | inl e ↦ rw e d
    | inr e ↦ rw e (
        Distinct-append entry_currency_id str_eq eq_iff l (new_coin status symbol)
          (rw (new_coin-id status symbol) e) d)
  ]

  pub Distinct-currencies_loop :
      (vs : List QJsonValue) (l : List Currency.Config)
      → Distinct entry_currency_id str_eq l
      → Distinct entry_currency_id str_eq (currencies_loop vs l)
  unfolding currencies_loop
  Distinct-currencies_loop [] l d = d
  Distinct-currencies_loop (v ∷ vs) l d =
      let status = text_at (to_object v) "status" in
      let base = text_at (to_object v) "baseAsset" in
      let quote = text_at (to_object v) "quoteAsset" in
      Distinct-currencies_loop vs _
        (Distinct-create_coin status quote _ (Distinct-create_coin status base l d))

  -- The currencies read from the reported markets have each id once, and an id has the currency
  -- that the first market with it makes, taking its base coin before its quote coin.
  pub currencies_loop_lem :
      (vs : List QJsonValue)
      → Distinct entry_currency_id str_eq (currencies_loop vs [])
        × ((id : String)
            → lookup entry_currency_id str_eq id (currencies_loop vs []) ≡ first_coin id vs)
  unfolding lookup
  currencies_loop_lem vs = (Distinct-currencies_loop vs [] tt, λ id. listed-loop id vs [])

  abbrev is_known_filter : QJsonValue → Bool
  is_known_filter v =
      any (λ k. str_eq (symbol_filter_text k) (text_at (to_object v) "filterType")) symbol_filters

  apply_filters-append :
      (xs ys : List QJsonValue) (c : Market.Config)
      → apply_filters (xs ++ ys) c ≡ apply_filters ys (apply_filters xs c)
  unfolding apply_filters
  apply_filters-append [] ys c = refl
  apply_filters-append (x ∷ xs) ys c = apply_filters-append xs ys _

  -- If the last filter of a market has a type that the table of filters does not have, the tick
  -- size and the bounds of the price are read from that filter.
  pub apply_filters_unknown :
      (xs : List QJsonValue) (v : QJsonValue) (c : Market.Config)
      → is_known_filter v ≡ false
      → let c' = apply_filters (xs ++ v ∷ []) c in
        (c'.price_tick_size ≡ double_at (to_object v) "tickSize")
        × (c'.min_base_trade_price ≡ double_at (to_object v) "minPrice")
        × (c'.max_base_trade_price ≡ double_at (to_object v) "maxPrice")
  unfolding apply_filters
  apply_filters_unknown xs v c h =
      rw
        (
          apply_filters-append xs (v ∷ []) c,
          key-fallback SymbolFilter.price_filter symbol_filter_text symbol_filters
              (text_at (to_object v) "filterType") h,
        )
        (refl, refl, refl)
