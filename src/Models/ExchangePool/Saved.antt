-- ===== src/Models/ExchangePool/Saved.antt =====
-- src/models/exchange_pool.cpp: what loadState reads of what saveState wrote.
use crypto_shloma.Prelude.{
  ℕ, String, true, false, not, List, [], ◌∷◌, ◌++◌, Option, none, some, ◌≡◌, refl, ◌∙◌, ap, sym,
  arith, Bool, if◌then◌else◌, ◌==◌, filter, map, str_eq, eq_iff, inl, inr, Bool-cases,
}
use mathlib.Core.List.{append-nil, append_assoc}
use mathlib.Core.Option
use mathlib.Core.Option.{some-injective}
use crypto_shloma.Qt.{Qt}
use crypto_shloma.Base.Market.Data.{Market, UserConfig}
use crypto_shloma.Storage.Keyed.{lookup, has, Distinct}
use crypto_shloma.Storage.Keyed.Laws.{
  found_where, lookup-filter, lookup-filter_found, Distinct-filter, has-append,
}
use crypto_shloma.Storage.Keyed.Upsert.{after_entry, lookup-upsert_all}
use crypto_shloma.Storage.Markets.{
  MarketsStorage, market_id, find_market_by_id, filter_trading_pairs,
}
use crypto_shloma.Storage.Markets.Lookups as Markets
use crypto_shloma.Algo.Action.{CacheRow}
use crypto_shloma.Models.ExchangePool.{
  row_of, is_row_of, insert_unique, insert_all, other_rows, saved_rows, config_of, group_key,
  row_key, replace, new_pair, loaded_group,
}

module _ ⦃q : Qt⦄ where
  -- The user configuration that comes back: a traded market, with what the table has no column for as
  -- it is by default.
  pub restored : Market → String × UserConfig
  restored m = (
    m.config.id,
    record (m.user_config) {
      min_trend = q.stored_double m.user_config.min_trend;
      current_trend_rate = q.stored_double m.user_config.current_trend_rate;
      last_rate_update_time = q.date_of_iso (q.date_to_iso m.user_config.last_rate_update_time);
      percentage_profit = q.stored_double m.user_config.percentage_profit;
      is_tradable = true;
      buy_mode = false;
      meta_config = q.stored_object m.user_config.meta_config;
      trade_summ = q.stored_double m.user_config.trade_summ;
    },
  )

  ==_refl : (n : ℕ) → (n == n) ≡ true
  ==_refl n = ground arith

  filter_append :
      (p : CacheRow → Bool) (xs : List CacheRow) (r : CacheRow)
      → p r ≡ true
      → filter p (xs ++ r ∷ []) ≡ filter p xs ++ r ∷ []
  unfolding filter
  filter_append p [] r e = rw e refl
  filter_append p (x ∷ xs) r e = elim (Bool-cases (p x)) [
    | inl h ↦ rw h (ap (λ l. x ∷ l) (filter_append p xs r e))
    | inr h ↦ rw h (filter_append p xs r e)
  ]

  -- No row has the id of the market.
  abbrev is_fresh : List CacheRow → Market → Bool
  is_fresh rows m = not (has row_key str_eq (market_id m) rows)

  fresh_after :
      (r : CacheRow) (rows : List CacheRow) (ms : List Market)
      → has market_id str_eq r.market_id ms ≡ false
      → filter (is_fresh (rows ++ r ∷ [])) ms ≡ filter (is_fresh rows) ms
  unfolding filter
  fresh_after r rows [] h = refl
  fresh_after r rows (m ∷ ms) h = ground (
    arith,
    has-append row_key str_eq eq_iff (market_id m) rows r,
    fresh_after r rows ms,
    eq_iff r.market_id (market_id m),
    eq_iff (market_id m) r.market_id,
  )

  insert_taken :
      (type : ℕ) (m : Market) (rows : List CacheRow)
      → has row_key str_eq (market_id m) rows ≡ true
      → insert_unique (row_of type m) rows ≡ rows
  unfolding insert_unique row_of
  insert_taken type m rows e = rw e refl

  insert_fresh :
      (type : ℕ) (m : Market) (rows : List CacheRow)
      → has row_key str_eq (market_id m) rows ≡ false
      → insert_unique (row_of type m) rows ≡ rows ++ row_of type m ∷ []
  unfolding insert_unique row_of
  insert_fresh type m rows e = rw e refl

  own_row : (type : ℕ) (m : Market) → is_row_of type (row_of type m) ≡ true
  unfolding row_of
  own_row type m = ==_refl type

  row_is_fresh :
      (type : ℕ) (m : Market) (rows : List CacheRow) (ms : List Market)
      → has market_id str_eq (market_id m) ms ≡ false
      → filter (is_fresh (rows ++ row_of type m ∷ [])) ms ≡ filter (is_fresh rows) ms
  unfolding row_of
  row_is_fresh type m rows ms h = fresh_after (row_of type m) rows ms h

  -- The rows of the exchange after the statements for its markets.
  own_rows :
      (type : ℕ) (ms : List Market) (rows : List CacheRow)
      → Distinct market_id str_eq ms
      → filter (is_row_of type) (insert_all (map (row_of type) ms) rows)
        ≡ filter (is_row_of type) rows ++ map (row_of type) (filter (is_fresh rows) ms)
  unfolding insert_all filter
  own_rows type [] rows d = sym (append-nil _)
  own_rows type (m ∷ ms) rows d = elim (Bool-cases (has row_key str_eq (market_id m) rows)) [
    | inl e ↦
        ap (λ l. filter (is_row_of type) (insert_all (map (row_of type) ms) l))
          (insert_taken type m rows e)
        ∙ own_rows type ms rows d.1
        ∙ rw e refl
    | inr e ↦
        ap (λ l. filter (is_row_of type) (insert_all (map (row_of type) ms) l))
          (insert_fresh type m rows e)
        ∙ own_rows type ms (rows ++ row_of type m ∷ []) d.1
        ∙ rw
            (
              filter_append (is_row_of type) rows (row_of type m) (own_row type m),
              row_is_fresh type m rows ms d.0,
              e,
            )
            (append_assoc (filter (is_row_of type) rows) (row_of type m ∷ []) _)
  ]

  no_own_rows :
      (type : ℕ) (rows : List CacheRow) → filter (is_row_of type) (other_rows type rows) ≡ []
  unfolding filter
  no_own_rows type [] = refl
  no_own_rows type (r ∷ rows) = elim (Bool-cases (is_row_of type r)) [
    | inl e ↦ rw e (no_own_rows type rows)
    | inr e ↦ rw (e, e) (no_own_rows type rows)
  ]

  has-row_of :
      (type : ℕ) (id : String) (ms : List Market)
      → has row_key str_eq id (map (row_of type) ms) ≡ has market_id str_eq id ms
  unfolding row_of
  has-row_of type id [] = refl
  has-row_of type id (m ∷ ms) = rw (has-row_of type id ms) refl

  Distinct-row_of :
      (type : ℕ) (ms : List Market)
      → Distinct market_id str_eq ms
      → Distinct row_key str_eq (map (row_of type) ms)
  unfolding row_of
  Distinct-row_of type [] d = tt
  Distinct-row_of type (m ∷ ms) d =
      (has-row_of type (market_id m) ms ∙ d.0, Distinct-row_of type ms d.1)

  lookup-row_of :
      (type : ℕ) (id : String) (ms : List Market)
      → lookup row_key str_eq id (map (row_of type) ms)
        ≡ Option.map (row_of type) (lookup market_id str_eq id ms)
  unfolding lookup row_of
  lookup-row_of type id [] = refl
  lookup-row_of type id (m ∷ ms) = elim (Bool-cases (str_eq (market_id m) id)) [
    | inl e ↦ rw e refl
    | inr e ↦ rw e (lookup-row_of type id ms)
  ]

  after-restored :
      (type : ℕ) (o : Option Market)
      → after_entry replace new_pair (Option.map (row_of type) o) none ≡ Option.map restored o
  unfolding row_of config_of restored
  after-restored type none = refl
  after-restored type (some m) = refl

  restored_if_free :
      (type : ℕ) (taken : Bool) (o : Option Market)
      → after_entry replace new_pair (Option.map (row_of type) (if not taken then o else none)) none
        ≡ (if taken then none else Option.map restored o)
  restored_if_free type true o = refl
  restored_if_free type false o = after-restored type o

  -- If the ids of the markets are unique: the group read from the rows that were saved for an
  -- exchange has nothing for a market id of which another exchange has a row, and otherwise the
  -- settings of the stored market, as they come back from the database, if this market is traded,
  -- and nothing if it is not.
  pub loaded_group-saved_rows :
      (type : ℕ) (markets : MarketsStorage) (rows : List CacheRow) (id : String)
      → Markets.IsValid markets
      → lookup group_key str_eq id (loaded_group type (saved_rows type markets rows)) ≡ (
          if has row_key str_eq id (other_rows type rows)
          then none
          else Option.map restored
              (found_where (λ m. m.user_config.is_tradable) (find_market_by_id markets id)))
  unfolding loaded_group saved_rows find_market_by_id filter_trading_pairs
  loaded_group-saved_rows type markets rows id v =
      let traded = filter (λ m. m.user_config.is_tradable) markets.markets in
      let others = other_rows type rows in
      let fresh = filter (is_fresh others) traded in
      let distinct = Distinct-filter market_id str_eq eq_iff _ markets.markets v.markets in
      rw (own_rows type traded others distinct, no_own_rows type rows)
        (lookup-upsert_all group_key row_key str_eq eq_iff replace new_pair (λ d x. refl)
            (λ d x h. ap group_key (sym (some-injective _ _ h))) (map (row_of type) fresh) id []
            (Distinct-row_of type fresh
              (Distinct-filter market_id str_eq eq_iff (is_fresh others) traded distinct))
          ∙ rw
              (
                lookup-row_of type id fresh,
                lookup-filter market_id str_eq eq_iff (is_fresh others)
                    (λ k. not (has row_key str_eq k others)) id traded (λ m. refl),
                lookup-filter_found market_id str_eq eq_iff (λ m. m.user_config.is_tradable) id
                    markets.markets v.markets,
              )
              (restored_if_free type (has row_key str_eq id others) _))
