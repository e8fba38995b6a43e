-- ===== src/Storage/Markets/Trading.antt =====
-- The user's settings of a market, and which markets are traded.
use mathlib.Core.Option.{some-injective}
use crypto_shloma.Prelude.{
  String, Bool, true, false, List, [], ◌∷◌, Option, none, some, ◌≡◌, refl, ◌∙◌, arith, str_eq,
  eq_iff, if◌then◌else◌, Option-cases, inl, inr, ap, subst, filter, modify_first,
}
use crypto_shloma.Qt.{Qt}
use crypto_shloma.Base.Laws.{set_config-settles, create-settles}
use crypto_shloma.Base.Currency.{Currency}
use crypto_shloma.Base.Market.Data.{Market}
use crypto_shloma.Base.Market.Setters as Setters
use crypto_shloma.Base.Market.UserConfig as User
use crypto_shloma.Api.Entry.{MarketEntry}
use crypto_shloma.Storage.Keyed.{lookup, has, Distinct}
use crypto_shloma.Storage.Keyed.Upsert.{after_report}
use crypto_shloma.Storage.Markets.{
  MarketsStorage, market_id, entry_market_id, find_currency_by_id, find_market_by_id, make_market,
  new_market, update_market, merge_market_info, cancel_trading_market, filter_trading_pairs,
}
use crypto_shloma.Storage.Markets.Lookups.{IsValid, find-merge_market_info}

module _ ⦃q : Qt⦄ where
  update_market-user_config :
      (e : MarketEntry) (m : Market)
      → ((update_market e m).user_config ≡ m.user_config)
        × ((update_market e m).trade_currency ≡ m.trade_currency)
        × ((update_market e m).base_currency ≡ m.base_currency)
  unfolding Setters.set_config
  update_market-user_config e m = (refl, refl, refl)

  -- If no market is reported twice, a merge of market information keeps a stored market that is
  -- reported, with its currencies and the settings of the user.
  pub merge_market_info-user_config :
      (s : MarketsStorage) (data' : List MarketEntry) (id : String) (m : Market) (e : MarketEntry)
      → Distinct entry_market_id str_eq data'
      → find_market_by_id s id ≡ some m
      → lookup entry_market_id str_eq id data' ≡ some e
      → (m' : Market) × (find_market_by_id (merge_market_info data' s) id ≡ some m')
        × (m'.user_config ≡ m.user_config)
        × (m'.trade_currency ≡ m.trade_currency)
        × (m'.base_currency ≡ m.base_currency)
  merge_market_info-user_config s data' id m e d found reported =
      let (u, t, b) = update_market-user_config e m in
      (update_market e m, rw (find-merge_market_info s data' id d, found, reported), u, t, b)

  -- Traded markets, by id.
  pub trades : List Market → String → Bool
  trades ms id = has market_id str_eq id (filter (λ m. m.user_config.is_tradable) ms)

  abbrev stop_trading : Market → Market
  stop_trading m = (User.set_is_tradable false m).0

  set_is_tradable-false : (m : Market) → (stop_trading m).user_config.is_tradable ≡ false
  unfolding User.set_is_tradable
  set_is_tradable-false m = ground arith

  market_id-stop_trading : (m : Market) → market_id (stop_trading m) ≡ market_id m
  unfolding User.set_is_tradable
  market_id-stop_trading m = refl

  trades-none :
      (ms : List Market) (id : String) → has market_id str_eq id ms ≡ false → trades ms id ≡ false
  unfolding trades filter
  trades-none [] id h = refl
  trades-none (m ∷ ms) id h = ground (arith, trades-none ms id)

  trades-modify :
      (ms : List Market) (j id : String)
      → Distinct market_id str_eq ms
      → trades (modify_first (λ m. str_eq m.config.id j) stop_trading ms) id
        ≡ (if str_eq j id then false else trades ms id)
  unfolding trades filter modify_first
  trades-modify [] j id d = ground arith
  trades-modify (m ∷ ms) j id d = ground (
    arith,
    trades-modify ms j id,
    trades-none ms id,
    set_is_tradable-false m,
    market_id-stop_trading m,
    eq_iff m.config.id j,
    eq_iff j id,
    eq_iff m.config.id id,
  )

  -- In a valid storage, cancelling a market takes exactly that market off the list of traded
  -- markets.
  pub cancel_trading_market_lem :
      (s : MarketsStorage) (j id : String)
      → IsValid s
      → has market_id str_eq id (filter_trading_pairs (cancel_trading_market j s))
        ≡ (if str_eq j id then false else has market_id str_eq id (filter_trading_pairs s))
  unfolding cancel_trading_market filter_trading_pairs trades
  cancel_trading_market_lem s j id v = trades-modify s.markets j id v.markets

  module _ (same : (v : q.Qreal) → q.fuzzy_compare v v ≡ true) where
    update_market_twice :
        (e : MarketEntry) (m : Market) → update_market e (update_market e m) ≡ update_market e m
    update_market_twice e m = ap (λ r. r.0) (set_config-settles same e.params m)

    update-new_market :
        (e : MarketEntry) (trade base : Option Currency) (m : Market)
        → new_market e trade base ≡ some m
        → update_market e m ≡ m
    update-new_market e (some c) (some b) m h =
        subst (λ x. update_market e x ≡ x) (some-injective _ _ h) (create-settles same e.params _ _)
    update-new_market e _ _ m h = cc

    after_report_twice :
        (s : MarketsStorage) (e : Option MarketEntry) (old : Option Market)
        → after_report update_market
            (make_market s)
            e
            (after_report update_market (make_market s) e old)
          ≡ after_report update_market (make_market s) e old
    unfolding make_market
    after_report_twice s none old = refl
    after_report_twice s (some e) (some m) = ap some (update_market_twice e m)
    after_report_twice s (some e) none = elim (Option-cases (make_market s e)) [
      | inl n ↦ rw n n
      | inr (m, p) ↦ rw p (ap some (update-new_market e _ _ m p))
    ]

    -- If comparing a number with itself succeeds and no market is reported twice, a second merge of
    -- the same market information finds nothing to change.
    pub merge_market_info_twice :
        (s : MarketsStorage) (data' : List MarketEntry) (id : String)
        → Distinct entry_market_id str_eq data'
        → find_market_by_id (merge_market_info data' (merge_market_info data' s)) id
          ≡ find_market_by_id (merge_market_info data' s) id
    unfolding merge_market_info make_market find_currency_by_id
    merge_market_info_twice s data' id d =
        find-merge_market_info (merge_market_info data' s) data' id d
        ∙ rw (find-merge_market_info s data' id d) (after_report_twice s _ _)
