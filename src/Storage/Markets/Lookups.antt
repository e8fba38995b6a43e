-- ===== src/Storage/Markets/Lookups.antt =====
-- What can be found in the markets storage after a merge.
use crypto_shloma.Prelude.{
  String, List, Option, none, some, ◌≡◌, refl, sym, ◌∙◌, arith, str_eq, eq_iff, if◌then◌else◌, ap,
}
use mathlib.Core.Option
use mathlib.Core.Option.{some-injective}
use crypto_shloma.Qt.{Qt}
use crypto_shloma.Base.Currency
use crypto_shloma.Base.Laws.{create-config, set_config-config, assign_text}
use crypto_shloma.Base.Market.Data.{Market, UserConfig}
use crypto_shloma.Base.Market.Setters as Setters
use crypto_shloma.Base.Market.UserConfig as User
use crypto_shloma.Api.Entry.{MarketEntry}
use crypto_shloma.Storage.Keyed.{lookup, Distinct}
use crypto_shloma.Storage.Keyed.Laws.{key-lookup, lookup-modify, Distinct-filter}
use crypto_shloma.Storage.Keyed.Upsert.{
  after_entry, after_report, lookup-upsert_all, lookup-sync, Distinct-upsert_all,
}
use crypto_shloma.Storage.Markets.{
  MarketsStorage, currency_id, entry_currency_id, market_id, entry_market_id, find_currency_by_id,
  find_market_by_id, make_market, update_market, merge_market_info, merge_market_data,
  merge_currencies, update_market_user_config,
}

module _ ⦃q : Qt⦄ where
  -- No two markets have one id, and no two currencies.
  pub record IsValid (s : MarketsStorage) : Type 0 where
    pub markets : Distinct market_id str_eq s.markets
    pub currencys : Distinct currency_id str_eq s.currencys

  market_id-update : (e : MarketEntry) (m : Market) → market_id (update_market e m) ≡ market_id m
  unfolding Setters.set_config
  market_id-update e m = refl

  market_id-make :
      (s : MarketsStorage) (e : MarketEntry) (m : Market)
      → make_market s e ≡ some m
      → market_id m ≡ entry_market_id e
  unfolding make_market Setters.create Setters.set_currency Setters.set_base_currency
  market_id-make s e m h = ground (arith, assign_text "" e.params.id)

  -- A merge of market information keeps the ids of the markets and of the currencies unique.
  pub merge_market_info-IsValid :
      (s : MarketsStorage) (data' : List MarketEntry)
      → IsValid s
      → IsValid (merge_market_info data' s)
  unfolding merge_market_info
  merge_market_info-IsValid s data' v = record {
    markets =
        Distinct-upsert_all market_id entry_market_id str_eq eq_iff update_market (make_market s)
          market_id-update (market_id-make s) data' _
          (Distinct-filter market_id str_eq eq_iff _ s.markets v.markets);
    currencys = v.currencys;
  }

  -- If no market is reported twice, then after a merge of market information an id finds a market
  -- exactly if it is reported: the stored one with the reported configuration, or else a new one if
  -- both of its currencies are known.
  pub find-merge_market_info :
      (s : MarketsStorage) (data' : List MarketEntry) (id : String)
      → Distinct entry_market_id str_eq data'
      → find_market_by_id (merge_market_info data' s) id
        ≡ after_report update_market
            (make_market s)
            (lookup entry_market_id str_eq id data')
            (find_market_by_id s id)
  unfolding merge_market_info find_market_by_id
  find-merge_market_info s data' id d =
      lookup-sync market_id entry_market_id str_eq eq_iff update_market (make_market s)
        market_id-update (market_id-make s) data' id s.markets d

  -- If no market is reported twice, a merge of market data gives the reported stored markets their
  -- report and adds or removes none.
  pub find-merge_market_data :
      (s : MarketsStorage) (data' : List MarketEntry) (id : String)
      → Distinct entry_market_id str_eq data'
      → find_market_by_id (merge_market_data data' s) id
        ≡ after_entry update_market
            (λ _. none)
            (lookup entry_market_id str_eq id data')
            (find_market_by_id s id)
  unfolding merge_market_data find_market_by_id
  find-merge_market_data s data' id d =
      lookup-upsert_all market_id entry_market_id str_eq eq_iff update_market (λ _. none)
        market_id-update (λ e m h. cc) data' id s.markets d

  currency_id-update :
      (e : Currency.Config) (c : Currency.Currency)
      → currency_id (Currency.set_config e c).0 ≡ currency_id c
  unfolding Currency.set_config
  currency_id-update e c = refl

  currency_id-create :
      (e : Currency.Config) (c : Currency.Currency)
      → ◌≡◌ {A = Option Currency.Currency} (some (Currency.create e)) (some c)
      → currency_id c ≡ entry_currency_id e
  currency_id-create e c h =
      sym (ap currency_id (some-injective _ _ h))
      ∙ ap (λ (config : Currency.Config). config.id) (create-config e)

  -- What the merge makes of a reported currency is the reported configuration.
  merged_currency :
      (e : Option Currency.Config) (old : Option Currency.Currency)
      → ((c : Currency.Currency) (config : Currency.Config)
          → old ≡ some c
          → e ≡ some config
          → c.config.id ≡ config.id)
      → after_report (λ e c. (Currency.set_config e c).0) (λ e. some (Currency.create e)) e old
        ≡ Option.map (λ config. record { config = config }) e
  merged_currency none old h = refl
  merged_currency (some e) none h =
      ap (λ config. some (record { config = config })) (create-config e)
  merged_currency (some e) (some c) h =
      ap (λ config. some (record { config = config })) (set_config-config e c (h c e refl refl))

  -- If no currency is reported twice, then after a merge of currencies an id finds a currency
  -- exactly if it is reported, and then with the reported configuration.
  pub find-merge_currencies :
      (s : MarketsStorage) (data' : List Currency.Config) (id : String)
      → Distinct entry_currency_id str_eq data'
      → find_currency_by_id (merge_currencies data' s) id
        ≡ Option.map
            (λ config. record { config = config })
            (lookup entry_currency_id str_eq id data')
  unfolding merge_currencies find_currency_by_id
  find-merge_currencies s data' id d =
      lookup-sync currency_id entry_currency_id str_eq eq_iff _ _ currency_id-update
        currency_id-create data' id s.currencys d
      ∙ merged_currency _ _ (λ c e p r.
        key-lookup currency_id str_eq eq_iff id s.currencys c p
        ∙ sym (key-lookup entry_currency_id str_eq eq_iff id data' e r))

  market_id-user_config :
      (config : UserConfig) (m : Market) → market_id (User.set_user_config config m).0 ≡ market_id m
  unfolding User.set_user_config
  market_id-user_config config m = refl

  -- Only the market with the id gets the new user configuration.
  pub find-update_market_user_config :
      (s : MarketsStorage) (config : UserConfig) (j id : String)
      → find_market_by_id (update_market_user_config j config s) id ≡ (
          if str_eq j id
          then Option.map (λ m. (User.set_user_config config m).0) (find_market_by_id s id)
          else find_market_by_id s id)
  unfolding update_market_user_config find_market_by_id
  find-update_market_user_config s config j id =
      lookup-modify market_id str_eq eq_iff (λ m. (User.set_user_config config m).0) j id s.markets
        (market_id-user_config config)
