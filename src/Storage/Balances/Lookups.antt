-- ===== src/Storage/Balances/Lookups.antt =====
-- Lookups in src/storage/balances_storage.cpp and a merge.
use mathlib.Core.Option.{some-injective}
use crypto_shloma.Prelude.{
  String, List, Option, none, some, ◌≡◌, ◌≢◌, refl, ap, subst, arith, str_eq, eq_iff, option_eq,
  option_eq_iff, All,
}
use crypto_shloma.Qt.{Qt}
use crypto_shloma.Base.Balance as Balance
use crypto_shloma.Base.Balance.{Balance}
use crypto_shloma.Base.Currency.{Currency}
use crypto_shloma.Api.Entry.{BalanceEntry}
use crypto_shloma.Storage.Keyed.{lookup, Distinct}
use crypto_shloma.Storage.Keyed.Laws.{key-lookup}
use crypto_shloma.Storage.Keyed.Upsert.{
  after_entry, lookup-upsert_all, Distinct-upsert_all, All-upsert_all,
}
use crypto_shloma.Storage.Markets.{MarketsStorage, find_currency_by_id, currency_id}
use crypto_shloma.Storage.Balances.{
  BalancesStorage, balance_key, entry_key, find, update_balance, balance_of, make_balance, merge,
}

module _ ⦃q : Qt⦄ where
  -- No two balances are of one currency, and each has its currency.
  pub record IsValid (s : BalancesStorage) : Type 0 where
    pub distinct : Distinct balance_key option_eq s.balances
    pub set : All (λ b. b.currency ≢ none) s.balances

  update_balance-key :
      (e : BalanceEntry) (b : Balance) → balance_key (update_balance e b) ≡ balance_key b
  unfolding Balance.set_config
  update_balance-key e b = ground arith

  balance_of-key :
      (e : BalanceEntry) (found : Option Currency) (b : Balance)
      → ((c : Currency) → found ≡ some c → currency_id c ≡ e.currency_id)
      → balance_of e found ≡ some b
      → balance_key b ≡ entry_key e
  unfolding Balance.set_currency
  balance_of-key e none b known h = cc
  balance_of-key e (some c) b known h =
      subst (λ x. balance_key x ≡ entry_key e) (some-injective _ _ h) (ap some (known c refl))

  make_balance-key :
      (markets : MarketsStorage) (e : BalanceEntry) (b : Balance)
      → make_balance markets e ≡ some b
      → balance_key b ≡ entry_key e
  unfolding make_balance find_currency_by_id
  make_balance-key markets e b =
      balance_of-key e _ b (key-lookup currency_id str_eq eq_iff e.currency_id markets.currencys)

  -- If no currency is reported twice, then after a merge a currency finds what its report makes of
  -- its balance: a stored one takes a report that is not older, a missing one is made if the
  -- currency is known, and one without a report stays.
  pub find-merge :
      (markets : MarketsStorage) (data' : List BalanceEntry) (s : BalancesStorage) (id : String)
      → Distinct entry_key option_eq data'
      → find (merge markets data' s) id
        ≡ after_entry update_balance
            (make_balance markets)
            (lookup entry_key option_eq (some id) data')
            (find s id)
  unfolding find merge
  find-merge markets data' s id d =
      lookup-upsert_all balance_key entry_key option_eq option_eq_iff update_balance
        (make_balance markets) update_balance-key (make_balance-key markets) data' (some id)
        s.balances d

  -- A merge keeps one balance for a currency, and no balance without its currency.
  pub merge_balances-IsValid :
      (markets : MarketsStorage) (data' : List BalanceEntry) (s : BalancesStorage)
      → IsValid s
      → IsValid (merge markets data' s)
  unfolding merge
  merge_balances-IsValid markets data' s v = record {
    distinct =
        Distinct-upsert_all balance_key entry_key option_eq option_eq_iff update_balance
          (make_balance markets) update_balance-key (make_balance-key markets) data' s.balances
          v.distinct;
    set =
        All-upsert_all balance_key entry_key option_eq update_balance (make_balance markets)
          (λ b. b.currency ≢ none) (λ e b h. rw (update_balance-key e b) h)
          (λ e b h. rw (make_balance-key markets e b h) (ground arith)) data' s.balances v.set;
  }
