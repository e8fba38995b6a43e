-- ===== src/Storage/Balances.antt =====
-- src/storage/balances_storage.cpp.
pub mod Lookups
use crypto_shloma.Prelude.{String, List, Option, none, some, option_eq, if◌then◌else◌}
use crypto_shloma.Qt.{Qt}
use crypto_shloma.Base.Balance as Balance
use crypto_shloma.Base.Balance.{Balance}
use crypto_shloma.Base.Currency.{Currency}
use crypto_shloma.Api.Entry.{BalanceEntry}
use crypto_shloma.Storage.Keyed.{lookup, upsert_all}
use crypto_shloma.Storage.Markets.{MarketsStorage, find_currency_by_id}

module _ ⦃q : Qt⦄ where
  pub record BalancesStorage : Type 0 where
    pub balances : List Balance

  -- The currency is set before a balance is stored, so it is not null where it is read.
  abbrev pub balance_key : Balance → Option String
  balance_key b = b.currency

  abbrev pub entry_key : BalanceEntry → Option String
  entry_key e = some e.currency_id

  unfoldable pub find : BalancesStorage → String → Option Balance
  unfolding lookup
  find s id = lookup balance_key option_eq (some id) s.balances

  -- `CONST_BTC`.
  unfoldable pub btc_balance : BalancesStorage → Option Balance
  unfolding find
  btc_balance s = find s "BTC"

  -- A report that is older than the stored balance is ignored.
  abbrev pub update_balance : BalanceEntry → Balance → Balance
  update_balance e b =
      if q.date_le b.config.timestamp e.params.timestamp
      then (Balance.set_config e.params b).0
      else b

  -- A balance of a currency that is not known is dropped.
  abbrev pub balance_of : BalanceEntry → Option Currency → Option Balance
  balance_of e none = none
  balance_of e (some c) = some (Balance.set_currency (some c.config.id) (Balance.create e.params))

  unfoldable pub make_balance : MarketsStorage → BalanceEntry → Option Balance
  make_balance markets e = balance_of e (find_currency_by_id markets e.currency_id)

  unfoldable pub merge : MarketsStorage → List BalanceEntry → BalancesStorage → BalancesStorage
  unfolding upsert_all
  merge markets data' s = record {
    balances =
        upsert_all balance_key entry_key option_eq update_balance (make_balance markets) data'
          s.balances;
  }
