-- ===== src/Models/BalancesModel.antt =====
-- src/models/balances_model.h and balances_model.cpp.
use crypto_shloma.Prelude.{Bool, List, Option, option_eq}
use crypto_shloma.Qt.{Qt}
use crypto_shloma.Base.Balance as Balance
use crypto_shloma.Base.Balance.{Balance}
use crypto_shloma.Api.Entry.{BalanceEntry}
use crypto_shloma.Storage.Balances.{balance_key, entry_key, balance_of}
use crypto_shloma.Models.Rows.{Rows, upsert_rows}
use crypto_shloma.Models.MarketsModel.{MarketsModel, find_currency_by_id}

module _ ⦃q : Qt⦄ where
  abbrev pub is_newer : BalanceEntry → Balance → Bool
  is_newer e b = q.date_le b.config.timestamp e.params.timestamp

  abbrev pub update_balance : BalanceEntry → Balance → Balance
  update_balance e b = (Balance.set_config e.params b).0

  unfoldable pub make_balance : MarketsModel → BalanceEntry → Option Balance
  make_balance markets e = balance_of e (find_currency_by_id markets e.currency_id)

  -- The rows are `m_Data`.
  unfoldable pub merge : MarketsModel → List BalanceEntry → List Balance → Rows Balance
  unfolding upsert_rows
  merge markets =
      upsert_rows balance_key entry_key option_eq is_newer update_balance (make_balance markets)
