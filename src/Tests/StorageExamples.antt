-- ===== src/Tests/StorageExamples.antt =====
-- The theorems on src/base, src/api and the storages of markets and balances at concrete inputs.
use crypto_shloma.Prelude.{true, false, [], ◌∷◌, ◌≡◌, refl, str_eq}
use crypto_shloma.Base.Market.UserConfig as User
use crypto_shloma.Base.Order.{OrderType}
use crypto_shloma.Base.Laws.{set_user_config_lem}
use crypto_shloma.Api.TemporaryOrders.{OrderRecord, submit_order, update_place_order, erase_order}
use crypto_shloma.Api.TemporaryOrders.Laws as Temporary
use crypto_shloma.Storage.Keyed.{lookup}
use crypto_shloma.Storage.Keyed.Upsert.{after_report}
use crypto_shloma.Storage.Markets as Markets
use crypto_shloma.Storage.Markets.Lookups as Lookups
use crypto_shloma.Storage.Balances as Balances
use crypto_shloma.Tests.Platform.{platform}
use crypto_shloma.Tests.Laws.{same_ℤ, same_date, same_object}
use crypto_shloma.Tests.Data.{user_config, market, market_entry, markets}

abbrev waiting : OrderRecord
waiting = record {
  market_id = "BTCUSD";
  order_id = 0;
  order_type = OrderType.buy;
  volume = platform.literal 2 0;
  base_volume = platform.literal 200 0;
  price = platform.literal 100 0;
  timestamp = 1;
}

abbrev confirmed : OrderRecord
confirmed = record waiting { order_id = 17; timestamp = 2 }

run-IsValid_example : Temporary.IsValid (
    Temporary.run [] (
      Temporary.Call.submits waiting
      ∷ Temporary.Call.submits waiting
      ∷ Temporary.Call.places confirmed
      ∷ []))
run-IsValid_example = Temporary.run-IsValid (
    Temporary.Call.submits waiting
    ∷ Temporary.Call.submits waiting
    ∷ Temporary.Call.places confirmed
    ∷ [])

submit-place-erase_example :
    erase_order 17 (update_place_order confirmed (submit_order waiting []).0) ≡ []
submit-place-erase_example = Temporary.submit-place-erase waiting confirmed [] refl refl refl refl

set_user_config_lem_example :
    (platform.date_is_null user_config.last_rate_update_time ≡ false
      → platform.fuzzy_is_null user_config.trade_summ ≡ false
      → User.user_config_eq (User.set_user_config user_config market).0.user_config user_config
        ≡ true)
    × (platform.fuzzy_is_null user_config.trade_summ ≡ true
        → (User.set_user_config user_config market).0.user_config.trade_summ
          ≡ user_config.trade_summ)
set_user_config_lem_example = set_user_config_lem user_config market (record {
  min_trend = same_ℤ user_config.min_trend;
  current_trend_rate = same_ℤ user_config.current_trend_rate;
  percentage_profit = same_ℤ user_config.percentage_profit;
  trade_summ = same_ℤ user_config.trade_summ;
  date = same_date user_config.last_rate_update_time;
  meta_config = same_object user_config.meta_config;
})

find-merge_market_info_example :
    Markets.find_market_by_id (Markets.merge_market_info (market_entry ∷ []) markets) "BTCUSD"
    ≡ after_report Markets.update_market
        (Markets.make_market markets)
        (lookup Markets.entry_market_id str_eq "BTCUSD" (market_entry ∷ []))
        (Markets.find_market_by_id markets "BTCUSD")
find-merge_market_info_example =
    Lookups.find-merge_market_info markets (market_entry ∷ []) "BTCUSD" (refl, tt)

abbrev no_balances : Balances.BalancesStorage
no_balances = record { balances = [] }
