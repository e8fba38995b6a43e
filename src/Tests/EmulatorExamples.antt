-- ===== src/Tests/EmulatorExamples.antt =====
-- The theorems on the emulator at concrete inputs.
use crypto_shloma.Prelude.{String, true, List, [], ◌∷◌, some, ◌≡◌, refl, find, not}
use crypto_shloma.Base.Order.{OrderType}
use crypto_shloma.Base.Balance as Balance
use crypto_shloma.Base.Balance.{Balance}
use crypto_shloma.Storage.Balances.{BalancesStorage}
use crypto_shloma.Storage.Markets.{find_currency_by_id}
use crypto_shloma.Api.Hub.{Hub}
use crypto_shloma.Emulator.{summed, read_lines}
use crypto_shloma.Emulator.Laws.{
  read_lines_lem, is_none, is_whole, lacks_fields, taken, emulated, balance, emulated_purchase_lem,
  purchase_without_base,
}
use crypto_shloma.Tests.Platform.{platform}
use crypto_shloma.Tests.Data.{dollar, storages}

abbrev lines : List String
lines = "101,2,99,3" ∷ "102,2" ∷ "103,2,99,3" ∷ []

read_lines_lem_example :
    is_none (read_lines "BTCUSD" lines) ≡ lacks_fields (find (λ l. not (is_whole l)) lines)
read_lines_lem_example = read_lines_lem "BTCUSD" lines

-- The file of the example is read out of range.
lines_test : is_none (read_lines "BTCUSD" lines) ≡ true
unfolding read_lines
lines_test = refl

abbrev coins : Balance
coins = record {
  currency = some "BTC";
  config = record Balance.default_config {
    timestamp = 3;
    total = platform.literal 2 0;
    available = platform.literal 2 0;
  };
}

abbrev dollars : Balance
dollars = record coins {
  currency = some "USD";
  config = record (coins.config) {
    total = platform.literal 500 0;
    available = platform.literal 500 0;
  };
}

abbrev hub_with : List Balance → Hub
hub_with bs = record {
  storages = record storages { balances = record { balances = bs } };
  queue = [];
}

abbrev price : platform.Qreal
price = platform.literal 100 0

abbrev volume : platform.Qreal
volume = platform.literal 1 0

emulated_purchase_lem_example :
    (balance "BTC"
        (emulated 9 "BTCUSD" 4 OrderType.buy price price volume (hub_with (coins ∷ dollars ∷ [])))
      ≡ some (taken (summed 9 "BTC" (platform.literal 0 0) (platform.literal 3 0)) coins))
    × (balance "USD"
          (emulated 9 "BTCUSD" 4 OrderType.buy price price volume (hub_with (coins ∷ dollars ∷ [])))
        ≡ some (taken (summed 9 "USD" (platform.literal 0 0) (platform.literal 400 0)) dollars))
unfolding crypto_shloma.Storage.Balances.find
emulated_purchase_lem_example =
    emulated_purchase_lem 9 "BTCUSD" 4 price price volume (hub_with (coins ∷ dollars ∷ [])) refl
      refl coins dollars refl refl refl refl

purchase_without_base_example :
    balance "USD" (emulated 9 "BTCUSD" 4 OrderType.buy price price volume (hub_with (coins ∷ [])))
    ≡ some (
        Balance.set_currency
          (some "USD")
          (Balance.create (summed 9 "USD" (platform.literal 0 0) price).params))
unfolding crypto_shloma.Storage.Balances.find find_currency_by_id
purchase_without_base_example =
    purchase_without_base 9 "BTCUSD" 4 price price volume (hub_with (coins ∷ [])) refl refl
      (record { config = dollar }) refl refl
