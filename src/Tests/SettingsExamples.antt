-- ===== src/Tests/SettingsExamples.antt =====
-- The theorems on src/common at concrete inputs.
use crypto_shloma.Prelude.{String, Bool, true, false, [], ◌∷◌, Option, none, some, ◌≡◌, ◌≢◌, refl}
use crypto_shloma.Common.Encrypt.{OpenSsl}
use crypto_shloma.Common.Settings as Settings
use crypto_shloma.Common.Settings.{
  Section, Key, Variants, Captured, SettingsManager, get, set_value, set_defaults, restart,
}
use crypto_shloma.Common.Settings.Paths.{setting}
use crypto_shloma.Common.Settings.Laws.{get-set_value}
use crypto_shloma.Common.Settings.Restart.{StoreLaws, get-restart}
use crypto_shloma.Tests.Platform.{platform}

abbrev behind : String → String
behind String.[] = ""
behind (String.◌∷◌ c s) = s

-- A cipher that puts a letter before the data.
instance abbrev open_ssl : OpenSsl
open_ssl = record {
  digest = λ s. s;
  to_hex = λ s. s;
  encrypt_aes = λ k iv d. String.◌∷◌ "x" d;
  decrypt_aes = λ k iv d. behind d;
}

abbrev bytes_of : Option String → String
bytes_of none = ""
bytes_of (some s) = s

abbrev is_none : Option String → Bool
is_none none = true
is_none (some s) = false

instance abbrev variants : Variants
variants = record {
  QVariant = Option String;
  null_variant = none;
  is_null = is_none;
  of_bytes = some;
  to_bytes = bytes_of;
  of_text = some;
  stored = λ x. x;
}

abbrev store_laws : StoreLaws
store_laws = record { decrypts = λ k iv d. refl; keeps_bytes = λ b. refl }

abbrev manager : SettingsManager
manager = record {
  defaults = ("MinProfit", some "1") ∷ [];
  conf_cache = [];
  conf = ("Binance/BinanceAPIKey", some "xold") ∷ ("MinProfit", some "2") ∷ [];
}

other_setting : setting Key.binance_api_key Section.binance ≢ setting Key.min_profit Section.general
other_setting e = cc

get-set_value_example :
    (get Key.binance_api_key Section.binance
        (set_value Key.binance_api_key Section.binance (some "new") manager)
      ≡ some "new")
    × (get Key.min_profit Section.general
          (set_value Key.binance_api_key Section.binance (some "new") manager)
        ≡ get Key.min_profit Section.general manager)
get-set_value_example =
    get-set_value Key.binance_api_key Key.min_profit Section.binance Section.general (some "new")
      manager refl other_setting

abbrev captured : Captured
captured = record {
  path = "Binance/BinanceAPIKey";
  section = "Binance";
  key = "BinanceAPIKey";
  value = "xxxxxxx";
}

get-restart_example :
    get Key.binance_api_key Section.binance (
      set_defaults
        (λ s. s)
        (captured ∷ [])
        (restart (set_value Key.binance_api_key Section.binance (some "new") manager)))
    ≡ some "new"
unfolding Settings.key_path
get-restart_example =
    get-restart store_laws refl Key.binance_api_key Section.binance (some "new") manager (λ s. s)
      (captured ∷ [])
