-- ===== src/Common/Settings.antt =====
-- src/common/settings_manager.h and settings_manager.cpp. The locks that guard the only instance are left
-- out: one call is one step.
pub mod Paths
pub mod Laws
pub mod Restart
use crypto_shloma.Prelude.{
  String, Bool, true, false, not, ◌&&◌, ◌||◌, List, [], ◌∷◌, Option, none, some, any, map, find,
  str_eq, is_empty_text, text_of, if◌then◌else◌,
}
use crypto_shloma.Qt.{Qt}
use crypto_shloma.Common.Encrypt.{OpenSsl, encrypt, decrypt, global_app_name}
use crypto_shloma.Storage.Keyed.{lookup}

pub data Section : Type 0 where
  general hanukkah binance : Section

pub data Key : Type 0 where
  trade_base_summ min_spread min_profit min_base_volume min_coin_price trade_difference
        hanukkah_table hanukkah_max_steps binance_enabled binance_api_key binance_secret_key
        enable_test_data :
      Key

-- The names of the enumerators, `QMetaEnum::valueToKey`.
abbrev pub section_name : Section → String
section_name Section.general = "General"
section_name Section.hanukkah = "Hanukkah"
section_name Section.binance = "Binance"

abbrev pub key_name : Key → String
key_name Key.trade_base_summ = "TradeBaseSumm"
key_name Key.min_spread = "MinSpread"
key_name Key.min_profit = "MinProfit"
key_name Key.min_base_volume = "MinBaseVolume"
key_name Key.min_coin_price = "MinCoinPrice"
key_name Key.trade_difference = "TradeDifference"
key_name Key.hanukkah_table = "HanukkahTable"
key_name Key.hanukkah_max_steps = "HanukkahMaxSteps"
key_name Key.binance_enabled = "BinanceEnabled"
key_name Key.binance_api_key = "BinanceAPIKey"
key_name Key.binance_secret_key = "BinanceSecretKey"
key_name Key.enable_test_data = "EnableTestData"

abbrev pub all_sections : List Section
all_sections = Section.general ∷ Section.hanukkah ∷ Section.binance ∷ []

abbrev pub all_keys : List Key
all_keys =
    Key.trade_base_summ ∷ Key.min_spread ∷ Key.min_profit ∷ Key.min_base_volume ∷ Key.min_coin_price
    ∷ Key.trade_difference ∷ Key.hanukkah_table ∷ Key.hanukkah_max_steps ∷ Key.binance_enabled
    ∷ Key.binance_api_key ∷ Key.binance_secret_key ∷ Key.enable_test_data ∷ []

unfoldable pub key_path : Section → Key → String
key_path Section.general k = key_name k
key_path Section.hanukkah k = text_of (section_name Section.hanukkah ∷ "/" ∷ key_name k ∷ [])
key_path Section.binance k = text_of (section_name Section.binance ∷ "/" ∷ key_name k ∷ [])

-- `QVariant`: the null value and its test, the conversions from and to bytes, and what an INI file gives
-- back of a value.
pub record Variants : Type 1 where
  pub QVariant : Type 0
  pub null_variant : QVariant
  pub is_null : QVariant → Bool
  pub of_bytes : String → QVariant
  pub to_bytes : QVariant → String
  pub of_text : String → QVariant
  pub stored : QVariant → QVariant

-- What `rxRecord` captures of a line of the defaults: path, section, key and value.
pub record Captured : Type 0 where
  pub path : String
  pub section : String
  pub key : String
  pub value : String

module _ ⦃q : Qt⦄ ⦃o : OpenSsl⦄ ⦃v : Variants⦄ where
  open v use {QVariant}

  -- A `QMap` or the entries of `QSettings`: a path stands once.
  abbrev pub Entries : Type 0
  Entries = List (String × QVariant)

  unfoldable pub put : String → QVariant → Entries → Entries
  put p x [] = (p, x) ∷ []
  put p x (e ∷ es) = if str_eq e.0 p then (p, x) ∷ es else e ∷ put p x es

  abbrev or_else : QVariant → Option (String × QVariant) → QVariant
  or_else x none = x
  or_else x (some e) = e.1

  -- `value` with a value for a missing path.
  unfoldable pub value_or : QVariant → String → Entries → QVariant
  unfolding lookup
  value_or x p es = or_else x (lookup (λ e. e.0) str_eq p es)

  -- `defaults`, `conf_cache` and `conf`.
  pub record SettingsManager : Type 0 where
    pub defaults : Entries
    pub conf_cache : Entries
    pub conf : Entries

  -- A path that contains the word key is that of a secret.
  abbrev pub is_secret : String → Bool
  is_secret path = q.contains_ignoring_case path "key"

  abbrev pub encrypted : QVariant → QVariant
  encrypted x = v.of_bytes (encrypt (v.to_bytes x) global_app_name)

  abbrev pub decrypted : QVariant → QVariant
  decrypted x = v.of_bytes (decrypt (v.to_bytes x) global_app_name)

  -- `conf.value(key, defaults[key])`, decrypted if it is a secret.
  unfoldable pub configured : String → SettingsManager → QVariant
  unfolding value_or encrypt decrypt
  configured path s =
      let x = value_or (value_or v.null_variant path s.defaults) path s.conf in
      if is_secret path then decrypted x else x

  unfoldable pub get : Key → Section → SettingsManager → QVariant
  unfolding key_path value_or configured
  get k section s =
      let path = key_path section k in
      let cached = value_or v.null_variant path s.conf_cache in
      if not (v.is_null cached) then cached else configured path s

  unfoldable pub set_value : Key → Section → QVariant → SettingsManager → SettingsManager
  unfolding key_path put encrypt
  set_value k section x s =
      let path = key_path section k in
      record s {
        conf_cache = put path x s.conf_cache;
        conf = put path (if is_secret path then encrypted x else x) s.conf;
      }

  abbrev pub is_known_key : String → Bool
  is_known_key name = any (λ k. str_eq (key_name k) name) all_keys

  abbrev pub is_known_section : String → Bool
  is_known_section name = is_empty_text name || any (λ s. str_eq (section_name s) name) all_sections

  -- The loop over the lines that match.
  unfoldable pub read_defaults : (String → String) → List Captured → Entries → Entries
  unfolding put
  read_defaults remove_backslashes [] es = es
  read_defaults remove_backslashes (c ∷ cs) es =
      let rest = read_defaults remove_backslashes cs in
      if is_known_key c.key && is_known_section c.section
      then rest (put c.path (v.of_text (remove_backslashes c.value)) es)
      else rest es

  -- The loop over `conf.allKeys()`.
  unfoldable pub fill_cache : Entries → SettingsManager → SettingsManager
  unfolding put configured
  fill_cache [] s = s
  fill_cache (e ∷ es) s =
      fill_cache es (record s { conf_cache = put e.0 (configured e.0 s) s.conf_cache })

  unfoldable pub set_defaults :
      (String → String) → List Captured → SettingsManager → SettingsManager
  unfolding read_defaults fill_cache
  set_defaults remove_backslashes cs s =
      fill_cache s.conf (record s { defaults = read_defaults remove_backslashes cs s.defaults })

  -- `drop`, and the instance that the next call makes from the file.
  unfoldable pub restart : SettingsManager → SettingsManager
  restart s = record {
    defaults = [];
    conf_cache = [];
    conf = map (λ e. (e.0, v.stored e.1)) s.conf;
  }
