-- ===== src/Common/Settings/Paths.antt =====
-- src/common/settings_manager.cpp: the path of a setting is its own.
use crypto_shloma.Prelude.{
  String, false, List, [], ◌∷◌, Option, none, some, ◌≡◌, ◌≢◌, refl, sym, ap, ◌∙◌, ◌++◌, arith, map,
  str_eq, eq_iff, if◌then◌else◌, Bool-cases, inl, inr,
}
use crypto_shloma.Common.Settings.{Section, Key, all_keys, key_path}

abbrev paths_of : Section → List (String × (Key × Section))
paths_of s = map (λ k. (key_path s k, (k, s))) all_keys

abbrev read_in : String → List (String × (Key × Section)) → Option (Key × Section)
read_in p [] = none
read_in p (e ∷ es) = if str_eq p e.0 then some e.1 else read_in p es

-- The setting of a path.
unfoldable setting_of : String → Option (Key × Section)
unfolding key_path
setting_of p =
    read_in p (paths_of Section.general ++ paths_of Section.hanukkah ++ paths_of Section.binance)

setting_of-key_path : (k : Key) (s : Section) → setting_of (key_path s k) ≡ some (k, s)
unfolding setting_of key_path
setting_of-key_path Key.trade_base_summ Section.general = refl
setting_of-key_path Key.min_spread Section.general = refl
setting_of-key_path Key.min_profit Section.general = refl
setting_of-key_path Key.min_base_volume Section.general = refl
setting_of-key_path Key.min_coin_price Section.general = refl
setting_of-key_path Key.trade_difference Section.general = refl
setting_of-key_path Key.hanukkah_table Section.general = refl
setting_of-key_path Key.hanukkah_max_steps Section.general = refl
setting_of-key_path Key.binance_enabled Section.general = refl
setting_of-key_path Key.binance_api_key Section.general = refl
setting_of-key_path Key.binance_secret_key Section.general = refl
setting_of-key_path Key.enable_test_data Section.general = refl
setting_of-key_path Key.trade_base_summ Section.hanukkah = refl
setting_of-key_path Key.min_spread Section.hanukkah = refl
setting_of-key_path Key.min_profit Section.hanukkah = refl
setting_of-key_path Key.min_base_volume Section.hanukkah = refl
setting_of-key_path Key.min_coin_price Section.hanukkah = refl
setting_of-key_path Key.trade_difference Section.hanukkah = refl
setting_of-key_path Key.hanukkah_table Section.hanukkah = refl
setting_of-key_path Key.hanukkah_max_steps Section.hanukkah = refl
setting_of-key_path Key.binance_enabled Section.hanukkah = refl
setting_of-key_path Key.binance_api_key Section.hanukkah = refl
setting_of-key_path Key.binance_secret_key Section.hanukkah = refl
setting_of-key_path Key.enable_test_data Section.hanukkah = refl
setting_of-key_path Key.trade_base_summ Section.binance = refl
setting_of-key_path Key.min_spread Section.binance = refl
setting_of-key_path Key.min_profit Section.binance = refl
setting_of-key_path Key.min_base_volume Section.binance = refl
setting_of-key_path Key.min_coin_price Section.binance = refl
setting_of-key_path Key.trade_difference Section.binance = refl
setting_of-key_path Key.hanukkah_table Section.binance = refl
setting_of-key_path Key.hanukkah_max_steps Section.binance = refl
setting_of-key_path Key.binance_enabled Section.binance = refl
setting_of-key_path Key.binance_api_key Section.binance = refl
setting_of-key_path Key.binance_secret_key Section.binance = refl
setting_of-key_path Key.enable_test_data Section.binance = refl

abbrev pub setting : Key → Section → Key × Section
setting k s = (k, s)

some_injective : {A : Type 0} (x y : A) → some x ≡ some y → x ≡ y
some_injective x y e = ap (λ o. elim o [ none ↦ x | some z ↦ z ]) e

key_path_injective :
    (k j : Key) (s t : Section) → key_path s k ≡ key_path t j → setting k s ≡ setting j t
key_path_injective k j s t e =
    some_injective (setting k s) (setting j t)
      (sym (setting_of-key_path k s) ∙ ap setting_of e ∙ setting_of-key_path j t)

pub other_path :
    (k j : Key) (s t : Section)
    → setting k s ≢ setting j t
    → str_eq (key_path s k) (key_path t j) ≡ false
other_path k j s t n = elim (Bool-cases (str_eq (key_path s k) (key_path t j))) [
  | inl e ↦ elim (n (key_path_injective k j s t ((eq_iff (key_path s k) (key_path t j)).0 e))) [ ]
  | inr e ↦ e
]

pub different : (p r : String) → str_eq p r ≡ false → str_eq r p ≡ false
different p r h = ground (arith, eq_iff p r, eq_iff r p)
