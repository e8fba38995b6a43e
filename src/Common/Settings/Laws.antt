-- ===== src/Common/Settings/Laws.antt =====
-- src/common/settings_manager.cpp: what is read after what was written.
use crypto_shloma.Prelude.{
  String, false, not, [], ◌∷◌, ◌≡◌, ◌≢◌, refl, sym, ap, ap₂, ◌∙◌, find, str_eq, eq_iff, eq_refl,
  if◌then◌else◌, Bool-cases, inl, inr,
}
use crypto_shloma.Qt.{Qt}
use crypto_shloma.Common.Encrypt.{OpenSsl}
use crypto_shloma.Storage.Keyed.{lookup}
use crypto_shloma.Common.Settings.{
  Section, Key, Variants, SettingsManager, Entries, key_path, put, value_or, is_secret, encrypted,
  decrypted, configured, get, set_value,
}
use crypto_shloma.Common.Settings.Paths.{setting, other_path, different}

module _ ⦃q : Qt⦄ ⦃o : OpenSsl⦄ ⦃v : Variants⦄ where
  open v use {QVariant}

  pub value_or-put :
      (d x : QVariant) (p r : String) (es : Entries)
      → value_or d p (put r x es) ≡ (if str_eq r p then x else value_or d p es)
  unfolding value_or put lookup find
  value_or-put d x p r [] = elim (Bool-cases (str_eq r p)) [ inl f ↦ rw f refl | inr f ↦ rw f refl ]
  value_or-put d x p r (e ∷ es) = elim (Bool-cases (str_eq e.0 r)) [
    | inl f ↦ elim (Bool-cases (str_eq r p)) [
      | inl g ↦ rw (f, g) refl
      | inr g ↦ rw (f, g, (eq_iff e.0 r).0 f, g) refl
    ]
    | inr f ↦ elim (Bool-cases (str_eq e.0 p)) [
      | inl g ↦ rw (f, g, sym ((eq_iff e.0 p).0 g), different e.0 r f) refl
      | inr g ↦ rw (f, g) (value_or-put d x p r es)
    ]
  ]

  configured-set_value :
      (k : Key) (s : Section) (x : QVariant) (p : String) (m : SettingsManager)
      → str_eq (key_path s k) p ≡ false
      → configured p (set_value k s x m) ≡ configured p m
  unfolding configured set_value
  configured-set_value k s x p m h =
      let y = if is_secret (key_path s k) then encrypted x else x in
      ap (λ z. if is_secret p then decrypted z else z)
        (value_or-put (value_or v.null_variant p m.defaults) y p (key_path s k) m.conf ∙ rw h refl)

  get_same :
      (k : Key) (s : Section) (x : QVariant) (m : SettingsManager)
      → v.is_null x ≡ false
      → get k s (set_value k s x m) ≡ x
  unfolding get set_value
  get_same k s x m h =
      rw
        (
          value_or-put v.null_variant x (key_path s k) (key_path s k) m.conf_cache,
          eq_refl (key_path s k),
          h,
        )
        refl

  get_other :
      (k j : Key) (s t : Section) (x : QVariant) (m : SettingsManager)
      → setting k s ≢ setting j t
      → get j t (set_value k s x m) ≡ get j t m
  unfolding get set_value
  get_other k j s t x m n =
      let h = other_path k j s t n in
      ap₂ (λ z w. if not (v.is_null z) then z else w)
        (value_or-put v.null_variant x (key_path t j) (key_path s k) m.conf_cache ∙ rw h refl)
        (configured-set_value k s x (key_path t j) m h)

  -- After a setting was set to a value that is not null, it is read as this value, and every other
  -- setting is read as before.
  pub get-set_value :
      (k j : Key) (s t : Section) (x : QVariant) (m : SettingsManager)
      → v.is_null x ≡ false
      → setting k s ≢ setting j t
      → (get k s (set_value k s x m) ≡ x) × (get j t (set_value k s x m) ≡ get j t m)
  get-set_value k j s t x m h n = (get_same k s x m h, get_other k j s t x m n)
