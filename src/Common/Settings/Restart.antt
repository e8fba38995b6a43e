-- ===== src/Common/Settings/Restart.antt =====
-- src/common/settings_manager.cpp: what is read after a restart, and the defaults.
use crypto_shloma.Prelude.{
  String, Bool, true, false, not, List, [], ◌∷◌, ◌≡◌, refl, sym, ap, ◌∙◌, map, find, str_eq, eq_iff,
  eq_refl, if◌then◌else◌, if-cases, Bool-cases, inl, inr, subst, ◌⊎◌,
}
use crypto_shloma.Qt.{Qt}
use crypto_shloma.Common.Encrypt.{OpenSsl, encrypt, decrypt, global_app_name}
use crypto_shloma.Storage.Keyed.{lookup}
use crypto_shloma.Common.Settings.{
  Section, Key, Variants, Captured, SettingsManager, Entries, key_path, put, value_or, is_secret,
  encrypted, decrypted, configured, get, set_value, read_defaults, fill_cache, set_defaults,
  restart,
}
use crypto_shloma.Common.Settings.Laws.{value_or-put}

module _ ⦃q : Qt⦄ ⦃o : OpenSsl⦄ ⦃v : Variants⦄ where
  open v use {QVariant}

  -- What is asked of OpenSSL and of QSettings: decryption with the same key and start vector gives the
  -- data back, and the file keeps bytes.
  pub record StoreLaws : Type 0 where
    pub decrypts : (k iv d : String) → o.decrypt_aes k iv (o.encrypt_aes k iv d) ≡ d
    pub keeps_bytes : (b : String) → v.to_bytes (v.stored (v.of_bytes b)) ≡ b

  -- Filling the cache changes nothing else.
  configured-fill_cache :
      (p : String) (es : Entries) (m : SettingsManager)
      → configured p (fill_cache es m) ≡ configured p m
  unfolding configured fill_cache
  configured-fill_cache p [] m = refl
  configured-fill_cache p (e ∷ es) m =
      configured-fill_cache p es (record m { conf_cache = put e.0 (configured e.0 m) m.conf_cache })

  -- The cache has for a path what is configured, or nothing.
  abbrev Cached : String → SettingsManager → Type 0
  Cached p m =
      (value_or v.null_variant p m.conf_cache ≡ configured p m)
      ⊎ (value_or v.null_variant p m.conf_cache ≡ v.null_variant)

  put-Cached :
      (p r : String) (m : SettingsManager)
      → Cached p m
      → Cached p (record m { conf_cache = put r (configured r m) m.conf_cache })
  unfolding configured
  put-Cached p r m h = elim (Bool-cases (str_eq r p)) [
    | inl e ↦ inl (
        value_or-put v.null_variant (configured r m) p r m.conf_cache
        ∙ rw (e, (eq_iff r p).0 e) refl)
    | inr e ↦
        subst (λ z. (z ≡ configured p m) ⊎ (z ≡ v.null_variant))
          (sym (value_or-put v.null_variant (configured r m) p r m.conf_cache ∙ rw e refl)) h
  ]

  fill_cache-Cached :
      (p : String) (es : Entries) (m : SettingsManager) → Cached p m → Cached p (fill_cache es m)
  unfolding fill_cache
  fill_cache-Cached p [] m h = h
  fill_cache-Cached p (e ∷ es) m h = fill_cache-Cached p es _ (put-Cached p e.0 m h)

  get-Cached :
      (k : Key) (s : Section) (m : SettingsManager)
      → v.is_null v.null_variant ≡ true
      → Cached (key_path s k) m
      → get k s m ≡ configured (key_path s k) m
  unfolding get
  get-Cached k s m n (inl e) = rw e (
      if-cases (λ z. z ≡ configured (key_path s k) m)
        (not (v.is_null (configured (key_path s k) m))) (λ _. refl) (λ _. refl))
  get-Cached k s m n (inr e) = rw (e, n) refl

  value_or-stored :
      (d x : QVariant) (p : String) (es : Entries)
      → value_or d p (map (λ e. (e.0, v.stored e.1)) (put p x es)) ≡ v.stored x
  unfolding value_or put lookup find
  value_or-stored d x p [] = rw (eq_refl p) refl
  value_or-stored d x p (e ∷ es) = elim (Bool-cases (str_eq e.0 p)) [
    | inl f ↦ rw (f, eq_refl p) refl
    | inr f ↦ rw (f, f) (value_or-stored d x p es)
  ]

  get-set_defaults :
      (k : Key) (s : Section) (remove_backslashes : String → String) (cs : List Captured)
      (m : SettingsManager)
      → v.is_null v.null_variant ≡ true
      → m.conf_cache ≡ []
      → get k s (set_defaults remove_backslashes cs m)
        ≡ configured
            (key_path s k)
            (record m { defaults = read_defaults remove_backslashes cs m.defaults })
  unfolding set_defaults value_or lookup find
  get-set_defaults k s remove_backslashes cs m n e =
      let r = record m { defaults = read_defaults remove_backslashes cs m.defaults } in
      get-Cached k s (fill_cache m.conf r) n (
        fill_cache-Cached (key_path s k) m.conf r
          (inr (ap (value_or v.null_variant (key_path s k)) e)))
      ∙ configured-fill_cache (key_path s k) m.conf r

  read_back :
      StoreLaws → (x : QVariant) → decrypted (v.stored (encrypted x)) ≡ v.of_bytes (v.to_bytes x)
  unfolding encrypt decrypt
  read_back laws x =
      ap v.of_bytes (
        ap (λ b. decrypt b global_app_name) (laws.keeps_bytes _) ∙ laws.decrypts _ _ (v.to_bytes x))

  stored_setting :
      StoreLaws
      → (b : Bool) (x : QVariant)
      → (if b
          then decrypted (v.stored (if b then encrypted x else x))
          else v.stored (if b then encrypted x else x))
        ≡ (if b then v.of_bytes (v.to_bytes x) else v.stored x)
  stored_setting laws true x = read_back laws x
  stored_setting laws false x = refl

  -- Given that decryption undoes encryption and that the file keeps bytes: a setting that was set
  -- is read after a restart, whatever the defaults, as the bytes of its value if it is a secret,
  -- and otherwise as the file gives its value back.
  pub get-restart :
      StoreLaws
      → v.is_null v.null_variant ≡ true
      → (k : Key) (s : Section) (x : QVariant) (m : SettingsManager)
        (remove_backslashes : String → String) (cs : List Captured)
      → get k s (set_defaults remove_backslashes cs (restart (set_value k s x m)))
        ≡ (if is_secret (key_path s k) then v.of_bytes (v.to_bytes x) else v.stored x)
  unfolding restart set_value configured
  get-restart laws n k s x m remove_backslashes cs =
      let p = key_path s k in
      let b = is_secret p in
      get-set_defaults k s remove_backslashes cs (restart (set_value k s x m)) n refl
      ∙ ap (λ z. if b then decrypted z else z)
          (value_or-stored (value_or v.null_variant p (read_defaults remove_backslashes cs []))
            (if b then encrypted x else x) p m.conf)
      ∙ stored_setting laws b x
