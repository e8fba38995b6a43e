-- ===== src/Common/Encrypt.antt =====
-- src/common/encrypt.h and encrypt.cpp. A QByteArray is a text here.
use crypto_shloma.Prelude.{String, text_of, [], ◌∷◌}

-- What OpenSSL and QByteArray do: SHA-256, `toHex`, and AES-256 in CBC mode with a key, a start vector
-- and the data, both ways.
pub record OpenSsl : Type 0 where
  pub digest : String → String
  pub to_hex : String → String
  pub encrypt_aes : String → String → String → String
  pub decrypt_aes : String → String → String → String

-- `GLOBAL_APP_NAME`.
abbrev pub global_app_name : String
global_app_name = "CryptoShloma"

module _ ⦃o : OpenSsl⦄ where
  abbrev pub sha256 : String → String
  sha256 text = o.to_hex (o.digest text)

  unfoldable pub encrypt : String → String → String
  encrypt data' password =
      o.encrypt_aes (sha256 password) (sha256 (text_of (global_app_name ∷ password ∷ []))) data'

  unfoldable pub decrypt : String → String → String
  decrypt data' password =
      o.decrypt_aes (sha256 password) (sha256 (text_of (global_app_name ∷ password ∷ []))) data'
