-- ===== src/Algo/Hanukkah/Sessions.antt =====
-- The sessions of `Hanukkah` (src/algo/hanukkah.cpp): the values of a QMap, and the tables they are
-- made from.
use crypto_shloma.Prelude.{String, true, List, Option, some, ◌≡◌, str_eq}
use crypto_shloma.Qt.{Qt}
use crypto_shloma.Algo.Action.{View, table_of, meta_of}
use crypto_shloma.Algo.Hanukkah.{Session, Hanukkah}
use crypto_shloma.Storage.Keyed.{lookup}

module _ ⦃q : Qt⦄ where
  open q use {array_eq, QJsonValue}

  abbrev pub session_key : String × Session → String
  session_key e = e.0

  abbrev pub view_id : View → String
  view_id v = v.market.config.id

  abbrev pub view_table : View → List QJsonValue
  view_table v = table_of (meta_of v)

  -- The session of a market.
  abbrev pub session_of : String → Hanukkah → Option (String × Session)
  session_of k a = lookup session_key str_eq k a.sessions

  -- There is a session made from the table.
  abbrev pub HasTable : List QJsonValue → Option (String × Session) → Type 0
  HasTable table o =
      (e : String × Session) × ((o ≡ some e) × (array_eq e.1.meta_config table ≡ true))
