-- ===== src/Base/Currency.antt =====
-- src/base/currency.h and currency.cpp.
use crypto_shloma.Prelude.{String, Bool, not, str_eq}
use crypto_shloma.Base.Method.{Method, ◌>>◌, assign, emit}

pub data StatusListing : Type 0 where
  active delisting : StatusListing

pub data Status : Type 0 where
  ok maintenance no_connections offline : Status

abbrev pub listing_eq : StatusListing → StatusListing → Bool
listing_eq StatusListing.active StatusListing.active = Bool.true
listing_eq StatusListing.delisting StatusListing.delisting = Bool.true
listing_eq _ _ = Bool.false

abbrev pub status_eq : Status → Status → Bool
status_eq Status.ok Status.ok = Bool.true
status_eq Status.maintenance Status.maintenance = Bool.true
status_eq Status.no_connections Status.no_connections = Bool.true
status_eq Status.offline Status.offline = Bool.true
status_eq _ _ = Bool.false

pub record Config : Type 0 where
  pub id : String
  pub name : String
  pub status_message : String
  pub listing_status : StatusListing
  pub status : Status

-- A `Currency` object is its `m_config`.
pub record Currency : Type 0 where
  pub config : Config

pub data Signal : Type 0 where
  name_changed status_changed id_changed listing_status_changed : Signal

abbrev pub default_config : Config
default_config = record {
  id = "";
  name = "";
  status_message = "";
  listing_status = StatusListing.active;
  status = Status.ok;
}

unfoldable pub set_id : String → Method Currency Signal
set_id value c =
    let changed = not (str_eq c.config.id value) in
    (
      record c { config = record (c.config) { id = assign changed c.config.id value } },
      emit changed Signal.id_changed,
    )

unfoldable pub set_name : String → Method Currency Signal
set_name value c =
    let changed = not (str_eq c.config.name value) in
    (
      record c { config = record (c.config) { name = assign changed c.config.name value } },
      emit changed Signal.name_changed,
    )

-- The source emits `statusChanged` for the message as well.
unfoldable pub set_status_message : String → Method Currency Signal
set_status_message value c =
    let changed = not (str_eq c.config.status_message value) in
    (
      record c {
        config = record (c.config) {
          status_message = assign changed c.config.status_message value;
        };
      },
      emit changed Signal.status_changed,
    )

unfoldable pub set_listing_status : StatusListing → Method Currency Signal
set_listing_status value c =
    let changed = not (listing_eq c.config.listing_status value) in
    (
      record c {
        config = record (c.config) {
          listing_status = assign changed c.config.listing_status value;
        };
      },
      emit changed Signal.listing_status_changed,
    )

unfoldable pub set_status : Status → Method Currency Signal
set_status value c =
    let changed = not (status_eq c.config.status value) in
    (
      record c { config = record (c.config) { status = assign changed c.config.status value } },
      emit changed Signal.status_changed,
    )

unfoldable pub set_config : Config → Method Currency Signal
unfolding set_name set_status_message set_status set_listing_status
set_config config = do
  set_name config.name
  set_status_message config.status_message
  set_status config.status
  set_listing_status config.listing_status

-- `Currency(const Config &)`: the constructor's object, its signals reach nobody.
unfoldable pub create : Config → Currency
unfolding set_id set_config
create config = ((set_id config.id >> set_config config) (record { config = default_config })).0
