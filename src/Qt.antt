-- ===== src/Qt.antt =====
-- What the program takes from Qt and from the processor and does not implement itself: `qreal`
-- (IEEE doubles) with its operations, `QDateTime`, `QJsonObject`, `QString` and `std::sort`. All of
-- it is a parameter of the model.
use crypto_shloma.Prelude.{ℕ, ℤ, String, Bool, List}

pub record Qt : Type 1 where
  -- `qreal`. `literal m e` is the literal m * 10^-e.
  pub Qreal : Type 0
  pub literal : ℕ → ℕ → Qreal
  pub add : Qreal → Qreal → Qreal
  pub sub : Qreal → Qreal → Qreal
  pub mul : Qreal → Qreal → Qreal
  pub div : Qreal → Qreal → Qreal
  pub neg : Qreal → Qreal
  -- `std::floor`, `std::ceil`, `std::fabs`, `static_cast<qint64>` back to `qreal`.
  pub floor : Qreal → Qreal
  pub ceil : Qreal → Qreal
  pub fabs : Qreal → Qreal
  pub truncate : Qreal → Qreal
  -- `a < b` and `a <= b`.
  pub lt : Qreal → Qreal → Bool
  pub le : Qreal → Qreal → Bool
  -- `qFuzzyCompare` and `qFuzzyIsNull`.
  pub fuzzy_compare : Qreal → Qreal → Bool
  pub fuzzy_is_null : Qreal → Bool
  -- `QDateTime`: the null value, `isNull`, `isValid`, `==`, `<`, `<=`, ISO text both ways.
  pub QDateTime : Type 0
  pub null_date : QDateTime
  pub date_is_null : QDateTime → Bool
  pub date_is_valid : QDateTime → Bool
  pub date_eq : QDateTime → QDateTime → Bool
  pub date_lt : QDateTime → QDateTime → Bool
  pub date_le : QDateTime → QDateTime → Bool
  pub date_of_iso : String → QDateTime
  pub date_to_iso : QDateTime → String
  -- `fromMSecsSinceEpoch`.
  pub date_of_msecs : ℤ → QDateTime
  -- `QJsonObject`, with `QJsonValue` and its conversions; a `QJsonArray` is a list of values.
  pub QJsonObject : Type 0
  pub QJsonValue : Type 0
  pub object_eq : QJsonObject → QJsonObject → Bool
  pub array_eq : List QJsonValue → List QJsonValue → Bool
  pub empty_object : QJsonObject
  pub value : QJsonObject → String → QJsonValue
  pub insert : QJsonObject → String → QJsonValue → QJsonObject
  pub to_int : QJsonValue → ℤ
  pub to_double : QJsonValue → Qreal
  pub to_bool : QJsonValue → Bool
  pub to_string : QJsonValue → String
  pub to_array : QJsonValue → List QJsonValue
  pub to_object : QJsonValue → QJsonObject
  pub of_int : ℤ → QJsonValue
  pub of_bool : Bool → QJsonValue
  pub of_string : String → QJsonValue
  pub of_array : List QJsonValue → QJsonValue
  pub of_object : QJsonObject → QJsonValue
  -- `toVariant().toULongLong()`, `toVariant().toLongLong()`, `toVariant().toInt()`, `isEmpty` of an
  -- object, and the value that an array gives out of range.
  pub to_u64 : QJsonValue → ℕ
  pub to_i64 : QJsonValue → ℤ
  pub to_i32 : QJsonValue → ℤ
  pub object_is_empty : QJsonObject → Bool
  pub undefined : QJsonValue
  -- `QString`: `toDouble`, `toInt`, `number(x, 'f', 8)`, `number` of an integer, `toLower`, `toUpper`,
  -- `contains`, `mid`, `split`, and the first part of `split`, which there always is.
  pub text_to_double : String → Qreal
  pub text_to_int : String → ℤ
  pub number8 : Qreal → String
  pub number : ℤ → String
  pub to_lower : String → String
  pub to_upper : String → String
  pub contains : String → String → Bool
  pub mid : String → ℕ → ℕ → String
  pub split : String → String → List String
  pub first_part : String → String → String
  -- A number that `QString::arg` writes into a statement and the database gives back, and an object
  -- that goes there as JSON text.
  pub stored_double : Qreal → Qreal
  pub stored_object : QJsonObject → QJsonObject
  -- `QMessageAuthenticationCode::hash` with SHA-256 in hexadecimal digits: the text and the key.
  pub signature : String → String → String
  -- `QString::compare` with `Qt::CaseInsensitive`, as a test for 0.
  pub equal_ignoring_case : String → String → Bool
  -- `QString::contains` with `Qt::CaseInsensitive`, and `QString::operator<`.
  pub contains_ignoring_case : String → String → Bool
  pub text_lt : String → String → Bool
  -- `QUrl::isValid` and `QUrl::isEmpty` of the address that a text is.
  pub url_is_valid : String → Bool
  pub url_is_empty : String → Bool
  -- The order in which a QSortFilterProxyModel shows rows, from `lessThan` in the order of its sort.
  pub proxy_sort : (A : Type 0) → (A → A → Bool) → List A → List A
  -- `std::sort` with a comparison.
  pub sort : (A : Type 0) → (A → A → Bool) → List A → List A
