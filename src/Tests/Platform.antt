-- ===== src/Tests/Platform.antt =====
-- A concrete platform: decimals with eight places for `qreal`, numbers for dates, trees for JSON.
use crypto_shloma.Prelude.{
  ℕ, ◌+◌, ◌*◌, ◌^◌, ℤ, pos, negsuc, pos_part, neg_part, sub_ℕ, leb_ℤ, ltb_ℤ, eq_ℤ, ltb, leb, ◌==◌,
  String, str_eq, Bool, true, false, ◌&&◌, bool_eq, List, [], ◌∷◌, ◌≡◌, refl, arith, if◌then◌else◌,
  eq_refl, not, ◌||◌, is_empty_text,
}
use Prim.Native.Nat.{◌/◌, ◌-◌}
use Prim.Native.Char.{code}
use crypto_shloma.Qt.{Qt}
use crypto_shloma.Tests.Sort.{insertion_sort}

abbrev one : ℕ
one = 100000000

-- An integer from a size and a sign.
abbrev signed : Bool → ℕ → ℤ
signed true n = sub_ℕ 0 n
signed false n = pos n

abbrev negative : ℤ → Bool
negative (pos n) = false
negative (negsuc n) = true

abbrev size : ℤ → ℕ
size a = pos_part a + neg_part a

abbrev opposite : ℤ → ℤ
opposite a = sub_ℕ (neg_part a) (pos_part a)

abbrev differ : Bool → Bool → Bool
differ true b = if b then false else true
differ false b = b

mutual
  pub data Json : Type 0 where
    null : Json
    int : ℤ → Json
    real : ℤ → Json
    boolean : Bool → Json
    text : String → Json
    array : Elements → Json
    object : Fields → Json

  pub data Elements : Type 0 where
    nil : Elements
    cons : Json → Elements → Elements

  pub data Fields : Type 0 where
    end : Fields
    field : String → Json → Fields → Fields

mutual
  pub json_eq : Json → Json → Bool
  json_eq null null = true
  json_eq (int a) (int b) = eq_ℤ a b
  json_eq (real a) (real b) = eq_ℤ a b
  json_eq (boolean a) (boolean b) = bool_eq a b
  json_eq (text a) (text b) = str_eq a b
  json_eq (array a) (array b) = elements_eq a b
  json_eq (object a) (object b) = fields_eq a b
  json_eq _ _ = false

  pub elements_eq : Elements → Elements → Bool
  elements_eq nil nil = true
  elements_eq (cons a r) (cons b s) = json_eq a b && elements_eq r s
  elements_eq _ _ = false

  pub fields_eq : Fields → Fields → Bool
  fields_eq end end = true
  fields_eq (field k a r) (field l b s) = str_eq k l && (json_eq a b && fields_eq r s)
  fields_eq _ _ = false

mutual
  unfolding json_eq elements_eq fields_eq

  json_eq_refl : (a : Json) → json_eq a a ≡ true
  json_eq_refl null = refl
  json_eq_refl (int a) = ground arith
  json_eq_refl (real a) = ground arith
  json_eq_refl (boolean a) = ground arith
  json_eq_refl (text a) = eq_refl a
  json_eq_refl (array a) = elements_eq_refl a
  json_eq_refl (object a) = fields_eq_refl a

  elements_eq_refl : (a : Elements) → elements_eq a a ≡ true
  elements_eq_refl nil = refl
  elements_eq_refl (cons a r) = ground (arith, json_eq_refl a, elements_eq_refl r)

  fields_eq_refl : (a : Fields) → fields_eq a a ≡ true
  fields_eq_refl end = refl
  fields_eq_refl (field k a r) = ground (arith, eq_refl k, json_eq_refl a, fields_eq_refl r)

pub object_eq_refl : (a : Fields) → fields_eq a a ≡ true
object_eq_refl a = fields_eq_refl a

unfoldable pub value_of : Fields → String → Json
value_of end k = null
value_of (field j v r) k = if str_eq j k then v else value_of r k

unfoldable pub insert_value : Fields → String → Json → Fields
insert_value end k v = field k v end
insert_value (field j w r) k v = if str_eq j k then field k v r else field j w (insert_value r k v)

unfoldable pub elements : Elements → List Json
elements nil = []
elements (cons a r) = a ∷ elements r

unfoldable pub of_elements : List Json → Elements
of_elements [] = nil
of_elements (a ∷ r) = cons a (of_elements r)

abbrev to_int_of : Json → ℤ
to_int_of (int a) = a
to_int_of _ = pos 0

abbrev to_real_of : Json → ℤ
to_real_of (real a) = a
to_real_of _ = pos 0

abbrev to_bool_of : Json → Bool
to_bool_of (boolean b) = b
to_bool_of _ = false

abbrev to_text_of : Json → String
to_text_of (text s) = s
to_text_of _ = ""

abbrev to_elements_of : Json → Elements
to_elements_of (array a) = a
to_elements_of _ = nil

abbrev to_fields_of : Json → Fields
to_fields_of (object a) = a
to_fields_of _ = end

pub lists_eq : List Json → List Json → Bool
lists_eq a b = elements_eq (of_elements a) (of_elements b)

pub lists_eq_refl : (a : List Json) → lists_eq a a ≡ true
unfolding lists_eq
lists_eq_refl a = elements_eq_refl (of_elements a)

-- The texts of dates are not read in the examples but for the empty one and "1970".
abbrev date_of_text : String → ℕ
date_of_text s = if str_eq s "" then 0 else 5

abbrev no_fields : Fields → Bool
no_fields end = true
no_fields (field k v r) = false

-- Only whole numbers are read.
abbrev digits : ℕ → String → ℕ
digits n String.[] = n
digits n (String.◌∷◌ c s) = digits (n * 10 + code c - 48) s

abbrev take_text : ℕ → String → String
take_text ℕ.zero s = ""
take_text (ℕ.suc n) String.[] = ""
take_text (ℕ.suc n) (String.◌∷◌ c s) = String.◌∷◌ c (take_text n s)

abbrev drop_text : ℕ → String → String
drop_text ℕ.zero s = s
drop_text (ℕ.suc n) String.[] = ""
drop_text (ℕ.suc n) (String.◌∷◌ c s) = drop_text n s

abbrev starts_with : String → ℕ → Bool
starts_with String.[] n = false
starts_with (String.◌∷◌ c s) n = code c == n

-- Texts are ordered by their first characters.
abbrev starts_below : String → String → Bool
starts_below String.[] String.[] = false
starts_below String.[] (String.◌∷◌ d t) = true
starts_below (String.◌∷◌ c s) String.[] = false
starts_below (String.◌∷◌ c s) (String.◌∷◌ d t) = ltb (code c) (code d)

abbrev fold_case : ℕ → ℕ
fold_case n = if leb 65 n && leb n 90 then n + 32 else n

abbrev begins_with : String → String → Bool
begins_with s String.[] = true
begins_with String.[] (String.◌∷◌ d t) = false
begins_with (String.◌∷◌ c s) (String.◌∷◌ d t) =
    fold_case (code c) == fold_case (code d) && begins_with s t

abbrev has_part : String → String → Bool
has_part String.[] t = begins_with String.[] t
has_part (String.◌∷◌ c s) t = begins_with (String.◌∷◌ c s) t || has_part s t

abbrev put_front : String → List String → List String
put_front s [] = s ∷ []
put_front String.[] ps = ps
put_front (String.◌∷◌ c s) (p ∷ ps) = String.◌∷◌ c p ∷ ps

-- The separator is one character.
abbrev split_text : String → String → List String
split_text String.[] part = "" ∷ []
split_text (String.◌∷◌ c s) part =
    let rest = split_text s part in
    if starts_with part (code c) then "" ∷ rest else put_front (String.◌∷◌ c "") rest

instance abbrev pub platform : Qt
platform = record {
  Qreal = ℤ;
  literal = λ m e. pos (m * one / 10 ^ e);
  add = λ a b. sub_ℕ (pos_part a + pos_part b) (neg_part a + neg_part b);
  sub = λ a b. sub_ℕ (pos_part a + neg_part b) (neg_part a + pos_part b);
  mul = λ a b. signed (differ (negative a) (negative b)) (size a * size b / one);
  div = λ a b. signed (differ (negative a) (negative b)) (size a * one / size b);
  neg = opposite;
  floor = λ a. signed (negative a) (size a / one * one);
  ceil = λ a. signed (negative a) ((size a + 99999999) / one * one);
  fabs = λ a. pos (size a);
  truncate = λ a. signed (negative a) (size a / one * one);
  lt = ltb_ℤ;
  le = leb_ℤ;
  fuzzy_compare = eq_ℤ;
  fuzzy_is_null = λ a. eq_ℤ a (pos 0);
  QDateTime = ℕ;
  null_date = 0;
  date_is_null = λ d. d == 0;
  date_is_valid = λ d. ltb 0 d;
  date_eq = ◌==◌;
  date_lt = ltb;
  date_le = leb;
  date_of_iso = date_of_text;
  date_to_iso = λ d. if d == 0 then "" else "1970";
  date_of_msecs = pos_part;
  QJsonObject = Fields;
  QJsonValue = Json;
  object_eq = fields_eq;
  array_eq = lists_eq;
  empty_object = end;
  value = value_of;
  insert = insert_value;
  to_int = to_int_of;
  to_double = to_real_of;
  to_bool = to_bool_of;
  to_string = to_text_of;
  to_array = λ v. elements (to_elements_of v);
  to_object = λ v. to_fields_of v;
  of_int = int;
  of_bool = boolean;
  of_string = text;
  of_array = λ l. array (of_elements l);
  of_object = object;
  to_u64 = λ v. pos_part (to_int_of v);
  to_i64 = to_int_of;
  to_i32 = to_int_of;
  object_is_empty = no_fields;
  undefined = null;
  text_to_double = λ s. pos (digits 0 s * one);
  text_to_int = λ s. pos (digits 0 s);
  number8 = λ a. if eq_ℤ a (pos 0) then "0" else "1";
  number = λ a. if eq_ℤ a (pos 0) then "0" else "1";
  to_lower = λ s. s;
  to_upper = λ s. s;
  contains = str_eq;
  mid = λ s i n. take_text n (drop_text i s);
  split = split_text;
  first_part = λ s part. s;
  stored_double = λ x. x;
  stored_object = λ o. o;
  signature = λ s k. k;
  equal_ignoring_case = str_eq;
  contains_ignoring_case = λ s t. has_part s t;
  text_lt = λ s t. starts_below s t;
  url_is_valid = λ s. not (is_empty_text s);
  url_is_empty = λ s. is_empty_text s;
  proxy_sort = λ (A : Type 0) before. insertion_sort before;
  sort = λ (A : Type 0) before. insertion_sort before;
}
