-- ===== src/Tests/Laws.antt =====
-- The concrete platform keeps what the theorems ask of one.
use crypto_shloma.Prelude.{
  eq_ℤ, ℕ, ℤ, ◌==◌, String, true, false, List, [], ◌∷◌, ◌≡◌, refl, ap, arith, str_eq, eq_iff,
  eq_refl,
}
use crypto_shloma.Storage.Orders.Filter.{SortLaws}
use crypto_shloma.Algo.Hanukkah.Json.{JsonLaws}
use crypto_shloma.Tests.Sort.{insertion_sort-perm, insertion_sort-Sorted}
use crypto_shloma.Tests.Platform.{
  Json, Fields, value_of, insert_value, elements, of_elements, object_eq_refl, lists_eq_refl,
  platform,
}

pub same_ℤ : (v : ℤ) → eq_ℤ v v ≡ true
same_ℤ v = ground arith

pub same_date : (d : ℕ) → (d == d) ≡ true
same_date d = ground arith

pub same_object : (o : Fields) → platform.object_eq o o ≡ true
same_object o = object_eq_refl o

pub same_array : (a : List Json) → platform.array_eq a a ≡ true
same_array a = lists_eq_refl a

pub sort_laws : SortLaws
sort_laws = record {
  permutes = λ A before xs. insertion_sort-perm before xs;
  sorted = λ A before xs i t w. insertion_sort-Sorted before i t w xs;
  date_irreflexive = λ a. ground arith;
  date_transitive = λ a b c h k. ground arith;
  date_weak = λ a b c h k. ground arith;
}

value_of-insert_value : (o : Fields) (k : String) (v : Json) → value_of (insert_value o k v) k ≡ v
unfolding value_of insert_value
value_of-insert_value Fields.end k v = ground (arith, eq_refl k)
value_of-insert_value (Fields.field j w r) k v =
    ground (arith, eq_refl k, eq_iff j k, value_of-insert_value r k v)

value_of-insert_other :
    (o : Fields) (k l : String) (v : Json)
    → str_eq k l ≡ false
    → value_of (insert_value o k v) l ≡ value_of o l
unfolding value_of insert_value
value_of-insert_other Fields.end k l v h = ground arith
value_of-insert_other (Fields.field j w r) k l v h =
    ground (arith, eq_iff j k, eq_iff j l, eq_iff k l, value_of-insert_other r k l v h)

elements-of_elements : (l : List Json) → elements (of_elements l) ≡ l
unfolding elements of_elements
elements-of_elements [] = refl
elements-of_elements (x ∷ l) = ap (λ r. x ∷ r) (elements-of_elements l)

pub json_laws : JsonLaws
json_laws = record {
  same_key = value_of-insert_value;
  other_key = value_of-insert_other;
  object_back = λ o. refl;
  array_back = elements-of_elements;
  bool_back = λ b. refl;
  int_back = λ n. refl;
  text_back = λ s. refl;
}
