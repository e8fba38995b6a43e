-- ===== src/Prelude/Tests.antt =====
-- Boolean tests on native numbers and on texts, the conditional, and case splits that keep the
-- equation.
use Prim.Native.Nat.{ℕ, compare, Ordering}
use Prim.Native.String.{String}
use mathlib.Core.Path.{◌≡◌, refl}
use native.Mathlib.Omega.{arith}
use text.Mathlib.TextEquality.{eq_iff}
use mathlib.Core.Logic.{◌↔◌, ◌⊎◌, inl, inr}
use mathlib.Core.Bool.{Bool, true, false, not}
use mathlib.Core.List.{List, [], ◌∷◌}
use mathlib.Core.Option.{Option, none, some}
use text.Mathlib.Text.{◌==◌ as text_eq}
use Prim.Native.String.{◌++◌ as append_text}

abbrev pub ltb : ℕ → ℕ → Bool
ltb a b = elim (compare a b) [ Ordering.lt ↦ true | _ ↦ false ]

abbrev pub leb : ℕ → ℕ → Bool
leb a b = elim (compare a b) [ Ordering.gt ↦ false | _ ↦ true ]

infix 50 ◌==◌
abbrev pub ◌==◌ : ℕ → ℕ → Bool
a == b = elim (compare a b) [ Ordering.eq ↦ true | _ ↦ false ]

-- Equality of texts, `QString::operator==`.
abbrev pub str_eq : String → String → Bool
str_eq s t = text_eq s t

abbrev pub bool_eq : Bool → Bool → Bool
bool_eq true b = b
bool_eq false b = not b

infix 1 if◌then◌else◌
abbrev pub if◌then◌else◌ {ℓ} : {A : Type ℓ} → Bool → A → A → A
if true then x else y = x
if false then x else y = y

pub Bool-cases : (b : Bool) → (b ≡ true) ⊎ (b ≡ false)
Bool-cases true = inl refl
Bool-cases false = inr refl

pub Option-cases {ℓ} : {A : Type ℓ} (o : Option A) → (o ≡ none) ⊎ ((a : A) × (o ≡ some a))
Option-cases none = inl refl
Option-cases (some a) = inr (a, refl)

-- `QString::isEmpty`.
abbrev pub is_empty_text : String → Bool
is_empty_text s = text_eq s ""

pub ==_iff : (a b : ℕ) → ((a == b) ≡ true) ↔ (a ≡ b)
==_iff a b = ground arith

-- Equality of what two pointers point at, by id; `none` is the null pointer.
abbrev pub option_eq : Option String → Option String → Bool
option_eq none none = true
option_eq (some s) (some t) = str_eq s t
option_eq _ _ = false

pub option_eq_iff : (s t : Option String) → (option_eq s t ≡ true) ↔ (s ≡ t)
option_eq_iff none none = ground arith
option_eq_iff none (some t) = ground arith
option_eq_iff (some s) none = ground arith
option_eq_iff (some s) (some t) = ground (arith, eq_iff s t)

-- What holds of both branches, each under its test, holds of the `if`.
pub if-cases {ℓ ℓ'} :
    {A : Type ℓ} (P : A → Type ℓ') (b : Bool) {x y : A}
    → (b ≡ true → P x)
    → (b ≡ false → P y)
    → P (if b then x else y)
if-cases P true p q = p refl
if-cases P false p q = q refl

-- `QString::append` and the pieces of a text with `%1`.
abbrev pub text_of : List String → String
text_of [] = ""
text_of (s ∷ ss) = append_text s (text_of ss)

abbrev join_rest : String → List String → String
join_rest sep [] = ""
join_rest sep (s ∷ ss) = text_of (sep ∷ s ∷ join_rest sep ss ∷ [])

-- `QStringList::join`.
abbrev pub join : String → List String → String
join sep [] = ""
join sep (s ∷ ss) = text_of (s ∷ join_rest sep ss ∷ [])
