-- ===== src/Base/Method.antt =====
-- A setter of src/base changes its object and emits the signals of what it changed.
use crypto_shloma.Prelude.{Bool, List, [], ◌∷◌, ◌++◌, if◌then◌else◌}

abbrev pub Method : Type 0 → Type 0 → Type 0
Method S E = S → S × List E

infixl 5 ◌>>◌
abbrev pub ◌>>◌ : {S E : Type 0} → Method S E → Method S E → Method S E
◌>>◌ f g s = ((g (f s).0).0, (f s).1 ++ (g (f s).0).1)

-- `if (changed) { field = value; emit signal; }`: the field, and what is emitted.
abbrev pub assign : {A : Type 0} → Bool → A → A → A
assign changed old new = if changed then new else old

abbrev pub emit : {E : Type 0} → Bool → E → List E
emit changed signal = if changed then signal ∷ [] else []
