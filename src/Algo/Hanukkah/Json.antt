-- ===== src/Algo/Hanukkah/Json.antt =====
-- What the table of a market's configuration says of a step after the step has written to it
-- (src/algo/hanukkah/i_step.cpp, src/algo/hanukkah.cpp).
use crypto_shloma.Prelude.{ℤ, pos, String, Bool, false, List, ◌≡◌, str_eq, refl, map, modify_first}
use crypto_shloma.Qt.{Qt}
use crypto_shloma.Algo.Chain.{Step, StepClass}
use crypto_shloma.Algo.Action.{is_entry_of, with_flags, table_of, write_flags, cycle_start}
use crypto_shloma.Algo.Hanukkah.{step_of, reset_meta, unblocked}

module _ ⦃q : Qt⦄ where
  -- What Qt documents of JSON values: a key reads as what was last inserted at it and as before at
  -- other keys, and a value converts back to what it was made of.
  pub record JsonLaws : Type 0 where
    pub same_key :
        (o : q.QJsonObject) (k : String) (v : q.QJsonValue) → q.value (q.insert o k v) k ≡ v
    pub other_key :
        (o : q.QJsonObject) (k l : String) (v : q.QJsonValue)
        → str_eq k l ≡ false
        → q.value (q.insert o k v) l ≡ q.value o l
    pub object_back : (o : q.QJsonObject) → q.to_object (q.of_object o) ≡ o
    pub array_back : (l : List q.QJsonValue) → q.to_array (q.of_array l) ≡ l
    pub bool_back : (b : Bool) → q.to_bool (q.of_bool b) ≡ b
    pub int_back : (n : ℤ) → q.to_int (q.of_int n) ≡ n
    pub text_back : (s : String) → q.to_string (q.of_string s) ≡ s

  module _ (laws : JsonLaws) where
    open laws use {same_key, other_key, object_back, array_back, bool_back, int_back, text_back}

    -- An entry with new flags makes the step with these flags and the numbers of before.
    step_of-with_flags :
        (class : StepClass) (buy sell : Bool) (e : q.QJsonValue)
        → step_of class (with_flags buy sell e)
          ≡ record (step_of class e) { buy_blocked = buy; sell_blocked = sell }
    step_of-with_flags class buy sell e =
        rw
          (
            object_back,
            same_key,
            other_key _ "sellStepBlocked" "buyStepBlocked" _ refl,
            same_key,
            other_key _ "sellStepBlocked" "step" _ refl,
            other_key _ "buyStepBlocked" "step" _ refl,
            other_key _ "sellStepBlocked" "growth" _ refl,
            other_key _ "buyStepBlocked" "growth" _ refl,
            bool_back,
            bool_back,
          )
          refl

    -- Given the documented laws of JSON values: the flags a step writes go into the first entry of
    -- the table with its two numbers, an entry so written makes the step it made before with these
    -- flags, and every other key reads as before.
    pub write_flags_lem :
        (s : Step) (meta_config : q.QJsonObject)
        → (table_of (write_flags s meta_config)
            ≡ modify_first
                (is_entry_of s)
                (with_flags s.buy_blocked s.sell_blocked)
                (table_of meta_config))
          × ((class : StepClass) (e : q.QJsonValue)
              → step_of class (with_flags s.buy_blocked s.sell_blocked e)
                ≡ record (step_of class e) {
                  buy_blocked = s.buy_blocked;
                  sell_blocked = s.sell_blocked;
                })
          × ((k : String)
              → str_eq "hannukahTable" k ≡ false
              → q.value (write_flags s meta_config) k ≡ q.value meta_config k)
    unfolding write_flags
    write_flags_lem s meta_config = (
      rw (write_flags, table_of, same_key, array_back) refl,
      (λ class e. step_of-with_flags class s.buy_blocked s.sell_blocked e),
      (λ k h. other_key meta_config "hannukahTable" k _ h),
    )

    -- Given the documented laws of JSON values: unlockAllSteps leaves a configuration with no
    -- counted purchase, the start of the empty text, and the table of before with every flag
    -- cleared, so that every entry makes its step unblocked.
    pub reset_meta_lem :
        (meta_config : q.QJsonObject)
        → (q.to_int (q.value (reset_meta meta_config) "execSteps") ≡ pos 0)
          × (cycle_start (reset_meta meta_config) ≡ q.date_of_iso "")
          × (table_of (reset_meta meta_config)
              ≡ map (with_flags false false) (table_of meta_config))
          × ((class : StepClass) (e : q.QJsonValue)
              → step_of class (with_flags false false e) ≡ unblocked (step_of class e))
    unfolding reset_meta
    reset_meta_lem meta_config = (
      rw
          (
            reset_meta,
            other_key _ "cycleTimeStart" "execSteps" _ refl,
            other_key _ "hannukahTable" "execSteps" _ refl,
            same_key,
            int_back,
          )
          refl,
      rw (cycle_start, reset_meta, same_key, text_back) refl,
      rw
          (
            table_of,
            reset_meta,
            other_key _ "cycleTimeStart" "hannukahTable" _ refl,
            same_key,
            array_back,
            other_key _ "execSteps" "hannukahTable" _ refl,
          )
          refl,
      (λ class e. step_of-with_flags class false false e),
    )
