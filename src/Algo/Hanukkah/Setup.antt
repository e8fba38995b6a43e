-- ===== src/Algo/Hanukkah/Setup.antt =====
-- What `StepGenerator::setup` (src/algo/hanukkah.cpp) makes of a table.
use crypto_shloma.Prelude.{List, [], ◌∷◌, ◌++◌, some, length, map, ◌≡◌, refl, ◌∙◌}
use crypto_shloma.Qt.{Qt}
use crypto_shloma.Algo.Chain.{StepClass, Heap, Stack, empty, push_new}
use crypto_shloma.Algo.Chain.Links.{push_many, linked, places, last_place, push_many-linked}
use crypto_shloma.Algo.Hanukkah.{step_of, push_all, setup}

module _ ⦃q : Qt⦄ where
  push_all-many :
      (es : List q.QJsonValue) (c : Heap × Stack)
      → push_all StepClass.ordinary es c ≡ push_many (map (step_of StepClass.ordinary) es) c
  unfolding push_all
  push_all-many [] c = refl
  push_all-many (e ∷ es) c = push_all-many es (push_new (step_of StepClass.ordinary e) c)

  -- The first entry of a table makes the zero step and the others the ordinary ones, at consecutive
  -- new places in the order of the table; each has a pointer to the step of the entry behind it and
  -- the last has none; the rest of the heap stays.
  pub setup_lem :
      (h : Heap) (e : q.QJsonValue) (es : List q.QJsonValue)
      → (setup [] (h, empty) ≡ (h, empty))
        × (let steps = map (step_of StepClass.ordinary) es in
            setup (e ∷ es) (h, empty) ≡ (
              h ++ linked (length h) (step_of StepClass.zero_step e) steps,
              record {
                items = places (length h) (step_of StepClass.zero_step e ∷ steps);
                head = some (last_place (length h) steps);
              },
            ))
  unfolding setup push_all
  setup_lem h e es = (
    refl,
    push_all-many es (push_new (step_of StepClass.zero_step e) (h, empty))
        ∙ push_many-linked h (step_of StepClass.zero_step e) (map (step_of StepClass.ordinary) es),
  )
