-- ===== src/Algo/Chain/Links.antt =====
-- How `insert_back` links the steps that `StepGenerator::setup` makes, one behind the other.
use crypto_shloma.Prelude.{
  ℕ, suc, List, [], ◌∷◌, ◌++◌, Option, none, some, length, get_elem?, set, ◌≡◌, refl, sym, ◌∙◌, ap,
}
use crypto_shloma.Qt.{Qt}
use crypto_shloma.Algo.Chain.{Step, Heap, Stack, empty, next_of, set_next, insert_back, push_new}

module _ {A : Type 0} where
  get-middle : (h : List A) (m : A) (r : List A) → get_elem? (h ++ m ∷ r) (length h) ≡ some m
  get-middle [] m r = refl
  get-middle (x ∷ h) m r = get-middle h m r

  set-middle : (h : List A) (m x : A) (r : List A) → set (h ++ m ∷ r) (length h) x ≡ h ++ x ∷ r
  unfolding set
  set-middle [] m x r = refl
  set-middle (y ∷ h) m x r = ap (λ l. y ∷ l) (set-middle h m x r)

  length-snoc : (h : List A) (m : A) → length (h ++ m ∷ []) ≡ suc (length h)
  length-snoc [] m = refl
  length-snoc (x ∷ h) m = ap suc (length-snoc h m)

  snoc-cons : (h : List A) (m : A) (r : List A) → (h ++ m ∷ []) ++ r ≡ h ++ m ∷ r
  snoc-cons [] m r = refl
  snoc-cons (x ∷ h) m r = ap (λ l. x ∷ l) (snoc-cons h m r)

  nil-right : (h : List A) → h ++ [] ≡ h
  nil-right [] = refl
  nil-right (x ∷ h) = ap (λ l. x ∷ l) (nil-right h)

module _ ⦃q : Qt⦄ where
  abbrev pub push_many : List Step → Heap × Stack → Heap × Stack
  push_many [] c = c
  push_many (s ∷ ss) c = push_many ss (push_new s c)

  abbrev pub with_next : Option ℕ → Step → Step
  with_next n s = record s { next = n }

  -- Steps at consecutive places from `n`, each but the last with a pointer to the one behind it.
  unfoldable pub linked : ℕ → Step → List Step → List Step
  linked n s [] = with_next none s ∷ []
  linked n s (t ∷ ts) = with_next (some (suc n)) s ∷ linked (suc n) t ts

  unfoldable pub places : ℕ → List Step → List ℕ
  places n [] = []
  places n (s ∷ ss) = n ∷ places (suc n) ss

  abbrev pub last_place : ℕ → List Step → ℕ
  last_place n [] = n
  last_place n (s ∷ ss) = last_place (suc n) ss

  set_next-middle :
      (h : Heap) (m : Step) (r : Heap) (n : Option ℕ)
      → set_next (length h) n (h ++ m ∷ r) ≡ h ++ with_next n m ∷ r
  unfolding set_next
  set_next-middle h m r n = rw (set_next, get-middle h m r) (set-middle h m (with_next n m) r)

  next-before :
      (h : Heap) (m s : Step) → next_of ((h ++ with_next none m ∷ []) ++ s ∷ []) (length h) ≡ none
  next-before h m s =
      rw
        (snoc-cons h (with_next none m) (s ∷ []), next_of, get-middle h (with_next none m) (s ∷ []))
        refl

  -- A push behind a last step without a next one.
  push-behind :
      (h : Heap) (m s : Step) (items : List ℕ)
      → push_new s (h ++ with_next none m ∷ [], record { items = items; head = some (length h) })
        ≡ (
          h ++ with_next (some (suc (length h))) m ∷ with_next none s ∷ [],
          record { items = items ++ suc (length h) ∷ []; head = some (suc (length h)) },
        )
  unfolding push_new insert_back
  push-behind h m s items =
      let m' = with_next none m in
      rw
        (
          next-before h m s,
          set_next-middle (h ++ m' ∷ []) s [] none,
          snoc-cons h m' (with_next none s ∷ []),
          set_next-middle h m' (with_next none s ∷ []) (some (length (h ++ m' ∷ []))),
          length-snoc h m',
        )
        refl

  push_many-behind :
      (h g : Heap) (n : ℕ) (m : Step) (items : List ℕ) (ss : List Step)
      → g ≡ h ++ with_next none m ∷ []
      → n ≡ length h
      → push_many ss (g, record { items = items; head = some n }) ≡ (
        h ++ linked n m ss,
        record { items = items ++ places (suc n) ss; head = some (last_place n ss) },
      )
  unfolding linked places
  push_many-behind h g n m items [] eg en = rw (eg, nil-right items) refl
  push_many-behind h g n m items (s ∷ ss) eg en =
      let m' = with_next (some (suc (length h))) m in
      rw (eg, en, push-behind h m s items)
        (push_many-behind (h ++ m' ∷ []) _ (suc (length h)) s (items ++ suc (length h) ∷ []) ss
            (sym (snoc-cons h m' (with_next none s ∷ []))) (sym (length-snoc h m'))
          ∙ rw
              (
                snoc-cons h m' (linked (suc (length h)) s ss),
                snoc-cons items (suc (length h)) (places (suc (suc (length h))) ss),
              )
              refl)

  -- Steps pushed on an empty stack stand one behind the other on the heap, each with a pointer to the
  -- one behind it; the stack lists their places, and its head is the last.
  pub push_many-linked :
      (h : Heap) (m : Step) (ss : List Step)
      → push_many (with_next none m ∷ ss) (h, empty) ≡ (
        h ++ linked (length h) m ss,
        record { items = places (length h) (m ∷ ss); head = some (last_place (length h) ss) },
      )
  unfolding push_new insert_back linked places
  push_many-linked h m ss = push_many-behind h _ (length h) m (length h ∷ []) ss refl refl
