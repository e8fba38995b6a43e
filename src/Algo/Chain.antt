-- ===== src/Algo/Chain.antt =====
-- src/boilerplate/singly_linked_stack.h and the state of src/algo/hanukkah/i_step.h: the steps of a
-- table, on a heap, each with a pointer to the next one.
pub mod Links
use crypto_shloma.Prelude.{
  ℕ, Bool, List, [], ◌∷◌, ◌++◌, Option, none, some, length, get_elem?, set, drop_last,
}
use crypto_shloma.Qt.{Qt}

-- Which class the step has.
pub data StepClass : Type 0 where
  zero_step ordinary : StepClass

module _ ⦃q : Qt⦄ where
  -- `IStep` with the `m_next` of `SinglyLinkedElement`; a pointer is a place on the heap. The market
  -- and the algorithm are the same for all steps of a session and stand there.
  pub record Step : Type 0 where
    pub class : StepClass
    pub decline_perc : q.Qreal
    pub growth : q.Qreal
    pub buy_blocked : Bool
    pub sell_blocked : Bool
    pub next : Option ℕ

  abbrev pub Heap : Type 0
  Heap = List Step

  -- `SinglyLinkedStack`: the `QStack` under it, whose end is the top, and `m_head`.
  pub record Stack : Type 0 where
    pub items : List ℕ
    pub head : Option ℕ

  abbrev pub empty : Stack
  empty = record { items = []; head = none }

  -- `getNext` of the step at a place.
  abbrev pub next_of : Heap → ℕ → Option ℕ
  next_of h p = elim (get_elem? h p) [ none ↦ none | some s ↦ s.next ]

  -- `setNext`.
  unfoldable pub set_next : ℕ → Option ℕ → Heap → Heap
  unfolding set
  set_next p n h = elim (get_elem? h p) [ none ↦ h | some s ↦ set h p (record s { next = n }) ]

  unfoldable pub insert_back : ℕ → Heap × Stack → Heap × Stack
  unfolding set_next
  insert_back t (h, s) = elim s.head [
    | none ↦ (h, record { items = s.items ++ t ∷ []; head = some t })
    | some m ↦ (
      set_next m (some t) (set_next t (next_of h m) h),
      record { items = s.items ++ t ∷ []; head = some t },
    )
  ]

  unfoldable pub remove : Heap × Stack → Heap × Stack
  unfolding drop_last
  remove (h, s) = elim s.head [
    | none ↦ (h, s)
    | some m ↦ (h, record { items = drop_last s.items; head = next_of h m })
  ]

  -- `QSharedPointer::create` and `insert_back`.
  unfoldable pub push_new : Step → Heap × Stack → Heap × Stack
  unfolding insert_back
  push_new step (h, s) = insert_back (length h) (h ++ step ∷ [], s)

  -- `clear` of the `QStack`; `m_head` stays.
  unfoldable pub clear : Stack → Stack
  clear s = record s { items = [] }
