-- ===== src/Algo/Hanukkah.antt =====
-- src/algo/hanukkah.h and hanukkah.cpp: the sessions of the traded markets.
pub mod Schedule
pub mod Json
pub mod Setup
pub mod Sessions
pub mod Unlock
use crypto_shloma.Prelude.{
  ℕ, ℤ, pos, leb_ℤ, String, Bool, true, false, not, ◌&&◌, List, [], ◌∷◌, ◌++◌, Option, none, some,
  str_eq, map, get_elem?, set, filter, find, modify_first, ◌==◌, if◌then◌else◌,
}
use crypto_shloma.Qt.{Qt}
use crypto_shloma.Base.Market.Data.{Market, UserConfig}
use crypto_shloma.Algo.Chain.{Step, StepClass, Heap, Stack, empty, push_new, clear, next_of}
use crypto_shloma.Algo.Action.{
  Action, unlock_all_steps, update_market_config, delete_row, View, meta_of, table_of, exec_steps,
  max_steps, with_flags,
}
use crypto_shloma.Algo.Step as Ordinary
use crypto_shloma.Algo.ZeroStep as Zero

module _ ⦃q : Qt⦄ where
  open q use {
    QJsonValue, QJsonObject, value, insert, to_double, to_bool, to_object, of_int, of_string,
    of_array, of_object, of_bool, array_eq,
  }

  -- `StepGenerator`. Its market is that of the key of the session.
  pub record Session : Type 0 where
    pub meta_config : List QJsonValue
    pub container : Stack

  -- The sessions by market id, the heap of the steps, and the number of the timer (0 for none).
  pub record Hanukkah : Type 0 where
    pub sessions : List (String × Session)
    pub heap : Heap
    pub timer_id : ℕ

  -- The step of an entry of the table; the first entry makes the zero step.
  abbrev pub step_of : StepClass → QJsonValue → Step
  step_of class e = record {
    class = class;
    decline_perc = to_double (value (to_object e) "step");
    growth = to_double (value (to_object e) "growth");
    buy_blocked = to_bool (value (to_object e) "buyStepBlocked");
    sell_blocked = to_bool (value (to_object e) "sellStepBlocked");
    next = none;
  }

  unfoldable pub push_all : StepClass → List QJsonValue → Heap × Stack → Heap × Stack
  unfolding push_new
  push_all class [] c = c
  push_all class (e ∷ es) c = push_all StepClass.ordinary es (push_new (step_of class e) c)

  -- `StepGenerator::setup`.
  unfoldable pub setup : List QJsonValue → Heap × Stack → Heap × Stack
  unfolding push_all
  setup table = push_all StepClass.zero_step table

  -- The constructor of `StepGenerator`.
  unfoldable pub new_session : List QJsonValue → Heap → Heap × Session
  unfolding setup
  new_session table h =
      let c = setup table (h, empty) in (c.0, record { meta_config = table; container = c.1 })

  -- `StepGenerator::update`; the container is emptied also where it has no elements.
  unfoldable pub update : List QJsonValue → Heap → Session → Heap × Session
  unfolding setup clear
  update table h s =
      if array_eq s.meta_config table
      then (h, s)
      else (let c = setup table (h, clear s.container) in
          (c.0, record { meta_config = table; container = c.1 }))

  abbrev pub find_session : String → List (String × Session) → Option (String × Session)
  find_session id = find (λ e. str_eq e.0 id)

  -- The session of a market, made or brought up to date.
  unfoldable pub ensure : String → List QJsonValue → Hanukkah → Hanukkah × Session
  unfolding new_session update find modify_first
  ensure id table a = elim (find_session id a.sessions) [
    | none ↦
        let n = new_session table a.heap in
        (record a { sessions = a.sessions ++ (id, n.1) ∷ []; heap = n.0 }, n.1)
    | some e ↦
        let n = update table a.heap e.1 in
        (
          record a {
            sessions = modify_first (λ x. str_eq x.0 id) (λ x. (x.0, n.1)) a.sessions;
            heap = n.0;
          },
          n.1,
        )
  ]

  abbrev pub unblocked : Step → Step
  unblocked s = record s { buy_blocked = false; sell_blocked = false }

  unfoldable pub set_at : ℕ → (Step → Step) → Heap → Heap
  unfolding set
  set_at p f h = elim (get_elem? h p) [ none ↦ h | some s ↦ set h p (f s) ]

  unfoldable pub unblock_places : List ℕ → Heap → Heap
  unfolding set_at
  unblock_places [] h = h
  unblock_places (p ∷ ps) h = unblock_places ps (set_at p unblocked h)

  -- What `unlockAllSteps` makes of the configuration of the market.
  unfoldable pub reset_meta : QJsonObject → QJsonObject
  reset_meta meta_config =
      let counted = insert meta_config "execSteps" (of_int (pos 0)) in
      insert
        (insert counted "hannukahTable"
          (of_array (map (with_flags false false) (table_of counted))))
        "cycleTimeStart" (of_string "")

  -- `unlockAllSteps` on the session of the market. A step of the session calls it while `execLogic`
  -- runs, so that `m_sessionContainer[id]` finds the session.
  unfoldable pub unlock : View → Session → Heap → Heap × List Action
  unfolding unblock_places reset_meta
  unlock v s h = (
    unblock_places s.container.items h,
    update_market_config v.market.config.id
          (record (v.market.user_config) { meta_config = reset_meta (meta_of v) })
        ∷ delete_row v.exchange v.market.config.id
        ∷ [],
  )

  -- What one pass over the steps of a session does.
  pub data Choice : Type 0 where
    idle : Choice
    buys sells : ℕ → Choice

  -- The loop of `execLogic` over the container: the first step that may act.
  unfoldable pub choose : View → Heap → List ℕ → Choice
  choose v h [] = Choice.idle
  choose v h (p ∷ ps) =
      let rest = choose v h ps in
      elim (get_elem? h p) [
        | none ↦ rest
        | some s ↦
            if not s.buy_blocked && leb_ℤ (exec_steps v) (max_steps v)
            then Choice.buys p
            else if not s.sell_blocked
            then Choice.sells p
            else rest
      ]

  abbrev pub next_step : Heap → ℕ → Option Step
  next_step h p = elim (next_of h p) [ none ↦ none | some n ↦ get_elem? h n ]

  -- The virtual calls.
  abbrev pub execute_buy : View → Step → Option Step → StepClass → Step × List Action
  execute_buy v s next StepClass.zero_step = Zero.execute_buy_logic (some v) s
  execute_buy v s next StepClass.ordinary = Ordinary.execute_buy_logic (some v) s next

  abbrev pub execute_sell : View → Step → Option Step → StepClass → Step × List Action
  execute_sell v s next StepClass.zero_step = Zero.execute_sell_logic (some v) s
  execute_sell v s next StepClass.ordinary = Ordinary.execute_sell_logic (some v) s next

  -- `unlock` calls back into the algorithm at once; the other actions leave its state alone.
  unfoldable pub perform : View → Session → Heap → List Action → Heap × List Action
  unfolding unlock
  perform v s h [] = (h, [])
  perform v s h (unlock_all_steps id ∷ as') =
      let u = unlock v s h in let r = perform v s u.0 as' in (r.0, u.1 ++ r.1)
  perform v s h (a ∷ as') = let r = perform v s h as' in (r.0, a ∷ r.1)

  unfoldable pub act : View → Session → Heap → Choice → Heap × List Action
  unfolding perform set
  act v s h Choice.idle = (h, [])
  act v s h (Choice.buys p) = elim (get_elem? h p) [
    | none ↦ (h, [])
    | some step ↦
        let r = execute_buy v step (next_step h p) step.class in perform v s (set h p r.0) r.1
  ]
  act v s h (Choice.sells p) = elim (get_elem? h p) [
    | none ↦ (h, [])
    | some step ↦
        let r = execute_sell v step (next_step h p) step.class in perform v s (set h p r.0) r.1
  ]

  -- One traded market in `execLogic`.
  unfoldable pub exec_market : View → Hanukkah → Hanukkah × List Action
  unfolding ensure choose act
  exec_market v a =
      let (a', s) = ensure v.market.config.id (table_of (meta_of v)) a in
      let r = act v s a'.heap (choose v a'.heap s.container.items) in
      (record a' { heap = r.0 }, r.1)

  -- `execLogic` over the traded markets, each with what its steps read.
  unfoldable pub exec_logic : List View → Hanukkah → Hanukkah × List Action
  unfolding exec_market
  exec_logic [] a = (a, [])
  exec_logic (v ∷ vs) a =
      let (a', actions) = exec_market v a in
      let (b, more) = exec_logic vs a' in (b, actions ++ more)

  -- `start` asks for a timer only if there is none; `started` is the number it gets.
  unfoldable pub start : ℕ → Hanukkah → Hanukkah
  start started a = if a.timer_id == 0 then record a { timer_id = started } else a

  -- The signal `finished` is emitted in any case.
  unfoldable pub stop : Hanukkah → Hanukkah
  stop a = if a.timer_id == 0 then a else record a { timer_id = 0 }

  unfoldable pub timer_event : ℕ → List View → Hanukkah → Hanukkah × List Action
  unfolding exec_logic
  timer_event id vs a = if id == a.timer_id then exec_logic vs a else (a, [])

  unfoldable pub remove_market : String → Hanukkah → Hanukkah
  unfolding filter
  remove_market id a = record a { sessions = filter (λ e. not (str_eq e.0 id)) a.sessions }
