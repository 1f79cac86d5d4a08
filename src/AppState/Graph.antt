-- ===== src/AppState/Graph.antt =====
-- The transition diagram of src/app_state.c, with recovery and the latch of the fault state.
use epi_pico2w_seringue.Prelude.{◌≡◌, ◌≢◌, ◌↔◌, true, refl, subst, arith}
use epi_pico2w_seringue.AppState.{
  State, boot, ready, manual_push, manual_pull, dosing, retracting, homing, stopping, fault, Event,
  init_ok, push, pull, release, dose, move_done, stopped, home, stop, fail, reset, Machine,
  dispatch,
}

-- the accepted events of each state
pub data Edge : State → Event → State → Type 0 where
  booted : Edge boot init_ok ready
  start_push : Edge ready push manual_push
  start_pull : Edge ready pull manual_pull
  start_dose : Edge ready dose dosing
  start_home : Edge ready home homing
  release_push : Edge manual_push release stopping
  release_pull : Edge manual_pull release stopping
  dosed : Edge dosing move_done retracting
  retracted : Edge retracting move_done ready
  homed : Edge homing move_done ready
  halted : Edge stopping stopped ready
  cleared : Edge fault reset ready
  failed : (s : State) → Edge s fail fault
  halt : (s : State) → s ≢ fault → Edge s stop stopping

ruleset edges = (
  booted, start_push, start_pull, start_dose, start_home, release_push, release_pull, dosed,
  retracted, homed, halted, cleared, failed, halt,
)

dispatch-Edge :
    (m : Machine) (e : Event) → (dispatch m e).1 ≡ true → Edge m.state e (dispatch m e).0.state
unfolding dispatch
dispatch-Edge m e h = grind (arith, edges)

Edge-dispatch :
    {s t : State} {e : Event} (m : Machine)
    → Edge s e t
    → m.state ≡ s
    → ((dispatch m e).1 ≡ true) × ((dispatch m e).0.state ≡ t)
unfolding dispatch
Edge-dispatch m booted h = ground arith
Edge-dispatch m start_push h = ground arith
Edge-dispatch m start_pull h = ground arith
Edge-dispatch m start_dose h = ground arith
Edge-dispatch m start_home h = ground arith
Edge-dispatch m release_push h = ground arith
Edge-dispatch m release_pull h = ground arith
Edge-dispatch m dosed h = ground arith
Edge-dispatch m retracted h = ground arith
Edge-dispatch m homed h = ground arith
Edge-dispatch m halted h = ground arith
Edge-dispatch m cleared h = ground arith
Edge-dispatch m (failed s) h = ground arith
Edge-dispatch m (halt s ne) h = ground arith

-- The machine accepts an event and goes to state `t` exactly when the diagram has that edge.
pub dispatch-iff_Edge :
    (m : Machine) (e : Event) (t : State)
    → (((dispatch m e).1 ≡ true) × ((dispatch m e).0.state ≡ t)) ↔ Edge m.state e t
dispatch-iff_Edge m e t =
    (λ p. subst (Edge m.state e) p.1 (dispatch-Edge m e p.0), λ d. Edge-dispatch m d refl)
