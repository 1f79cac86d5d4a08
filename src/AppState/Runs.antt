-- ===== src/AppState/Runs.antt =====
-- Sequences of events given to the machine of src/app_state.c.
use epi_pico2w_seringue.Prelude.{
  ◌≤◌, ◌≡◌, refl, ◌≢◌, ◌⊎◌, Bool, true, false, List, [], ◌∷◌, arith, length, All,
}
use epi_pico2w_seringue.AppState.{
  State, boot, ready, manual_push, manual_pull, dosing, retracting, homing, fault, Event, init_ok,
  stop, stopped, reset, Machine, dispatch,
}

-- the calls of `app_state_dispatch` in order, their results ignored as the callers do
pub run : Machine → List Event → Machine
run m [] = m
run m (e ∷ es) = run (dispatch m e).0 es

-- the states in which the motor is driven to a target or at a speed
abbrev pub is_moving : State → Bool
is_moving manual_push = true
is_moving manual_pull = true
is_moving dosing = true
is_moving retracting = true
is_moving homing = true
is_moving _ = false

dispatch-fault : (m : Machine) (e : Event) → m.state ≡ fault → e ≢ reset → (dispatch m e).0 ≡ m
unfolding dispatch
dispatch-fault m e h ne = ground arith

-- Once in the fault state, the machine keeps its state and its fault code through every sequence of
-- events that holds no reset.
pub run-fault_latched :
    (m : Machine) (es : List Event) → m.state ≡ fault → All (λ e. e ≢ reset) es → run m es ≡ m
unfolding run
run-fault_latched m [] h all = refl
run-fault_latched m (e ∷ es) h all =
    rw (dispatch-fault m e h all.0) (run-fault_latched m es h all.1)

recovery : State → List Event
recovery boot = init_ok ∷ []
recovery ready = []
recovery fault = reset ∷ []
recovery _ = stop ∷ stopped ∷ []

recovery_short : (s : State) → length (recovery s) ≤ 2
unfolding recovery
recovery_short boot = omega arith
recovery_short _ = omega arith

run-recovery : (s : State) (m : Machine) → m.state ≡ s → (run m (recovery s)).state ≡ ready
unfolding run recovery dispatch
run-recovery boot m h = ground arith
run-recovery _ m h = ground arith

-- From every state, at most two events bring the machine back to the ready state.
pub run-reaches_ready :
    (m : Machine) → (es : List Event) × (length es ≤ 2) × ((run m es).state ≡ ready)
run-reaches_ready m = (recovery m.state, recovery_short m.state, run-recovery m.state m refl)

-- A motion that an event begins was begun from the ready state, but for the retraction, which only
-- follows the dose; so no event turns one motion into another.
pub dispatch-is_moving :
    (m : Machine) (e : Event)
    → is_moving (dispatch m e).0.state ≡ true
    → ((dispatch m e).0.state ≡ m.state)
      ⊎ (m.state ≡ ready)
      ⊎ ((m.state ≡ dosing) × ((dispatch m e).0.state ≡ retracting))
unfolding dispatch
dispatch-is_moving m e h = ground arith

-- An event that is refused changes nothing, and an accepted one changes the fault code only to
-- clear it, on the reset of the fault state.
pub dispatch-fault_code :
    (m : Machine) (e : Event)
    → (((dispatch m e).1 ≡ false) × ((dispatch m e).0 ≡ m))
      ⊎ (((dispatch m e).1 ≡ true) × ((dispatch m e).0.fault_code ≡ m.fault_code))
      ⊎ (((dispatch m e).0.fault_code ≡ 0) × (e ≡ reset) × (m.state ≡ fault))
unfolding dispatch
dispatch-fault_code m e = ground arith
