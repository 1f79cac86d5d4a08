-- ===== src/AppState.antt =====
-- src/app_state.c and include/app_state.h: the application's state machine.
pub mod Graph
pub mod Runs
use Prim.Native.String.{String}
use epi_pico2w_seringue.Prelude.{ℕ, Bool, true, false, not, ◌&&◌, if◌then◌else◌}

-- `app_state_t`
pub data State : Type 0 where
  boot ready manual_push manual_pull dosing retracting homing stopping fault : State

-- `app_event_t`
pub data Event : Type 0 where
  init_ok push pull release dose move_done stopped home stop fail reset : Event

-- `app_machine_t`
pub record Machine : Type 0 where
  pub state : State
  pub fault_code : ℕ

-- `app_state_init`; the fields it overwrites are all there are
unfoldable pub init : Machine
init = record { state = boot; fault_code = 0 }

abbrev pub is_fail : Event → Bool
is_fail fail = true
is_fail _ = false

abbrev pub is_stop : Event → Bool
is_stop stop = true
is_stop _ = false

abbrev pub is_fault : State → Bool
is_fault fault = true
is_fault _ = false

-- the `switch` of `app_state_dispatch`; the last clause is every `break`
switch : State → Event → Machine → Machine × Bool
switch boot init_ok m = (record m { state = ready }, true)
switch ready push m = (record m { state = manual_push }, true)
switch ready pull m = (record m { state = manual_pull }, true)
switch ready dose m = (record m { state = dosing }, true)
switch ready home m = (record m { state = homing }, true)
switch manual_push release m = (record m { state = stopping }, true)
switch manual_pull release m = (record m { state = stopping }, true)
switch dosing move_done m = (record m { state = retracting }, true)
switch retracting move_done m = (record m { state = ready }, true)
switch homing move_done m = (record m { state = ready }, true)
switch stopping stopped m = (record m { state = ready }, true)
switch fault reset m = (record { state = ready; fault_code = 0 }, true)
switch _ _ m = (m, false)

unfoldable pub dispatch : Machine → Event → Machine × Bool
unfolding switch
dispatch m e =
    if is_fail e
    then (record m { state = fault }, true)
    else if is_stop e && not (is_fault m.state)
    then (record m { state = stopping }, true)
    else switch m.state e m

-- `app_state_name`. The table covers the enumeration, so its "UNKNOWN" is for no value of `State`.
unfoldable pub name : State → String
name boot = "BOOT"
name ready = "READY"
name manual_push = "MANUAL_PUSH"
name manual_pull = "MANUAL_PULL"
name dosing = "DOSING"
name retracting = "RETRACTING"
name homing = "HOMING"
name stopping = "STOPPING"
name fault = "FAULT"
