-- ===== src/Safety.antt =====
-- src/safety.c and include/safety.h: the supervisor that each control period consults.
pub mod Latch
pub mod Run
pub mod Stall
use epi_pico2w_seringue.Prelude.{
  ℕ, ◌+◌, ◌*◌, ◌/◌, ◌%◌, ◌^◌, Bool, true, false, not, ◌&&◌, ◌||◌, ltb, leb, ◌==◌, if◌then◌else◌,
  u16, sub32,
}
use epi_pico2w_seringue.Prelude.Int.{ℤ, pos, ltb_ℤ}
use epi_pico2w_seringue.Float.{Float, lef}
use epi_pico2w_seringue.DeviceConfig.{DeviceConfig}

-- `safety_fault_t`; `ok` is SAFETY_OK
pub data Fault : Type 0 where
  ok button_conflict spi overtemp stall timeout limit : Fault

-- the number of the enumerator
unfoldable pub code : Fault → ℕ
code ok = 0
code button_conflict = 1
code spi = 2
code overtemp = 3
code stall = 4
code timeout = 5
code limit = 6

-- `load_state_t`
pub data Load : Type 0 where
  load_normal load_high stall_warning stall_error : Load

-- `safety_t`
pub record Safety : Type 0 where
  pub fault : Fault
  pub load_state : Load
  pub sg_filtered : ℕ
  pub warning_count : ℕ
  pub critical_count : ℕ
  pub manual_started_ms : ℕ

-- `safety_init`
unfoldable pub init : Safety
init = record {
  fault = ok;
  load_state = load_normal;
  sg_filtered = 0;
  warning_count = 0;
  critical_count = 0;
  manual_started_ms = 0;
}

-- `safety_manual_started`
unfoldable pub manual_started : Safety → ℕ → Safety
manual_started s now = record s { manual_started_ms = now }

abbrev pub is_ok : Fault → Bool
is_ok ok = true
is_ok _ = false

-- the arguments of `safety_check` beside the state and the settings
pub record Inputs : Type 0 where
  pub conflict : Bool
  pub timed_motion : Bool
  pub stallguard_motion : Bool
  pub now : ℕ
  pub drv_status : ℕ
  pub spi_ok : Bool
  pub position_mm : Float
  pub direction : ℤ

-- `ds&(1u<<25)`
abbrev pub overtemp_bit : ℕ → Bool
overtemp_bit ds = ds / 2 ^ 25 % 2 == 1

-- `ds&0x3ffu`
abbrev pub sg_result : ℕ → ℕ
sg_result ds = ds % 1024

-- `(dir<0&&pos<=min)||(dir>0&&pos>=max)`
unfoldable pub beyond : DeviceConfig → Float → ℤ → Bool
beyond c pos_mm dir =
    (ltb_ℤ dir (pos 0) && lef pos_mm c.position_min_mm)
    || (ltb_ℤ (pos 0) dir && lef c.position_max_mm pos_mm)

-- `now-manual_started_ms>manual_timeout_ms` on `uint32_t`
unfoldable pub overdue : ℕ → DeviceConfig → ℕ → Bool
overdue started c now = ltb c.manual_timeout_ms (sub32 now started)

-- the moving average; the sum fits in 32 bits for any `uint16_t` average
unfoldable pub filtered : ℕ → ℕ → ℕ
filtered old sg = if old == 0 then sg else u16 ((3 * old + sg) / 4)

-- the load part of `safety_check`, with `sg_filtered` up to date
unfoldable pub watch_load : Safety → DeviceConfig → Bool → Safety × Fault
watch_load s c motion =
    let critical = record s {
      load_state = stall_warning;
      warning_count = u16 (s.warning_count + 1);
      critical_count = u16 (s.critical_count + 1);
    } in
    let high_count =
      if ltb s.warning_count c.stallguard_filter_count
      then u16 (s.warning_count + 1)
      else s.warning_count in
    if not (c.stallguard_enabled == 0) && motion
    then (if ltb s.sg_filtered c.stallguard_critical_level
        then (if leb c.stallguard_filter_count critical.critical_count
            then (record critical { load_state = stall_error; fault = stall }, stall)
            else (critical, ok))
        else if ltb s.sg_filtered c.stallguard_warning_level
        then (
          record s {
            critical_count = 0;
            warning_count = high_count;
            load_state =
                if leb c.stallguard_filter_count high_count then stall_warning else load_high;
          },
          ok,
        )
        else (record s { load_state = load_normal; warning_count = 0; critical_count = 0 }, ok))
    else (record s { load_state = load_normal; warning_count = 0; critical_count = 0 }, ok)

-- `return s->fault=f`
unfoldable pub trip : Safety → Fault → Safety × Fault
trip s f = (record s { fault = f }, f)

-- `safety_check`: the new state, and the result
unfoldable pub check : Safety → DeviceConfig → Inputs → Safety × Fault
unfolding trip
check s c x =
    if not (is_ok s.fault)
    then (s, s.fault)
    else if x.conflict
    then trip s button_conflict
    else if not x.spi_ok
    then trip s spi
    else if overtemp_bit x.drv_status
    then trip s overtemp
    else if x.timed_motion && overdue s.manual_started_ms c x.now
    then trip s timeout
    else if beyond c x.position_mm x.direction
    then trip s limit
    else watch_load (record s { sg_filtered = filtered s.sg_filtered (sg_result x.drv_status) }) c
        x.stallguard_motion
