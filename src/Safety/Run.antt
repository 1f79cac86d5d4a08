-- ===== src/Safety/Run.antt =====
-- `safety_check` of src/safety.c over many control periods: the bounds of its counters.
use epi_pico2w_seringue.Prelude.{ℕ, ◌≤◌, ◌<◌, ◌≡◌, Bool, arith}
use epi_pico2w_seringue.DeviceConfig.{DeviceConfig}
use epi_pico2w_seringue.Safety.{
  ok, stall, Safety, Inputs, stall_error, sg_result, filtered, watch_load, check,
}

-- The averaged load stays between the old average and the new sample.
pub filtered_bounds : (old sg b : ℕ) → old ≤ b → sg ≤ b → b ≤ 1023 → filtered old sg ≤ b
unfolding filtered
filtered_bounds old sg b h k l = ground arith

-- what holds of the supervisor between two checks, at a filter of `n` samples
pub record IsValid (n : ℕ) (s : Safety) : Type 0 where
  pub average : s.sg_filtered ≤ 1023
  pub below : s.fault ≡ ok → s.critical_count < n
  pub counted : s.critical_count ≤ n
  pub error_faulted : s.load_state ≡ stall_error → s.fault ≡ stall
  pub stall_shown : s.fault ≡ stall → s.load_state ≡ stall_error

pub watch_load-IsValid :
    (s : Safety) (c : DeviceConfig) (m : Bool)
    → 0 < c.stallguard_filter_count
    → c.stallguard_filter_count < 65536
    → IsValid c.stallguard_filter_count s
    → s.fault ≡ ok
    → IsValid c.stallguard_filter_count (watch_load s c m).0
unfolding watch_load
watch_load-IsValid s c m pos fits v h = ground arith

update-IsValid :
    (n ds : ℕ) (s : Safety)
    → IsValid n s
    → IsValid n (record s { sg_filtered = filtered s.sg_filtered (sg_result ds) })
update-IsValid n ds s v = record {
  average = filtered_bounds s.sg_filtered (sg_result ds) 1023 v.average (omega arith) (omega arith);
  below = v.below;
  counted = v.counted;
  error_faulted = v.error_faulted;
  stall_shown = v.stall_shown;
}

-- A check keeps the average within the ten bits of SG_RESULT, the count of critical samples below
-- the filter's length while no fault is latched, and STALL_ERROR shown exactly at a stall.
pub check-IsValid :
    (s : Safety) (c : DeviceConfig) (x : Inputs)
    → 0 < c.stallguard_filter_count
    → c.stallguard_filter_count < 65536
    → IsValid c.stallguard_filter_count s
    → IsValid c.stallguard_filter_count (check s c x).0
unfolding check
check-IsValid s c x pos fits v =
    let updated = update-IsValid c.stallguard_filter_count x.drv_status s v in
    ground (
      arith,
      watch_load-IsValid
          (record s { sg_filtered = filtered s.sg_filtered (sg_result x.drv_status) }) c
          x.stallguard_motion pos fits updated,
    )
