-- ===== src/Safety/Latch.antt =====
-- `safety_check` of src/safety.c: the fault latch, and the conditions behind a result.
use epi_pico2w_seringue.Prelude.{
  ◌≡◌, refl, ap, ◌∙◌, ◌≢◌, ◌&&◌, Bool, true, false, List, [], ◌∷◌, arith,
}
use epi_pico2w_seringue.DeviceConfig.{DeviceConfig}
use epi_pico2w_seringue.Safety.{
  ok, Safety, Inputs, overtemp_bit, sg_result, beyond, overdue, filtered, watch_load, check,
}

-- the control periods in order: each is one call of `safety_check`, with the settings of the time
pub run : Safety → List (DeviceConfig × Inputs) → Safety
run s [] = s
run s ((c, x) ∷ xs) = run (check s c x).0 xs

pub check-latched :
    (s : Safety) (c : DeviceConfig) (x : Inputs) → s.fault ≢ ok → check s c x ≡ (s, s.fault)
unfolding check
check-latched s c x h = ground arith

run-keeps : (s : Safety) (xs : List (DeviceConfig × Inputs)) → s.fault ≢ ok → run s xs ≡ s
unfolding run
run-keeps s [] h = refl
run-keeps s ((d, y) ∷ xs) h = rw (check-latched s d y h) (run-keeps s xs h)

-- none of the conditions that trip a fault before the load is looked at
pub record IsClear (s : Safety) (c : DeviceConfig) (x : Inputs) : Type 0 where
  pub not_faulted : s.fault ≡ ok
  pub no_conflict : x.conflict ≡ false
  pub spi_answers : x.spi_ok ≡ true
  pub cool : overtemp_bit x.drv_status ≡ false
  pub in_time : (x.timed_motion && overdue s.manual_started_ms c x.now) ≡ false
  pub in_travel : beyond c x.position_mm x.direction ≡ false

watch_load-fault :
    (s : Safety) (c : DeviceConfig) (m : Bool)
    → s.fault ≡ ok
    → (watch_load s c m).0.fault ≡ (watch_load s c m).1
unfolding watch_load
watch_load-fault s c m h = ground arith

-- The result of a check is the fault that it leaves in the state.
pub check-fault :
    (s : Safety) (c : DeviceConfig) (x : Inputs) → (check s c x).0.fault ≡ (check s c x).1
unfolding check
check-fault s c x = ground (
  arith,
  watch_load-fault (record s { sg_filtered = filtered s.sg_filtered (sg_result x.drv_status) }) c
      x.stallguard_motion,
)

-- A check that passes has found no button conflict, a driver that answers and is not too hot, the
-- manual time not exceeded, and the position within the travel in the direction of the motion.
pub check-ok-IsClear :
    (s : Safety) (c : DeviceConfig) (x : Inputs) → (check s c x).1 ≡ ok → IsClear s c x
unfolding check
check-ok-IsClear s c x h = ground arith

-- Where nothing trips, the check is the load watch on the updated average.
pub check-IsClear :
    (s : Safety) (c : DeviceConfig) (x : Inputs)
    → IsClear s c x
    → check s c x
      ≡ watch_load
          (record s { sg_filtered = filtered s.sg_filtered (sg_result x.drv_status) })
          c
          x.stallguard_motion
unfolding check
check-IsClear s c x h = ground arith

-- A fault that a check reports, the first or a later one, is reported by every later check, whatever
-- the settings and the inputs then are, and the state stays as the reporting check left it.
pub run-latched :
    (s : Safety) (c : DeviceConfig) (x : Inputs) (xs : List (DeviceConfig × Inputs))
    (d : DeviceConfig) (y : Inputs)
    → (check s c x).1 ≢ ok
    → let (t, f) = check s c x in (check (run t xs) d y ≡ (t, f))
run-latched s c x xs d y h =
    let t = (check s c x).0 in
    let faulted : t.fault ≢ ok = rw (check-fault s c x) h in
    rw (run-keeps t xs faulted) (check-latched t d y faulted ∙ ap (λ f. (t, f)) (check-fault s c x))
