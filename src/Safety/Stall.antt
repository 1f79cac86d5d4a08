-- ===== src/Safety/Stall.antt =====
-- `safety_check` of src/safety.c: when a stall and when a timeout is reported.
use epi_pico2w_seringue.Prelude.{
  ℕ, ◌+◌, ◌<◌, ◌≡◌, ◌≢◌, ◌↔◌, ◌&&◌, true, false, List, [], ◌∷◌, arith, All, length, u32, leb,
  if◌then◌else◌, sub32-elapsed,
}
use epi_pico2w_seringue.DeviceConfig.{DeviceConfig}
use epi_pico2w_seringue.Safety.{
  ok, stall, timeout, Safety, Inputs, overtemp_bit, sg_result, beyond, overdue, filtered,
  watch_load, check, manual_started,
}
use epi_pico2w_seringue.Safety.Latch.{check-IsClear}

-- A period in which nothing else trips, the motor moves, and the sample is below the critical level;
-- `started` is the time of the last manual start.
pub record IsCritical (started : ℕ) (c : DeviceConfig) (x : Inputs) : Type 0 where
  pub no_conflict : x.conflict ≡ false
  pub spi_answers : x.spi_ok ≡ true
  pub cool : overtemp_bit x.drv_status ≡ false
  pub in_time : (x.timed_motion && overdue started c x.now) ≡ false
  pub in_travel : beyond c x.position_mm x.direction ≡ false
  pub moving : x.stallguard_motion ≡ true
  pub low : sg_result x.drv_status < c.stallguard_critical_level

-- the periods of a run under the same settings
pub run : DeviceConfig → Safety → List Inputs → Safety
run c s [] = s
run c s (x ∷ xs) = run c (check s c x).0 xs

-- the state in which a run of critical samples goes on, after `n` of them
pub record IsStalling (started n : ℕ) (c : DeviceConfig) (s : Safety) : Type 0 where
  pub not_faulted : s.fault ≡ ok
  pub average : s.sg_filtered < c.stallguard_critical_level
  pub count : s.critical_count ≡ n
  pub start : s.manual_started_ms ≡ started

filtered-lt : (old sg b : ℕ) → old < b → sg < b → b < 65536 → filtered old sg < b
unfolding filtered
filtered-lt old sg b h k l = ground arith

module _ (started : ℕ) (c : DeviceConfig) (enabled : c.stallguard_enabled ≢ 0)
    (level : c.stallguard_critical_level < 65536) (fits : c.stallguard_filter_count < 65536) where
  -- what one critical period does
  check-IsCritical :
      (n : ℕ) (s : Safety) (x : Inputs)
      → n < c.stallguard_filter_count
      → IsStalling started n c s
      → IsCritical started c x
      → let (s', f) = check s c x in
        (s'.sg_filtered < c.stallguard_critical_level)
        × (s'.critical_count ≡ n + 1)
        × (s'.manual_started_ms ≡ started)
        × (s'.fault ≡ f)
        × (f ≡ (if leb c.stallguard_filter_count (n + 1) then stall else ok))
  unfolding watch_load
  check-IsCritical n s x room v w = rw (check-IsClear s c x (ground arith)) (
      ground
        (arith, filtered-lt s.sg_filtered (sg_result x.drv_status) c.stallguard_critical_level))

  run-IsStalling :
      (n : ℕ) (s : Safety) (xs : List Inputs)
      → n + length xs < c.stallguard_filter_count
      → IsStalling started n c s
      → All (IsCritical started c) xs
      → IsStalling started (n + length xs) c (run c s xs)
  unfolding run
  run-IsStalling n s [] room v all = ground arith
  run-IsStalling n s (x ∷ xs) room v all =
      let e : n + 1 + length xs ≡ n + length (x ∷ xs) = omega arith in
      rw (← e) (
        run-IsStalling (n + 1) (check s c x).0 xs (omega arith)
          (ground (arith, check-IsCritical n s x)) all.1)

  -- With stall detection enabled, from a state with no fault, an average below the critical level and
  -- no critical sample counted, a run of critical samples with nothing else to report is answered by
  -- OK until their number reaches the filter's length, and by STALL then.
  pub check-stall_at_filter_count :
      (s : Safety) (xs : List Inputs) (x : Inputs)
      → length xs < c.stallguard_filter_count
      → IsStalling started 0 c s
      → All (IsCritical started c) xs
      → IsCritical started c x
      → (check (run c s xs) c x).1
        ≡ (if leb c.stallguard_filter_count (length xs + 1) then stall else ok)
  check-stall_at_filter_count s xs x room v all w =
      let r : IsStalling started (length xs) c (run c s xs) =
        let e : 0 + length xs ≡ length xs = omega arith in
        rw e at (run-IsStalling 0 s xs (omega arith) v all) in
      (check-IsCritical (length xs) (run c s xs) x room r w).4

-- A timed motion is reported as a timeout exactly when more milliseconds than the limit have passed
-- since its start, also where the clock has wrapped in between, if there was no fault before and no
-- condition that is looked at earlier.
pub check-timeout_iff :
    (s : Safety) (c : DeviceConfig) (x : Inputs) (t d : ℕ)
    → d < 4294967296
    → s.fault ≡ ok
    → x.conflict ≡ false
    → x.spi_ok ≡ true
    → overtemp_bit x.drv_status ≡ false
    → x.timed_motion ≡ true
    → x.now ≡ u32 (t + d)
    → ((check (manual_started s (u32 t)) c x).1 ≡ timeout) ↔ (c.manual_timeout_ms < d)
unfolding check manual_started overdue watch_load
check-timeout_iff s c x t d fits h1 h2 h3 h4 h5 h6 =
    (λ e. ground (arith, sub32-elapsed t d), λ e. ground (arith, sub32-elapsed t d))
