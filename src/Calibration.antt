-- ===== src/Calibration.antt =====
-- src/stallguard_calibration.c and include/stallguard_calibration.h: the thresholds of the stall
-- detection from samples of a free run.
pub mod Average
use epi_pico2w_seringue.Prelude.{
  ℕ, ◌+◌, ◌*◌, ◌/◌, Bool, true, false, not, ◌||◌, Option, none, some, ltb, if◌then◌else◌, u16, u32,
}

-- `sg_calibration_t`
pub record Calibration : Type 0 where
  pub active : Bool
  pub samples : ℕ
  pub sum : ℕ
  pub minimum : ℕ
  pub maximum : ℕ

-- `sg_calibration_start`
unfoldable pub start : Calibration
start = record { active = true; samples = 0; sum = 0; minimum = 1023; maximum = 0 }

-- `sg_calibration_add`
unfoldable pub add : Calibration → ℕ → Calibration
add c v = if not c.active || ltb 1023 v then c else record c {
  sum = u32 (c.sum + v);
  samples = u32 (c.samples + 1);
  minimum = if ltb v c.minimum then v else c.minimum;
  maximum = if ltb c.maximum v then v else c.maximum;
}

-- what `sg_calibration_finish` writes through its pointers
pub record Thresholds : Type 0 where
  pub baseline : ℕ
  pub warning : ℕ
  pub critical : ℕ

-- `sg_calibration_finish`; `none` is its `false`, which writes nothing
unfoldable pub finish : Calibration → Calibration × Option Thresholds
finish c =
    if not c.active || ltb c.samples 100
    then (c, none)
    else let avg = u16 (c.sum / c.samples) in
      if ltb avg 40 then (c, none) else (
        record c { active = false },
        some (record {
          baseline = avg;
          warning = u16 (avg * 70 / 100);
          critical = u16 (avg * 50 / 100);
        }),
      )
