-- ===== src/Tmc5130/Layout.antt =====
-- The register maps of src/tmc5130.c: bit-fields, packed from the lowest bit upwards as the
-- little-endian target does.
use epi_pico2w_seringue.Prelude.{ℕ, ◌+◌, ◌*◌, ◌%◌, ◌^◌, List, [], ◌∷◌}

-- a bit-field: its width, and the value assigned to it, of which it keeps the low bits
abbrev pub Field : Type 0
Field = ℕ × ℕ

unfoldable pub pack : List Field → ℕ
pack [] = 0
pack ((w, v) ∷ fields) = v % 2 ^ w + 2 ^ w * pack fields

-- `tmc_gconf_reg_t`
pub record Gconf : Type 0 where
  pub i_scale_analog : ℕ
  pub internal_rsense : ℕ
  pub en_pwm_mode : ℕ
  pub enc_commutation : ℕ
  pub shaft : ℕ
  pub diag0_error : ℕ
  pub diag0_otpw : ℕ
  pub diag0_stall : ℕ
  pub diag1_stall : ℕ
  pub diag1_index : ℕ
  pub diag1_onstate : ℕ
  pub diag1_steps_skipped : ℕ
  pub diag0_int_pushpull : ℕ
  pub diag1_pushpull : ℕ
  pub small_hysteresis : ℕ
  pub stop_enable : ℕ
  pub direct_mode : ℕ
  pub test_mode : ℕ
  pub reserved_31_18 : ℕ

abbrev pub gconf_fields : Gconf → List Field
gconf_fields r =
    (1, r.i_scale_analog)
    ∷ (1, r.internal_rsense)
    ∷ (1, r.en_pwm_mode)
    ∷ (1, r.enc_commutation)
    ∷ (1, r.shaft)
    ∷ (1, r.diag0_error)
    ∷ (1, r.diag0_otpw)
    ∷ (1, r.diag0_stall)
    ∷ (1, r.diag1_stall)
    ∷ (1, r.diag1_index)
    ∷ (1, r.diag1_onstate)
    ∷ (1, r.diag1_steps_skipped)
    ∷ (1, r.diag0_int_pushpull)
    ∷ (1, r.diag1_pushpull)
    ∷ (1, r.small_hysteresis)
    ∷ (1, r.stop_enable)
    ∷ (1, r.direct_mode)
    ∷ (1, r.test_mode)
    ∷ (14, r.reserved_31_18)
    ∷ []

-- `tmc_gstat_reg_t`
pub record Gstat : Type 0 where
  pub reset : ℕ
  pub drv_err : ℕ
  pub uv_cp : ℕ
  pub reserved_31_3 : ℕ

abbrev pub gstat_fields : Gstat → List Field
gstat_fields r = (1, r.reset) ∷ (1, r.drv_err) ∷ (1, r.uv_cp) ∷ (29, r.reserved_31_3) ∷ []

-- `tmc_ihold_irun_reg_t`
pub record IholdIrun : Type 0 where
  pub ihold : ℕ
  pub reserved_7_5 : ℕ
  pub irun : ℕ
  pub reserved_15_13 : ℕ
  pub iholddelay : ℕ
  pub reserved_31_20 : ℕ

abbrev pub ihold_irun_fields : IholdIrun → List Field
ihold_irun_fields r =
    (5, r.ihold)
    ∷ (3, r.reserved_7_5)
    ∷ (5, r.irun)
    ∷ (3, r.reserved_15_13)
    ∷ (4, r.iholddelay)
    ∷ (12, r.reserved_31_20)
    ∷ []

-- `tmc_chopconf_reg_t`
pub record Chopconf : Type 0 where
  pub toff : ℕ
  pub hstrt : ℕ
  pub hend : ℕ
  pub fd3 : ℕ
  pub disfdcc : ℕ
  pub rndtf : ℕ
  pub chm : ℕ
  pub tbl : ℕ
  pub vsense : ℕ
  pub vhighfs : ℕ
  pub vhighchm : ℕ
  pub sync : ℕ
  pub mres : ℕ
  pub intpol : ℕ
  pub dedge : ℕ
  pub diss2g : ℕ
  pub reserved_31 : ℕ

abbrev pub chopconf_fields : Chopconf → List Field
chopconf_fields r =
    (4, r.toff)
    ∷ (3, r.hstrt)
    ∷ (4, r.hend)
    ∷ (1, r.fd3)
    ∷ (1, r.disfdcc)
    ∷ (1, r.rndtf)
    ∷ (1, r.chm)
    ∷ (2, r.tbl)
    ∷ (1, r.vsense)
    ∷ (1, r.vhighfs)
    ∷ (1, r.vhighchm)
    ∷ (4, r.sync)
    ∷ (4, r.mres)
    ∷ (1, r.intpol)
    ∷ (1, r.dedge)
    ∷ (1, r.diss2g)
    ∷ (1, r.reserved_31)
    ∷ []

-- `tmc_coolconf_reg_t`
pub record Coolconf : Type 0 where
  pub semin : ℕ
  pub reserved_4 : ℕ
  pub seup : ℕ
  pub reserved_7 : ℕ
  pub semax : ℕ
  pub reserved_12 : ℕ
  pub sedn : ℕ
  pub seimin : ℕ
  pub sgt : ℕ
  pub reserved_23 : ℕ
  pub sfilt : ℕ
  pub reserved_31_25 : ℕ

abbrev pub coolconf_fields : Coolconf → List Field
coolconf_fields r =
    (4, r.semin)
    ∷ (1, r.reserved_4)
    ∷ (2, r.seup)
    ∷ (1, r.reserved_7)
    ∷ (4, r.semax)
    ∷ (1, r.reserved_12)
    ∷ (2, r.sedn)
    ∷ (1, r.seimin)
    ∷ (7, r.sgt)
    ∷ (1, r.reserved_23)
    ∷ (1, r.sfilt)
    ∷ (7, r.reserved_31_25)
    ∷ []

-- `tmc_tcoolthrs_reg_t`
pub record Tcoolthrs : Type 0 where
  pub threshold : ℕ
  pub reserved_31_20 : ℕ

abbrev pub tcoolthrs_fields : Tcoolthrs → List Field
tcoolthrs_fields r = (20, r.threshold) ∷ (12, r.reserved_31_20) ∷ []

-- the widths of `tmc_ioin_reg_t`, which is only read
abbrev pub ioin_widths : List ℕ
ioin_widths = 1 ∷ 1 ∷ 1 ∷ 1 ∷ 1 ∷ 1 ∷ 1 ∷ 1 ∷ 16 ∷ 8 ∷ []
