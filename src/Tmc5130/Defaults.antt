-- ===== src/Tmc5130/Defaults.antt =====
-- src/tmc5130.c: the register values that the file names.
use epi_pico2w_seringue.Prelude.{ℕ}
use epi_pico2w_seringue.Tmc5130.Layout.{
  pack, Gconf, gstat_fields, IholdIrun, Chopconf, Coolconf, Tcoolthrs,
}

abbrev pub gstat_clear : ℕ
gstat_clear = pack (gstat_fields (record { reset = 1; drv_err = 1; uv_cp = 1; reserved_31_3 = 0 }))

abbrev pub gconf_internal_rsense : Gconf
gconf_internal_rsense = record {
  i_scale_analog = 0;
  internal_rsense = 1;
  en_pwm_mode = 0;
  enc_commutation = 0;
  shaft = 0;
  diag0_error = 0;
  diag0_otpw = 0;
  diag0_stall = 0;
  diag1_stall = 0;
  diag1_index = 0;
  diag1_onstate = 0;
  diag1_steps_skipped = 0;
  diag0_int_pushpull = 0;
  diag1_pushpull = 0;
  small_hysteresis = 0;
  stop_enable = 0;
  direct_mode = 0;
  test_mode = 0;
  reserved_31_18 = 0;
}

abbrev pub ihold_irun_default : IholdIrun
ihold_irun_default = record {
  ihold = 0;
  reserved_7_5 = 0;
  irun = 0;
  reserved_15_13 = 0;
  iholddelay = 6;
  reserved_31_20 = 0;
}

abbrev pub chopconf_default : Chopconf
chopconf_default = record {
  toff = 3;
  hstrt = 4;
  hend = 0;
  fd3 = 0;
  disfdcc = 0;
  rndtf = 0;
  chm = 0;
  tbl = 1;
  vsense = 0;
  vhighfs = 0;
  vhighchm = 0;
  sync = 0;
  mres = 0;
  intpol = 0;
  dedge = 0;
  diss2g = 0;
  reserved_31 = 0;
}

abbrev pub coolconf_disabled : Coolconf
coolconf_disabled = record {
  semin = 0;
  reserved_4 = 0;
  seup = 0;
  reserved_7 = 0;
  semax = 0;
  reserved_12 = 0;
  sedn = 0;
  seimin = 0;
  sgt = 0;
  reserved_23 = 0;
  sfilt = 0;
  reserved_31_25 = 0;
}

abbrev pub tcoolthrs_disabled : Tcoolthrs
tcoolthrs_disabled = record { threshold = 0; reserved_31_20 = 0 }

abbrev pub tcoolthrs_enabled : Tcoolthrs
tcoolthrs_enabled = record { threshold = 0xfffff; reserved_31_20 = 0 }
