-- ===== src/Tmc5130/Reg.antt =====
-- The register addresses of include/tmc5130.h.
use epi_pico2w_seringue.Prelude.{ℕ}

abbrev pub gconf : ℕ
gconf = 0x00

abbrev pub gstat : ℕ
gstat = 0x01

abbrev pub ioin : ℕ
ioin = 0x04

abbrev pub ihold_irun : ℕ
ihold_irun = 0x10

abbrev pub tcoolthrs : ℕ
tcoolthrs = 0x14

abbrev pub rampmode : ℕ
rampmode = 0x20

abbrev pub xactual : ℕ
xactual = 0x21

abbrev pub vactual : ℕ
vactual = 0x22

abbrev pub vstart : ℕ
vstart = 0x23

abbrev pub a1 : ℕ
a1 = 0x24

abbrev pub v1 : ℕ
v1 = 0x25

abbrev pub amax : ℕ
amax = 0x26

abbrev pub vmax : ℕ
vmax = 0x27

abbrev pub dmax : ℕ
dmax = 0x28

abbrev pub d1 : ℕ
d1 = 0x2a

abbrev pub vstop : ℕ
vstop = 0x2b

abbrev pub xtarget : ℕ
xtarget = 0x2d

abbrev pub chopconf : ℕ
chopconf = 0x6c

abbrev pub coolconf : ℕ
coolconf = 0x6d

abbrev pub drv_status : ℕ
drv_status = 0x6f
