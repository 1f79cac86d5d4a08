-- ===== src/Tmc5130.antt =====
-- src/tmc5130.c and include/tmc5130.h: the datagrams and registers of the stepper driver.
pub mod Layout
pub mod Defaults
pub mod Fields
pub mod Frames
pub mod Writes
pub mod Setup
pub mod Reg
use epi_pico2w_seringue.Prelude.{
  ℕ, zero, suc, ◌+◌, ◌-◌, ◌*◌, ◌/◌, ◌%◌, ◌^◌, Bool, true, false, not, ◌&&◌, ◌||◌, Option, none,
  some, ◌==◌, if◌then◌else◌, bit_or, u8,
}
use epi_pico2w_seringue.Prelude.Int.{ℤ, pos, negsuc, ltb_ℤ}
use epi_pico2w_seringue.Float.{Float, binary32, of_ℕ}
use epi_pico2w_seringue.TmcCurrent.{current_scale_from_ma}
use epi_pico2w_seringue.Board.{
  Frame, spi_init, pin_function_spi, pin_init, pin_output, pin_put, M, ◌>>=◌, ◌>>◌, pure, and_then,
  perform, exchange,
}
use Defaults.{
  gstat_clear, gconf_internal_rsense, ihold_irun_default, chopconf_default, coolconf_disabled,
  tcoolthrs_disabled, tcoolthrs_enabled,
}
use Layout.{
  pack, Gconf, gconf_fields, Gstat, gstat_fields, IholdIrun, ihold_irun_fields, Chopconf,
  chopconf_fields, Coolconf, coolconf_fields, Tcoolthrs, tcoolthrs_fields,
}
use Reg.{
  gconf, gstat, ioin, ihold_irun, tcoolthrs, rampmode, vstart, a1, v1, amax, vmax, dmax, d1, vstop,
  xtarget, chopconf, coolconf,
}

-- the pins and the bus speed of include/board_config.h
abbrev pub pin_tmc_spi_rx : ℕ
pin_tmc_spi_rx = 16

abbrev pub pin_tmc_spi_cs : ℕ
pin_tmc_spi_cs = 17

abbrev pub pin_tmc_spi_sck : ℕ
pin_tmc_spi_sck = 18

abbrev pub pin_tmc_spi_tx : ℕ
pin_tmc_spi_tx = 19

abbrev pub pin_tmc_enable : ℕ
pin_tmc_enable = 20

abbrev pub tmc_spi_baud_hz : ℕ
tmc_spi_baud_hz = 1000000

-- `TMC_INTERNAL_RREF_OHM`
abbrev pub internal_rref_ohm : Float
internal_rref_ohm = of_ℕ binary32 7500

-- the bytes that `transfer` sends: the address with the write bit, then the value from the top
unfoldable pub tx_frame : ℕ → ℕ → Bool → Frame
tx_frame a v w = record {
  b0 = u8 (bit_or a (if w then 0x80 else 0));
  b1 = v / 2 ^ 24 % 256;
  b2 = v / 2 ^ 16 % 256;
  b3 = v / 2 ^ 8 % 256;
  b4 = v % 256;
}

-- the word that `transfer` reads out of the bytes received
unfoldable pub rx_word : Frame → ℕ
rx_word f = f.b1 * 2 ^ 24 + f.b2 * 2 ^ 16 + f.b3 * 2 ^ 8 + f.b4

-- `transfer`: the status byte and the word
unfoldable pub transfer : ℕ → ℕ → Bool → M (ℕ × ℕ)
unfolding perform exchange tx_frame rx_word
transfer a v w = do
  perform (pin_put pin_tmc_spi_cs false)
  rx ← exchange (tx_frame a v w)
  perform (pin_put pin_tmc_spi_cs true)
  pure (rx.b0, rx_word rx)

-- `tmc_reply_t`
pub record Reply : Type 0 where
  pub status : ℕ
  pub value : ℕ
  pub ok : Bool

-- `tmc5130_read`: the chip returns a register in the exchange after the one that names it
unfoldable pub read : ℕ → M Reply
unfolding transfer
read r = do
  _ ← transfer r 0 false
  (s, v) ← transfer r 0 false
  pure (record { status = s; value = v; ok = not (s == 0xff) })

-- `tmc5130_write`
unfoldable pub write : ℕ → ℕ → M Bool
unfolding transfer
write r v = do (s, _) ← transfer r v true; pure (not (s == 0xff))

-- `tmc5130_enable`: the pin is active low
unfoldable pub enable : Bool → M (Unit {0})
unfolding perform
enable on = perform (pin_put pin_tmc_enable (not on))

-- `ioin.bits.version`
abbrev pub ioin_version : ℕ → ℕ
ioin_version value = value / 2 ^ 24 % 256

-- `tmc5130_init`
unfoldable pub init : M Bool
unfolding enable write read
init = do
  perform (spi_init tmc_spi_baud_hz)
  perform (pin_function_spi pin_tmc_spi_sck)
  perform (pin_function_spi pin_tmc_spi_tx)
  perform (pin_function_spi pin_tmc_spi_rx)
  perform (pin_init pin_tmc_spi_cs)
  perform (pin_output pin_tmc_spi_cs)
  perform (pin_put pin_tmc_spi_cs true)
  perform (pin_init pin_tmc_enable)
  perform (pin_output pin_tmc_enable)
  enable false
  and_then (write gstat gstat_clear) do
    id ← read ioin
    let version = ioin_version id.value
    pure (id.ok && not (version == 0) && not (version == 0xff))

-- the `switch` of `tmc5130_configure`; `none` is its `default`
unfoldable pub mres_of : ℕ → Option ℕ
mres_of ms =
    if ms == 256
    then some 0
    else if ms == 128
    then some 1
    else if ms == 64
    then some 2
    else if ms == 32
    then some 3
    else if ms == 16
    then some 4
    else if ms == 8
    then some 5
    else if ms == 4
    then some 6
    else if ms == 2
    then some 7
    else if ms == 1
    then some 8
    else none

configure_at : Option ℕ → ℕ → ℕ → M Bool
unfolding write
configure_at none run_ma hold_ma = pure false
configure_at (some mres) run_ma hold_ma =
    let irun = current_scale_from_ma run_ma internal_rref_ohm in
    let ihold = current_scale_from_ma hold_ma internal_rref_ohm in
    let current = record ihold_irun_default { ihold = ihold; irun = irun } in
    let chopper = record chopconf_default { mres = mres } in
    and_then (write gconf (pack (gconf_fields gconf_internal_rsense))) (
      and_then (write ihold_irun (pack (ihold_irun_fields current)))
        (write chopconf (pack (chopconf_fields chopper))))

-- `tmc5130_configure`
unfoldable pub configure : ℕ → ℕ → ℕ → M Bool
unfolding configure_at mres_of
configure ms run_ma hold_ma = configure_at (mres_of ms) run_ma hold_ma

-- `tmc5130_set_ramp`
unfoldable pub set_ramp : ℕ → ℕ → ℕ → ℕ → ℕ → M Bool
unfolding write
set_ramp v a1_reg amax_reg dmax_reg d1_reg = and_then (write vstart 1) (
    and_then (write a1 a1_reg) (
      and_then (write v1 (v / 4)) (
        and_then (write amax amax_reg) (
          and_then (write vmax v)
            (and_then (write dmax dmax_reg) (and_then (write d1 d1_reg) (write vstop 10)))))))

-- `tmc5130_velocity`
unfoldable pub velocity : ℤ → ℕ → M Bool
unfolding write
velocity d v = and_then (write vmax v) (write rampmode (if ltb_ℤ (pos 0) d then 1 else 2))

-- `(uint32_t)t` of an `int32_t`
unfoldable pub word_of : ℤ → ℕ
word_of (pos n) = n % 2 ^ 32
word_of (negsuc n) = 2 ^ 32 - 1 - n % 2 ^ 32

-- `tmc5130_position`
unfoldable pub position : ℤ → M Bool
unfolding write word_of
position t = and_then (write rampmode 0) (write xtarget (word_of t))

-- `tmc5130_stop`
unfoldable pub stop : M Bool
unfolding write
stop = write vmax 0

-- `(uint8_t)threshold` of an `int8_t`
unfoldable pub byte_of : ℤ → ℕ
byte_of (pos n) = n % 256
byte_of (negsuc n) = 255 - n % 256

-- `tmc5130_configure_stallguard`
unfoldable pub configure_stallguard : Bool → ℤ → M Bool
unfolding write byte_of
configure_stallguard enabled threshold =
    if not enabled
    then and_then (write tcoolthrs (pack (tcoolthrs_fields tcoolthrs_disabled)))
        (write coolconf (pack (coolconf_fields coolconf_disabled)))
    else if ltb_ℤ threshold (negsuc 63) || ltb_ℤ (pos 63) threshold
    then pure false
    else and_then
        (write coolconf
          (pack (coolconf_fields (record coolconf_disabled { sgt = byte_of threshold }))))
        (write tcoolthrs (pack (tcoolthrs_fields tcoolthrs_enabled)))
