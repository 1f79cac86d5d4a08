-- ===== src/Tmc5130/Setup.antt =====
-- The configuration of the driver of src/tmc5130.c from settings that the validation accepts.
use epi_pico2w_seringue.Prelude.{
  ℕ, zero, suc, ◌-◌, ◌^◌, ◌≤◌, ◌≡◌, refl, ap, sym, ◌∙◌, true, some, arith, leb, if◌then◌else◌, ◌%◌,
}
use epi_pico2w_seringue.Prelude.Int.{ℤ, pos, negsuc, ◌≤ℤ◌}
use epi_pico2w_seringue.DeviceConfig.{DeviceConfig, validate}
use epi_pico2w_seringue.DeviceConfig.Valid.{validate_iff}
use epi_pico2w_seringue.Tmc5130.{mres_of, byte_of}

mres_of-power : (k : ℕ) → k ≤ 8 → mres_of (2 ^ k) ≡ some (8 - k)
unfolding mres_of
mres_of-power zero h = refl
mres_of-power (suc zero) h = refl
mres_of-power (suc (suc zero)) h = refl
mres_of-power (suc (suc (suc zero))) h = refl
mres_of-power (suc (suc (suc (suc zero)))) h = refl
mres_of-power (suc (suc (suc (suc (suc zero))))) h = refl
mres_of-power (suc (suc (suc (suc (suc (suc zero)))))) h = refl
mres_of-power (suc (suc (suc (suc (suc (suc (suc zero))))))) h = refl
mres_of-power (suc (suc (suc (suc (suc (suc (suc (suc zero)))))))) h = refl
mres_of-power (suc (suc (suc (suc (suc (suc (suc (suc (suc k))))))))) h = absurd (omega arith)

-- Every validated number of microsteps has a code in CHOPCONF, and the code m stands for 2^(8-m)
-- microsteps, as the chip's manual numbers them.
pub mres_of-validate :
    (c : DeviceConfig)
    → validate c ≡ true
    → (m : ℕ) × (m ≤ 8) × (mres_of c.microsteps ≡ some m) × (c.microsteps ≡ 2 ^ (8 - m))
mres_of-validate c h =
    let p = ((validate_iff c).0 h).microsteps in
    let e : 8 - (8 - p.0) ≡ p.0 = omega (arith, p.1) in
    (8 - p.0, omega arith, ap mres_of p.2 ∙ mres_of-power p.0 p.1, p.2 ∙ ap (λ k. 2 ^ k) (sym e))

-- the number that the seven bits of SGT stand for, in two's complement
pub signed7 : ℕ → ℤ
signed7 x = if leb 64 x then negsuc (127 - x) else pos x

-- A threshold from -64 to 63 keeps its value in the seven bits of SGT.
pub signed7-byte_of : (t : ℤ) → negsuc 63 ≤ℤ t → t ≤ℤ pos 63 → signed7 (byte_of t % 2 ^ 7) ≡ t
unfolding signed7 byte_of
signed7-byte_of t lo hi = ground arith
