-- ===== src/Float/Bits.antt =====
-- The four bytes of a `float` in memory, as a 32-bit number. Every NaN is written as the default one.
pub mod RoundTrip
use epi_pico2w_seringue.Prelude.{ℕ, ◌+◌, ◌-◌, ◌*◌, ◌/◌, ◌%◌, ◌^◌, Bool, ltb, ◌==◌, if◌then◌else◌}
use epi_pico2w_seringue.Float.{Float, nan, inf, fin, bit_length_from}

abbrev sign_bit : Bool → ℕ
sign_bit s = if s then 2 ^ 31 else 0

-- the exponent and the significand of a magnitude of so many binary digits
abbrev normal_bits : ℕ → ℕ → ℕ
normal_bits length units =
    let e = length - 23 in
    if ltb units (2 ^ 23) then units else e * 2 ^ 23 + (units / 2 ^ (e - 1) - 2 ^ 23)

unfoldable pub magnitude_bits : ℕ → ℕ
unfolding bit_length_from
magnitude_bits units = normal_bits (bit_length_from 300 units) units

unfoldable pub bits_of : Float → ℕ
unfolding magnitude_bits
bits_of nan = 0x7fc00000
bits_of (inf s) = sign_bit s + 0x7f800000
bits_of (fin s units) = sign_bit s + magnitude_bits units

-- what a sign, an exponent and a significand stand for
abbrev pub of_fields : Bool → ℕ → ℕ → Float
of_fields s e m =
    if e == 255
    then (if m == 0 then inf s else nan)
    else if e == 0
    then fin s m
    else fin s ((m + 2 ^ 23) * 2 ^ (e - 1))

unfoldable pub of_bits : ℕ → Float
of_bits bits = of_fields (bits / 2 ^ 31 % 2 == 1) (bits / 2 ^ 23 % 256) (bits % 2 ^ 23)
