-- ===== src/Float.antt =====
-- IEEE 754 arithmetic as the C compiler emits it for the RP2350 (round to nearest, ties to even,
-- no contraction into fused operations). A finite value is a sign and a number of units of
-- 2^-149 for `float` and of 2^-1074 for `double`: every finite value of the format is such a
-- multiple, so subnormal numbers need no case of their own.
pub mod Bits
use epi_pico2w_seringue.Prelude.{
  ℕ, zero, suc, ◌+◌, ◌-◌, ◌*◌, ◌/◌, ◌%◌, ◌^◌, Bool, true, false, not, ◌&&◌, ◌||◌, xor, ltb, leb,
  ◌==◌, if◌then◌else◌, min,
}
use epi_pico2w_seringue.Prelude.Int.{ℤ, pos, negsuc}

-- `fin negative units`
pub data Float : Type 0 where
  nan : Float
  inf : Bool → Float
  fin : Bool → ℕ → Float

-- `scale`: one is 2 ^ scale units; `precision`: significant bits; `top`: values below 2 ^ top units
pub record Format : Type 0 where
  pub precision : ℕ
  pub scale : ℕ
  pub top : ℕ

abbrev pub binary32 : Format
binary32 = record { precision = 24; scale = 149; top = 277 }

abbrev pub binary64 : Format
binary64 = record { precision = 53; scale = 1074; top = 2098 }

-- the number of binary digits of `n`, given at least that much fuel
unfoldable pub bit_length_from : ℕ → ℕ → ℕ
bit_length_from zero n = 0
bit_length_from (suc f) n = let rest = bit_length_from f (n / 2) in if n == 0 then 0 else 1 + rest

-- the quotient, rounded to the nearest whole number, ties to even
unfoldable pub div_nearest : ℕ → ℕ → ℕ
div_nearest n d =
    let q = n / d in
    let r = n % d in
    if ltb (2 * r) d then q else if ltb d (2 * r) then q + 1 else if q % 2 == 0 then q else q + 1

-- the value of `num / den` units, rounded to the format's precision
unfoldable pub round_units : Format → ℕ → ℕ → ℕ
unfolding bit_length_from div_nearest
round_units f num den =
    let step = 2 ^ (bit_length_from (2 * f.top) (num / den) - f.precision) in
    div_nearest num (den * step) * step

-- a result of this sign and exact magnitude
unfoldable pub rounded : Format → Bool → ℕ → ℕ → Float
unfolding round_units
rounded f s num den =
    let units = round_units f num den in if ltb units (2 ^ f.top) then fin s units else inf s

-- conversions from integers, and decimal constants `num / den`
unfoldable pub of_ℕ : Format → ℕ → Float
unfolding rounded
of_ℕ f n = rounded f false (n * 2 ^ f.scale) 1

unfoldable pub of_ℤ : Format → ℤ → Float
unfolding of_ℕ
of_ℤ f (pos n) = of_ℕ f n
of_ℤ f (negsuc n) = rounded f true (suc n * 2 ^ f.scale) 1

unfoldable pub decimal : Format → ℕ → ℕ → Float
unfolding rounded
decimal f num den = rounded f false (num * 2 ^ f.scale) den

-- `-x` and `fabsf(x)`
unfoldable pub neg : Float → Float
neg nan = nan
neg (inf s) = inf (not s)
neg (fin s a) = fin (not s) a

unfoldable pub abs : Float → Float
abs nan = nan
abs (inf s) = inf false
abs (fin s a) = fin false a

unfoldable pub is_finite : Float → Bool
is_finite (fin s a) = true
is_finite _ = false

-- `a < b`; every test with a NaN fails
unfoldable pub ltf : Float → Float → Bool
ltf nan b = false
ltf (inf s) nan = false
ltf (inf s) (inf t) = s && not t
ltf (inf s) (fin t b) = s
ltf (fin s a) nan = false
ltf (fin s a) (inf t) = not t
ltf (fin false a) (fin false b) = ltb a b
ltf (fin false a) (fin true b) = false
ltf (fin true a) (fin false b) = ltb 0 (a + b)
ltf (fin true a) (fin true b) = ltb b a

-- `a == b`; the two zeros are equal
unfoldable pub eqf : Float → Float → Bool
unfolding xor
eqf nan b = false
eqf (inf s) nan = false
eqf (inf s) (inf t) = not (xor s t)
eqf (inf s) (fin t b) = false
eqf (fin s a) nan = false
eqf (fin s a) (inf t) = false
eqf (fin false a) (fin false b) = a == b
eqf (fin false a) (fin true b) = a + b == 0
eqf (fin true a) (fin false b) = a + b == 0
eqf (fin true a) (fin true b) = a == b

-- `a <= b`
unfoldable pub lef : Float → Float → Bool
unfolding ltf eqf
lef a b = ltf a b || eqf a b

unfoldable pub add : Format → Float → Float → Float
unfolding rounded xor
add f nan b = nan
add f (inf s) nan = nan
add f (inf s) (inf t) = if xor s t then nan else inf s
add f (inf s) (fin t b) = inf s
add f (fin s a) nan = nan
add f (fin s a) (inf t) = inf t
add f (fin false a) (fin false b) = rounded f false (a + b) 1
add f (fin true a) (fin true b) = rounded f true (a + b) 1
add f (fin false a) (fin true b) =
    if leb b a then rounded f false (a - b) 1 else rounded f true (b - a) 1
add f (fin true a) (fin false b) =
    if leb a b then rounded f false (b - a) 1 else rounded f true (a - b) 1

unfoldable pub sub : Format → Float → Float → Float
unfolding add neg
sub f a b = add f a (neg b)

unfoldable pub mul : Format → Float → Float → Float
unfolding rounded xor
mul f nan b = nan
mul f (inf s) nan = nan
mul f (inf s) (inf t) = inf (xor s t)
mul f (inf s) (fin t b) = if b == 0 then nan else inf (xor s t)
mul f (fin s a) nan = nan
mul f (fin s a) (inf t) = if a == 0 then nan else inf (xor s t)
mul f (fin s a) (fin t b) = rounded f (xor s t) (a * b) (2 ^ f.scale)

unfoldable pub div : Format → Float → Float → Float
unfolding rounded xor
div f nan b = nan
div f (inf s) nan = nan
div f (inf s) (inf t) = nan
div f (inf s) (fin t b) = inf (xor s t)
div f (fin s a) nan = nan
div f (fin s a) (inf t) = fin (xor s t) 0
div f (fin s a) (fin t b) =
    if b == 0
    then (if a == 0 then nan else inf (xor s t))
    else rounded f (xor s t) (a * 2 ^ f.scale) b

-- `(double)x`: exact
unfoldable pub widen : Float → Float
widen nan = nan
widen (inf s) = inf s
widen (fin s a) = fin s (a * 2 ^ 925)

-- `truncf(x)`
unfoldable pub trunc : Format → Float → Float
trunc f nan = nan
trunc f (inf s) = inf s
trunc f (fin s a) = fin s (a / 2 ^ f.scale * 2 ^ f.scale)

-- Conversion to an unsigned or a signed 32-bit integer. C leaves a value out of range undefined;
-- this is the processor's VCVT, which saturates and takes a NaN to 0.
unfoldable pub to_u32 : Format → Float → ℕ
to_u32 f nan = 0
to_u32 f (inf false) = 4294967295
to_u32 f (inf true) = 0
to_u32 f (fin false a) = min (a / 2 ^ f.scale) 4294967295
to_u32 f (fin true a) = 0

unfoldable pub negated : ℕ → ℤ
negated zero = pos 0
negated (suc n) = negsuc n

unfoldable pub to_i32 : Format → Float → ℤ
unfolding negated
to_i32 f nan = pos 0
to_i32 f (inf false) = pos 2147483647
to_i32 f (inf true) = negsuc 2147483647
to_i32 f (fin false a) = pos (min (a / 2 ^ f.scale) 2147483647)
to_i32 f (fin true a) = negated (min (a / 2 ^ f.scale) 2147483648)
