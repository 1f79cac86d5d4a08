-- ===== src/Float/Bits/RoundTrip.antt =====
-- The bytes of a `float` in memory stand for it.
use epi_pico2w_seringue.Prelude.{
  ℕ, zero, suc, ◌+◌, ◌-◌, ◌*◌, ◌/◌, ◌%◌, ◌^◌, ◌≤◌, ◌<◌, ◌≡◌, ◌⊎◌, inl, inr, refl, ap, ◌∙◌, Bool,
  true, false, arith, ltb, lt→ltb, ◌==◌,
}
use native.Mathlib.Nat.{pow-suc, one-le-pow, mul-div_cancel}
use epi_pico2w_seringue.Float.{Float, nan, inf, fin, bit_length_from}
use epi_pico2w_seringue.Float.Bits.{
  sign_bit, normal_bits, magnitude_bits, bits_of, of_fields, of_bits,
}

-- the magnitude, in units of 2^-149, of a finite value of binary32: a subnormal one, or a significand
-- of 24 bits times a power of two
abbrev pub IsMagnitude : ℕ → Type 0
IsMagnitude units =
    (units < 2 ^ 23)
    ⊎ ((e : ℕ) × (m : ℕ) × (e < 254) × (m < 2 ^ 23) × (units ≡ (m + 2 ^ 23) * 2 ^ e))

-- the values of binary32
abbrev pub IsSingle : Float → Type 0
IsSingle nan = Unit
IsSingle (inf s) = Unit
IsSingle (fin s units) = IsMagnitude units

bit_length-zero : (f : ℕ) → bit_length_from f 0 ≡ 0
unfolding bit_length_from
bit_length-zero zero = refl
bit_length-zero (suc f) = refl

-- one digit more for each doubling
bit_length-half : (f n : ℕ) → 0 < n → bit_length_from (suc f) n ≡ 1 + bit_length_from f (n / 2)
unfolding bit_length_from
bit_length-half f n h = ground arith

bit_length-pow : (f k n : ℕ) → k < f → 2 ^ k ≤ n → n < 2 ^ suc k → bit_length_from f n ≡ suc k
bit_length-pow zero k n fuel low high = absurd (omega arith)
bit_length-pow (suc f) zero n fuel low high =
    let last : n / 2 ≡ 0 = omega arith in
    rw (bit_length-half f n (omega arith), last, bit_length-zero f) refl
bit_length-pow (suc f) (suc k) n fuel low high =
    rw (bit_length-half f n (omega (arith, pow-suc 2 k, one-le-pow k 2))) (
      omega (
        arith,
        bit_length-pow f k (n / 2) (omega arith) (omega (arith, pow-suc 2 k))
            (omega (arith, pow-suc 2 k, pow-suc 2 (suc k))),
      ))

-- A significand of 24 bits, shifted by `e`, has 24 digits and `e` more.
bit_length-shifted :
    (e f a : ℕ) → e + 24 ≤ f → 2 ^ 23 ≤ a → a < 2 ^ 24 → bit_length_from f (a * 2 ^ e) ≡ e + 24
bit_length-shifted zero f a fuel low high =
    let same : a * 2 ^ 0 ≡ a = omega arith in rw same (bit_length-pow f 23 a (omega arith) low high)
bit_length-shifted (suc e) zero a fuel low high = absurd (omega arith)
bit_length-shifted (suc e) (suc f) a fuel low high =
    let doubled : a * 2 ^ suc e ≡ a * 2 ^ e * 2 =
      omega (arith, ap (λ (t : ℕ). a * t) (pow-suc 2 e)) in
    let some_bits : 0 < a * 2 ^ e = grind (arith, one-le-pow e 2) in
    let halved : a * 2 ^ suc e / 2 ≡ a * 2 ^ e = omega (arith, doubled) in
    rw (bit_length-half f (a * 2 ^ suc e) (omega (arith, doubled, some_bits)), halved)
      (omega (arith, bit_length-shifted e f a (omega arith) low high))

div-shifted : (a e : ℕ) → a * 2 ^ e / 2 ^ e ≡ a
div-shifted a e = mul-div_cancel a (one-le-pow e 2 (omega arith))

magnitude_bits_lem :
    (length units : ℕ)
    → bit_length_from 300 units ≡ length
    → magnitude_bits units ≡ normal_bits length units
magnitude_bits_lem length units h = rw (← h) (unfold magnitude_bits in refl)

normal_bits-small : (length units : ℕ) → units < 2 ^ 23 → normal_bits length units ≡ units
normal_bits-small length units h = rw (lt→ltb units (2 ^ 23) h)

not-ltb : (a b : ℕ) → b ≤ a → ltb a b ≡ false
not-ltb a b h = ground arith

magnitude_bits-normal :
    (e m : ℕ) → e < 254 → m < 2 ^ 23 → magnitude_bits ((m + 2 ^ 23) * 2 ^ e) ≡ (e + 1) * 2 ^ 23 + m
magnitude_bits-normal e m he hm =
    let a : ℕ = m + 2 ^ 23 in
    let large : ltb (a * 2 ^ e) (2 ^ 23) ≡ false =
      not-ltb (a * 2 ^ e) (2 ^ 23) (grind (arith, one-le-pow e 2)) in
    let one_more : e + 24 - 23 ≡ e + 1 = omega arith in
    let one_less : e + 1 - 1 ≡ e = omega arith in
    let top_off : a - 2 ^ 23 ≡ m = omega arith in
    magnitude_bits_lem (e + 24) (a * 2 ^ e)
      (bit_length-shifted e 300 a (omega arith) (omega arith) (omega arith))
    ∙ rw (large, one_more, one_less, div-shifted a e, top_off)

sign_of_bits : (s : Bool) (n : ℕ) → n < 2 ^ 31 → ((sign_bit s + n) / 2 ^ 31 % 2 == 1) ≡ s
sign_of_bits false n h = ground arith
sign_of_bits true n h = ground arith

exponent_of_bits :
    (s : Bool) (e m : ℕ) → e < 256 → m < 2 ^ 23 → (sign_bit s + (e * 2 ^ 23 + m)) / 2 ^ 23 % 256 ≡ e
exponent_of_bits false e m he hm = omega arith
exponent_of_bits true e m he hm = omega arith

significand_of_bits :
    (s : Bool) (e m : ℕ) → m < 2 ^ 23 → (sign_bit s + (e * 2 ^ 23 + m)) % 2 ^ 23 ≡ m
significand_of_bits false e m hm = omega arith
significand_of_bits true e m hm = omega arith

of_bits_lem :
    (s : Bool) (e m : ℕ)
    → e < 256
    → m < 2 ^ 23
    → of_bits (sign_bit s + (e * 2 ^ 23 + m)) ≡ of_fields s e m
unfolding of_bits
of_bits_lem s e m he hm =
    let bits : ℕ = sign_bit s + (e * 2 ^ 23 + m) in
    let sign : (bits / 2 ^ 31 % 2 == 1) ≡ s = sign_of_bits s (e * 2 ^ 23 + m) (omega arith) in
    let exponent : bits / 2 ^ 23 % 256 ≡ e = exponent_of_bits s e m he hm in
    let significand : bits % 2 ^ 23 ≡ m = significand_of_bits s e m hm in
    rw (sign, exponent, significand)

of_fields-normal :
    (s : Bool) (e m : ℕ) → e < 254 → of_fields s (e + 1) m ≡ fin s ((m + 2 ^ 23) * 2 ^ e)
of_fields-normal s e m h =
    let special : (e + 1 == 255) ≡ false = ground arith in
    let small : (e + 1 == 0) ≡ false = ground arith in
    let less : e + 1 - 1 ≡ e = omega arith in rw (special, small, less)

-- A value of binary32 is read back from its bytes.
pub of_bits-bits_of : (x : Float) → IsSingle x → of_bits (bits_of x) ≡ x
unfolding bits_of
of_bits-bits_of nan h = unfold of_bits in refl
of_bits-bits_of (inf false) h = unfold of_bits in refl
of_bits-bits_of (inf true) h = unfold of_bits in refl
of_bits-bits_of (fin s units) h = elim h [
  | inl small ↦
      let no_exponent : 0 * 2 ^ 23 + units ≡ units = omega arith in
      rw (magnitude_bits_lem _ units refl, normal_bits-small _ units small)
        (rw no_exponent at (of_bits_lem s 0 units (omega arith) small))
  | inr (e, m, he, hm, same) ↦ rw same (
      rw (magnitude_bits-normal e m he hm)
        (of_bits_lem s (e + 1) m (omega arith) hm ∙ of_fields-normal s e m he))
]

sign_bit-le : (s : Bool) → sign_bit s ≤ 2147483648
sign_bit-le false = omega arith
sign_bit-le true = omega arith

magnitude_bits-lt : (units : ℕ) → IsMagnitude units → magnitude_bits units < 2147483648
magnitude_bits-lt units h = elim h [
  | inl small ↦ rw (magnitude_bits_lem _ units refl, normal_bits-small _ units small) (omega arith)
  | inr (e, m, he, hm, same) ↦ rw same (rw (magnitude_bits-normal e m he hm) (omega arith))
]

-- A float takes four bytes.
pub bits_of-lt : (x : Float) → IsSingle x → bits_of x < 4294967296
unfolding bits_of
bits_of-lt nan h = omega arith
bits_of-lt (inf false) h = omega arith
bits_of-lt (inf true) h = omega arith
bits_of-lt (fin s units) h = omega (arith, sign_bit-le s, magnitude_bits-lt units h)
