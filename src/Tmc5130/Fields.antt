-- ===== src/Tmc5130/Fields.antt =====
-- The bit-fields of src/tmc5130.c: what is packed is read back.
use native.Mathlib.Nat.{
  pow-suc, add-mul-mod_self_left, add-mul-div_left, mod-lt, mod-eq_of_lt, div-eq_of_lt,
}
use epi_pico2w_seringue.Prelude.{
  ℕ, zero, suc, ◌+◌, ◌*◌, ◌/◌, ◌%◌, ◌^◌, ◌<◌, ◌≡◌, refl, ◌∙◌, List, [], ◌∷◌, map, arith,
}
use epi_pico2w_seringue.Tmc5130.Layout.{Field, pack}

-- the fields of a word, by their widths
pub unpack : List ℕ → ℕ → List ℕ
unpack [] x = []
unpack (w ∷ ws) x = x % 2 ^ w ∷ unpack ws (x / 2 ^ w)

abbrev pub widths : List Field → List ℕ
widths fields = map (λ f. f.0) fields

abbrev pub values : List Field → List ℕ
values [] = []
values ((w, v) ∷ fields) = v % 2 ^ w ∷ values fields

-- one more than the largest word of a layout
abbrev pub span : List ℕ → ℕ
span [] = 1
span (w ∷ ws) = 2 ^ w * span ws

two-pow-pos : (w : ℕ) → 0 < 2 ^ w
two-pow-pos zero = omega arith
two-pow-pos (suc w) = rw pow-suc (omega (arith, two-pow-pos w))

low_part : (m v p : ℕ) → 0 < m → (v % m + m * p) % m ≡ v % m
low_part m v p h = add-mul-mod_self_left (v % m) m p ∙ mod-eq_of_lt (mod-lt v h)

high_part : (m v p : ℕ) → 0 < m → (v % m + m * p) / m ≡ p
high_part m v p h = rw (add-mul-div_left (v % m) p h, div-eq_of_lt (mod-lt v h)) (omega arith)

-- Every register layout gives back the low bits of each value that was put into it.
pub unpack-pack : (fields : List Field) → unpack (widths fields) (pack fields) ≡ values fields
unfolding unpack pack
unpack-pack [] = refl
unpack-pack ((w, v) ∷ fields) = rw (
  low_part (2 ^ w) v (pack fields) (two-pow-pos w),
  high_part (2 ^ w) v (pack fields) (two-pow-pos w),
  unpack-pack fields,
)

-- A packed word is below its layout's span.
pub pack-lt-span : (fields : List Field) → pack fields < span (widths fields)
unfolding pack
pack-lt-span [] = omega arith
pack-lt-span ((w, v) ∷ fields) = grind (arith, pack-lt-span fields, mod-lt v (two-pow-pos w))
