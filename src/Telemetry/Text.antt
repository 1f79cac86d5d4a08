-- ===== src/Telemetry/Text.antt =====
-- What the append functions of src/app_tasks.c write: the whole text, or as much of it as fits.
use native.Mathlib.Nat.{pow-suc}
use epi_pico2w_seringue.Prelude.{
  ℕ, zero, suc, ◌+◌, ◌-◌, ◌*◌, ◌/◌, ◌^◌, ◌<◌, ◌≤◌, ◌≡◌, refl, sym, ap, ◌∙◌, ◌⊎◌, inl, inr, false,
  List, [], ◌∷◌, ◌++◌, arith, All, length, ltb, Bool-cases, length-append,
}
use mathlib.Core.List.{append-nil, append_assoc}
use epi_pico2w_seringue.Telemetry.{Buffer, append_text, digits}

-- The buffer holds the part of the text that fits in `capacity` bytes with a zero at its end.
pub record IsCut (capacity : ℕ) (full : List ℕ) (o : Buffer) : Type 0 where
  pub rest : List ℕ
  pub split : o.text ++ rest ≡ full
  pub room : length o.text + o.left ≡ capacity
  pub closed : 1 ≤ o.left
  pub cut : (o.left ≡ 1) ⊎ (rest ≡ [])

-- the number that digits with the lowest first stand for
pub number : List ℕ → ℕ
number [] = 0
number (d ∷ ds) = d - 48 + 10 * number ds

digits-number : (n v : ℕ) → v < 10 ^ n → number (digits n v) ≡ v
unfolding number digits
digits-number zero v h = omega arith
digits-number (suc n) v h =
    let small : v / 10 < 10 ^ n = omega (arith, pow-suc 10 n) in
    ground (arith, digits-number n (v / 10) small)

append_text-full : (cs : List ℕ) (o : Buffer) → ltb 1 o.left ≡ false → append_text cs o ≡ o
unfolding append_text
append_text-full [] o h = refl
append_text-full (c ∷ cs) o h = rw h refl

pub append_text-append :
    (a b : List ℕ) (o : Buffer) → append_text b (append_text a o) ≡ append_text (a ++ b) o
unfolding append_text
append_text-append [] b o = refl
append_text-append (c ∷ a) b o = elim (Bool-cases (ltb 1 o.left)) [
  | inl y ↦ rw y (append_text-append a b (record { text = o.text ++ c ∷ []; left = o.left - 1 }))
  | inr n ↦ rw n (append_text-full b o n)
]

pub append_text-IsCut :
    (capacity : ℕ) (cs full : List ℕ) (o : Buffer)
    → IsCut capacity full o
    → IsCut capacity (full ++ cs) (append_text cs o)
unfolding append_text
append_text-IsCut capacity [] full o h = rw (append-nil full) h
append_text-IsCut capacity (c ∷ cs) full o h = elim (Bool-cases (ltb 1 o.left)) [
  | inl y ↦
      let done : h.rest ≡ [] = ground arith in
      let all : o.text ≡ full =
        sym (append-nil o.text) ∙ ap (λ r. o.text ++ r) (sym done) ∙ h.split in
      let next : IsCut capacity (full ++ c ∷ [])
          (record { text = o.text ++ c ∷ []; left = o.left - 1 }) =
        record {
          rest = [];
          split = append-nil (o.text ++ c ∷ []) ∙ ap (λ t. t ++ c ∷ []) all;
          room = omega (arith, length-append o.text (c ∷ []), h.room);
          closed = ground arith;
          cut = inr refl;
        } in
      rw (y, sym (append_assoc full (c ∷ []) cs))
        (append_text-IsCut capacity cs (full ++ c ∷ []) _ next)
  | inr n ↦ rw n (record {
    rest = h.rest ++ c ∷ cs;
    split = sym (append_assoc o.text h.rest (c ∷ cs)) ∙ ap (λ t. t ++ c ∷ cs) h.split;
    room = h.room;
    closed = h.closed;
    cut = inl (ground (arith, h.closed));
  })
]

pub digits-are_digits : (n v : ℕ) → All (λ d. (48 ≤ d) × (d < 58)) (digits n v)
unfolding digits
digits-are_digits zero v = tt
digits-are_digits (suc n) v = ground (arith, digits-are_digits n (v / 10))

-- The digits that `append_uint` finds for a 32-bit number are characters from 0 to 9, and the number
-- that they stand for is the one given: its array of ten is long enough.
pub digits_lem :
    (v : ℕ)
    → v < 4294967296
    → (number (digits 10 v) ≡ v) × All (λ d. (48 ≤ d) × (d < 58)) (digits 10 v)
digits_lem v h = (digits-number 10 v (omega arith), digits-are_digits 10 v)
