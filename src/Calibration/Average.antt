-- ===== src/Calibration/Average.antt =====
-- src/stallguard_calibration.c: the thresholds of a whole calibration run.
use native.Mathlib.Nat.{div-lt_iff_lt-mul, le-div_iff_mul-le, div-le_of_le-mul}
use epi_pico2w_seringue.Prelude.{
  ℕ, ◌+◌, ◌*◌, ◌/◌, ◌≤◌, ◌<◌, ◌≡◌, refl, inl, inr, Bool-cases, none, some, List, [], ◌∷◌, arith,
  true, false, ltb, if◌then◌else◌, length,
}
use epi_pico2w_seringue.Calibration.{Calibration, Thresholds, start, add, finish}

-- the samples of a run, given one by one to `sg_calibration_add`
unfoldable pub add_all : Calibration → List ℕ → Calibration
add_all c [] = c
add_all c (v ∷ vs) = add_all (add c v) vs

-- the samples that count, those of ten bits: their number and their sum
unfoldable pub count : List ℕ → ℕ
count [] = 0
count (v ∷ vs) = let rest = count vs in if ltb 1023 v then rest else 1 + rest

unfoldable pub total : List ℕ → ℕ
total [] = 0
total (v ∷ vs) = let rest = total vs in if ltb 1023 v then rest else v + rest

count-le : (vs : List ℕ) → count vs ≤ length vs
unfolding count
count-le [] = omega arith
count-le (v ∷ vs) = ground (arith, count-le vs)

total-le : (vs : List ℕ) → total vs ≤ 1023 * count vs
unfolding count total
total-le [] = omega arith
total-le (v ∷ vs) = ground (arith, total-le vs)

-- what holds of a calibration that has taken `n` samples with the sum `s`
record IsRunning (n s : ℕ) (c : Calibration) : Type 0 where
  active : c.active ≡ true
  counted : c.samples ≡ n
  summed : c.sum ≡ s
  low : n * c.minimum ≤ s
  high : s ≤ n * c.maximum

low_step : (n m s v m' : ℕ) → n * m ≤ s → m' ≤ m → m' ≤ v → (n + 1) * m' ≤ s + v
low_step n m s v m' h k l = grind arith

high_step : (n m s v m' : ℕ) → s ≤ n * m → m ≤ m' → v ≤ m' → s + v ≤ (n + 1) * m'
high_step n m s v m' h k l = grind arith

add-skipped : (c : Calibration) (v : ℕ) → ltb 1023 v ≡ true → add c v ≡ c
unfolding add
add-skipped c v h = ground arith

add-IsRunning :
    (n s v : ℕ) (c : Calibration)
    → n < 4198404
    → s ≤ 1023 * n
    → ltb 1023 v ≡ false
    → IsRunning n s c
    → IsRunning (n + 1) (s + v) (add c v)
unfolding add
add-IsRunning n s v c room bound h r = record {
  active = ground arith;
  counted = ground arith;
  summed = ground arith;
  low = ground (arith, low_step n c.minimum s v (if ltb v c.minimum then v else c.minimum));
  high = ground (arith, high_step n c.maximum s v (if ltb c.maximum v then v else c.maximum));
}

add_all-IsRunning :
    (n s : ℕ) (c : Calibration) (vs : List ℕ)
    → n + length vs ≤ 4198404
    → s ≤ 1023 * n
    → IsRunning n s c
    → IsRunning (n + count vs) (s + total vs) (add_all c vs)
unfolding add_all count total
add_all-IsRunning n s c [] room bound r = ground arith
add_all-IsRunning n s c (v ∷ vs) room bound r = elim (Bool-cases (ltb 1023 v)) [
  | inl skip ↦ rw (skip, add-skipped c v skip) (add_all-IsRunning n s c vs (omega arith) bound r)
  | inr take ↦
      let e : n + (1 + count vs) ≡ n + 1 + count vs = omega arith in
      let f : s + (v + total vs) ≡ s + v + total vs = omega arith in
      rw (take, e, f)
        (add_all-IsRunning (n + 1) (s + v) (add c v) vs (omega arith) (ground arith)
          (add-IsRunning n s v c (omega arith) bound take r))
]

abbrev begun : List ℕ → Calibration
begun vs = add_all start vs

begun-IsRunning : (vs : List ℕ) → length vs ≤ 4198404 → IsRunning (count vs) (total vs) (begun vs)
unfolding start
begun-IsRunning vs room =
    let e : 0 + count vs ≡ count vs = omega arith in
    let f : 0 + total vs ≡ total vs = omega arith in
    rw (e, f) at
      (add_all-IsRunning 0 0 start vs (omega arith) (omega arith) (record {
        active = refl;
        counted = refl;
        summed = refl;
        low = omega arith;
        high = omega arith;
      }))

-- the thresholds of an average, with no wrap-around
abbrev pub thresholds : ℕ → Thresholds
thresholds avg = record { baseline = avg; warning = avg * 70 / 100; critical = avg * 50 / 100 }

average-le : (vs : List ℕ) → ltb (count vs) 100 ≡ false → total vs / count vs ≤ 1023
average-le vs h = ground (
  arith,
  total-le vs,
  (div-lt_iff_lt-mul {k = count vs} {x = total vs} {y = 1024} (ground arith)).1,
)

-- A run of at most 4198404 samples, which do not overflow the sum, ends with the rounded-down average
-- of its samples of ten bits as the baseline and with 70 and 50 percent of it as the lower
-- thresholds, if there are at least 100 of them and the average is at least 40. It fails otherwise.
pub finish-add_all :
    (vs : List ℕ)
    → length vs ≤ 4198404
    → (finish (add_all start vs)).1 ≡ (
        if ltb (count vs) 100
        then none
        else if ltb (total vs / count vs) 40
        then none
        else some (thresholds (total vs / count vs)))
unfolding finish
finish-add_all vs room = ground (arith, begun-IsRunning vs room, average-le vs)

-- A baseline that a run of at most 4198404 samples ends with lies between the smallest and the
-- largest sample noted.
pub finish-baseline_between :
    (vs : List ℕ) {t : Thresholds}
    → length vs ≤ 4198404
    → (finish (add_all start vs)).1 ≡ some t
    → ((add_all start vs).minimum ≤ t.baseline) × (t.baseline ≤ (add_all start vs).maximum)
unfolding finish
finish-baseline_between vs {t} room h =
    let r : IsRunning (count vs) (total vs) (begun vs) = begun-IsRunning vs room in
    let enough : ltb (count vs) 100 ≡ false = ground arith in
    let avg : t.baseline ≡ total vs / count vs = ground (arith, average-le vs) in
    (
      rw avg (
          (le-div_iff_mul-le {k = count vs} {x = (begun vs).minimum} {y = total vs}
              (ground arith)).1
            (ground arith)),
      rw avg (div-le_of_le-mul (count vs) r.high),
    )

-- Both lower thresholds lie below the baseline in the order that the settings ask for, and all are
-- positive.
pub finish-ordered :
    (c : Calibration) {t : Thresholds}
    → (finish c).1 ≡ some t
    → (0 < t.critical) × (t.critical < t.warning) × (t.warning < t.baseline) × (40 ≤ t.baseline)
unfolding finish
finish-ordered c h = ground arith
