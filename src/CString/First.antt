-- ===== src/CString/First.antt =====
-- `strstr` finds the first occurrence.
use epi_pico2w_seringue.Prelude.{
  ℕ, suc, ◌≡◌, ◌≤◌, inl, inr, sym, ap, ◌∙◌, true, false, some, List, [], ◌∷◌, ◌++◌, length,
  Bool-cases, arith,
}
use epi_pico2w_seringue.CString.{strstr, starts_with}
use epi_pico2w_seringue.CString.Search.{starts_with_sound, starts_with-append, strstr-starts}

later_first :
    (c : ℕ) (s k before : List ℕ)
    → starts_with (c ∷ s) k ≡ false
    → ((before' after' : List ℕ) → s ≡ before' ++ (k ++ after') → length before ≤ length before')
    → (before' after' : List ℕ) → c ∷ s ≡ before' ++ (k ++ after')
    → suc (length before) ≤ length before'
later_first c s k before n least [] after' g =
    let y : starts_with (c ∷ s) k ≡ true = rw g (starts_with-append k after') in
    absurd (ground arith)
later_first c s k before n least (d ∷ before') after' g =
    let shorter : s ≡ before' ++ (k ++ after') = cc in omega (arith, least before' after' shorter)

-- `strstr` finds the first occurrence
pub strstr_first :
    (s k t : List ℕ)
    → strstr s k ≡ some t
    → (before : List ℕ) × (after : List ℕ) × (t ≡ k ++ after)
      × (s ≡ before ++ t)
      × ((before' after' : List ℕ) → s ≡ before' ++ (k ++ after') → length before ≤ length before')
unfolding strstr
strstr_first [] k t h = elim (Bool-cases (starts_with [] k)) [
  | inl y ↦
      let (after, e) = starts_with_sound [] k y in
      let whole : [] ≡ t = ground arith in
      ([], after, sym whole ∙ e, whole, λ before' after' f. omega arith)
  | inr n ↦ absurd (ground arith)
]
strstr_first (c ∷ s) k t h = elim (Bool-cases (starts_with (c ∷ s) k)) [
  | inl y ↦
      let (after, e) = starts_with_sound (c ∷ s) k y in
      let whole : c ∷ s ≡ t = ground arith in
      ([], after, sym whole ∙ e, whole, λ before' after' f. omega arith)
  | inr n ↦
      let later : strstr s k ≡ some t = ground arith in
      let (before, after, e, f, least) = strstr_first s k t later in
      (c ∷ before, after, e, ap (c ∷◌) f, later_first c s k before n least)
]

pub first-strstr :
    (before k after : List ℕ)
    → ((before' after' : List ℕ)
        → before ++ (k ++ after) ≡ before' ++ (k ++ after')
        → length before ≤ length before')
    → strstr (before ++ (k ++ after)) k ≡ some (k ++ after)
unfolding strstr
first-strstr [] k after least = strstr-starts (k ++ after) k (starts_with-append k after)
first-strstr (c ∷ before) k after least =
    elim (Bool-cases (starts_with (c ∷ (before ++ (k ++ after))) k)) [
      | inl y ↦
          let (after', e) = starts_with_sound (c ∷ (before ++ (k ++ after))) k y in
          absurd (not_below (length before) (least [] after' e))
      | inr n ↦ rw n (
          first-strstr before k after (λ before' after' e.
            less (length before) (length before') (least (c ∷ before') after' (ap (c ∷◌) e))))
    ]
  where
    not_below : (m : ℕ) → suc m ≤ 0 → ⊥
    not_below m h = omega arith

    less : (m n : ℕ) → suc m ≤ suc n → m ≤ n
    less m n h = omega arith
