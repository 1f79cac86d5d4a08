-- ===== src/CString/Search.antt =====
-- `strcmp` and `strstr`: a string is found exactly when it occurs.
use epi_pico2w_seringue.Prelude.{
  ℕ, ◌≡◌, ◌≢◌, inl, inr, refl, sym, ap, ◌∙◌, true, none, some, List, [], ◌∷◌, ◌++◌, ◌==◌,
  Bool-cases, and-eq_true, ==_iff, arith,
}
use epi_pico2w_seringue.CString.{same, starts_with, strstr}

-- `strcmp` tells strings apart
pub same_sound : (s t : List ℕ) → same s t ≡ true → s ≡ t
unfolding same
same_sound [] [] h = refl
same_sound [] (b ∷ t) h = ground arith
same_sound (a ∷ s) [] h = ground arith
same_sound (a ∷ s) (b ∷ t) h =
    let (first, others) = and-eq_true (a == b) (same s t) h in
    rw ((==_iff a b).0 first, same_sound s t others) refl

-- `k` occurs in `s`
abbrev pub Occurs : List ℕ → List ℕ → Type 0
Occurs k s = (before : List ℕ) × (after : List ℕ) × (s ≡ before ++ (k ++ after))

pub starts_with_sound :
    (s k : List ℕ) → starts_with s k ≡ true → (after : List ℕ) × (s ≡ k ++ after)
unfolding starts_with
starts_with_sound s [] h = (s, refl)
starts_with_sound [] (d ∷ k) h = absurd (ground arith)
starts_with_sound (c ∷ s) (d ∷ k) h =
    let (first, others) = and-eq_true (c == d) (starts_with s k) h in
    let (after, e) = starts_with_sound s k others in (after, rw ((==_iff c d).0 first, e) refl)

pub starts_with-append : (k after : List ℕ) → starts_with (k ++ after) k ≡ true
unfolding starts_with
starts_with-append [] [] = refl
starts_with-append [] (c ∷ after) = refl
starts_with-append (c ∷ k) after =
    let same_byte : (c == c) ≡ true = ground arith in
    rw (same_byte, starts_with-append k after) refl

pub strstr_finds : (s k t : List ℕ) → strstr s k ≡ some t → Occurs k s
unfolding strstr
strstr_finds [] k t h = elim (Bool-cases (starts_with [] k)) [
  | inl y ↦ let (after, e) = starts_with_sound [] k y in ([], after, e)
  | inr n ↦ absurd (ground arith)
]
strstr_finds (c ∷ s) k t h = elim (Bool-cases (starts_with (c ∷ s) k)) [
  | inl y ↦ let (after, e) = starts_with_sound (c ∷ s) k y in ([], after, e)
  | inr n ↦
      let later : strstr s k ≡ some t = ground arith in
      let (before, after, e) = strstr_finds s k t later in (c ∷ before, after, ap (c ∷◌) e)
]

pub strstr-starts : (s k : List ℕ) → starts_with s k ≡ true → strstr s k ≡ some s
unfolding strstr
strstr-starts [] k h = rw h refl
strstr-starts (c ∷ s) k h = rw h refl

strstr-append : (before k after : List ℕ) → strstr (before ++ (k ++ after)) k ≢ none
unfolding strstr
strstr-append [] k after h =
    absurd (ground (arith, strstr-starts (k ++ after) k (starts_with-append k after)))
strstr-append (c ∷ before) k after h =
    elim (Bool-cases (starts_with (c ∷ before ++ (k ++ after)) k)) [
      | inl y ↦ absurd (ground arith)
      | inr n ↦ strstr-append before k after (ground arith)
    ]

pub strstr_misses : (s k : List ℕ) → strstr s k ≡ none → Occurs k s → ⊥
strstr_misses s k h (before, after, e) =
    strstr-append before k after (sym (ap (λ s. strstr s k) e) ∙ h)
