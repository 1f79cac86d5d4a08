-- ===== src/CommandApi/Json/Word.antt =====
-- The word behind a colon that `command_parse_json` of src/command_api.c takes for a parameter, as a
-- description of the text.
use epi_pico2w_seringue.Prelude.{
  ℕ, zero, suc, ◌≡◌, ◌≤◌, ◌⊎◌, inl, inr, refl, sym, ap, ◌∙◌, Bool, true, false, ◌||◌, some, List,
  [], ◌∷◌, ◌++◌, length, All, ◌==◌, ==_iff, Bool-cases, arith,
}
use epi_pico2w_seringue.CString.{strchr}
use epi_pico2w_seringue.CommandApi.Json.{skip_quotes, take_name}

-- bytes that are skipped in front of a name, and bytes that end one
abbrev pub is_skipped : ℕ → Bool
is_skipped c = c == b' ' || c == b'"'

abbrev pub is_end : ℕ → Bool
is_end c = c == b'"' || c == b','

-- the first byte, if there is one, passes a test
abbrev pub Starts : (ℕ → Bool) → List ℕ → Type 0
Starts test [] = Unit
Starts test (c ∷ cs) = test c ≡ true

abbrev pub StartsNot : (ℕ → Bool) → List ℕ → Type 0
StartsNot test [] = Unit
StartsNot test (c ∷ cs) = test c ≡ false

-- Behind the first colon that follows the key come blanks and quotes, then the word: up to a quote, a
-- comma, its 39th byte or the end of the text.
pub record Follows (t word : List ℕ) : Type 0 where
  pub gap : List ℕ
  pub skipped : List ℕ
  pub rest : List ℕ
  pub split : t ≡ gap ++ (b':' ∷ (skipped ++ (word ++ rest)))
  pub no_colon : All (λ c. (c == b':') ≡ false) gap
  pub blank : All (λ c. is_skipped c ≡ true) skipped
  pub begins : StartsNot is_skipped (word ++ rest)
  pub inside : All (λ c. is_end c ≡ false) word
  pub ends : ((length word ≤ 39) × Starts is_end rest) ⊎ (length word ≡ 39)

pub strchr-gap :
    (gap t : List ℕ)
    → All (λ c. (c == b':') ≡ false) gap
    → strchr (gap ++ (b':' ∷ t)) b':' ≡ some (b':' ∷ t)
unfolding strchr
strchr-gap [] t h = refl
strchr-gap (c ∷ gap) t (other, others) = rw other (strchr-gap gap t others)

pub strchr_finds :
    (s t : List ℕ)
    → strchr s b':' ≡ some t
    → (gap : List ℕ) × (u : List ℕ) × (s ≡ gap ++ (b':' ∷ u))
      × (t ≡ b':' ∷ u)
      × All (λ c. (c == b':') ≡ false) gap
unfolding strchr
strchr_finds [] t h = cc
strchr_finds (c ∷ s) t h = elim (Bool-cases (c == b':')) [
  | inl colon ↦
      let here : some (c ∷ s) ≡ some t = rw colon at h in
      let e : c ≡ b':' = (==_iff c b':').0 colon in
      let whole : c ∷ s ≡ t = cc in ([], s, ap (λ d. d ∷ s) e, sym whole ∙ ap (λ d. d ∷ s) e, tt)
  | inr other ↦
      let later : strchr s b':' ≡ some t = rw other at h in
      let (gap, u, e, f, all) = strchr_finds s t later in (c ∷ gap, u, ap (c ∷◌) e, f, (other, all))
]

pub skip_quotes-append :
    (skipped t : List ℕ)
    → All (λ c. is_skipped c ≡ true) skipped
    → StartsNot is_skipped t
    → skip_quotes (skipped ++ t) ≡ t
unfolding skip_quotes
skip_quotes-append [] [] h k = refl
skip_quotes-append [] (c ∷ t) h k = rw k refl
skip_quotes-append (c ∷ skipped) t (y, ys) k = rw y (skip_quotes-append skipped t ys k)

pub skip_quotes_splits :
    (s : List ℕ)
    → (skipped : List ℕ) × (s ≡ skipped ++ skip_quotes s)
      × All (λ c. is_skipped c ≡ true) skipped
      × StartsNot is_skipped (skip_quotes s)
unfolding skip_quotes
skip_quotes_splits [] = ([], refl, tt, tt)
skip_quotes_splits (c ∷ s) = elim (Bool-cases (is_skipped c)) [
  | inl y ↦
      let (skipped, e, all, starts) = skip_quotes_splits s in
      rw y (c ∷ skipped, ap (c ∷◌) e, (y, all), starts)
  | inr n ↦ rw n ([], refl, tt, n)
]

pub take_name-append :
    (n : ℕ) (word rest : List ℕ)
    → All (λ c. is_end c ≡ false) word
    → ((length word ≤ n) × Starts is_end rest) ⊎ (length word ≡ n)
    → take_name n (word ++ rest) ≡ word
unfolding take_name
take_name-append zero [] rest h k = refl
take_name-append zero (c ∷ word) rest h k = absurd (ground arith)
take_name-append (suc n) [] [] h k = refl
take_name-append (suc n) [] (c ∷ rest) h (inl (fits, ends)) = rw ends refl
take_name-append (suc n) [] (c ∷ rest) h (inr full) = absurd (ground arith)
take_name-append (suc n) (c ∷ word) rest (inner, others) k =
    rw inner (ap (c ∷◌) (take_name-append n word rest others (ground arith)))

pub take_name_splits :
    (n : ℕ) (s : List ℕ)
    → (rest : List ℕ) × (s ≡ take_name n s ++ rest)
      × All (λ c. is_end c ≡ false) (take_name n s)
      × (((length (take_name n s) ≤ n) × Starts is_end rest) ⊎ (length (take_name n s) ≡ n))
unfolding take_name
take_name_splits zero s = (s, refl, tt, inr refl)
take_name_splits (suc n) [] = ([], refl, tt, inl (omega arith, tt))
take_name_splits (suc n) (c ∷ s) = elim (Bool-cases (is_end c)) [
  | inl y ↦ rw y (c ∷ s, refl, tt, inl (omega arith, y))
  | inr no' ↦
      let (rest, e, all, ends) = take_name_splits n s in
      rw no' (rest, ap (c ∷◌) e, (no', all), ground arith)
]
