-- ===== src/CString/Words.antt =====
-- `strtok_r`, called again and again, gives the words of a string.
use epi_pico2w_seringue.Prelude.{
  ℕ, ◌≡◌, refl, sym, ap, ◌∙◌, ◌⊎◌, true, false, Option, none, some, List, [], ◌∷◌, arith,
  if◌then◌else◌, Bool-cases, inl, inr,
}
use epi_pico2w_seringue.CString.{is_blank, skip_blanks, token, after_token, strtok}

abbrev attach : ℕ → List ℕ → List (List ℕ) → List (List ℕ)
attach c [] ws = (c ∷ []) ∷ ws
attach c (d ∷ _) [] = (c ∷ []) ∷ []
attach c (d ∷ _) (w ∷ ws) = if is_blank d then (c ∷ []) ∷ w ∷ ws else (c ∷ w) ∷ ws

-- the maximal runs of bytes that are not blank, in order
unfoldable pub words : List ℕ → List (List ℕ)
words [] = []
words (c ∷ cs) = let rest = words cs in if is_blank c then rest else attach c cs rest

words-skip_blanks : (s : List ℕ) → words (skip_blanks s) ≡ words s
unfolding words skip_blanks
words-skip_blanks [] = refl
words-skip_blanks (c ∷ cs) = ground (arith, words-skip_blanks cs)

attach-blank :
    (c d : ℕ) (cs : List ℕ) (ws : List (List ℕ))
    → is_blank d ≡ true
    → attach c (d ∷ cs) ws ≡ (c ∷ []) ∷ ws
attach-blank c d cs [] h = refl
attach-blank c d cs (w ∷ ws) h = rw h refl

attach-more :
    (c d : ℕ) (cs w : List ℕ) (ws : List (List ℕ))
    → is_blank d ≡ false
    → attach c (d ∷ cs) (w ∷ ws) ≡ (c ∷ w) ∷ ws
attach-more c d cs w ws h = rw h refl

words-blank : (c : ℕ) (cs : List ℕ) → is_blank c ≡ true → words (c ∷ cs) ≡ words cs
unfolding words
words-blank c cs h = rw h refl

words-more : (c : ℕ) (cs : List ℕ) → is_blank c ≡ false → words (c ∷ cs) ≡ attach c cs (words cs)
unfolding words
words-more c cs h = rw h refl

pub words-token :
    (c : ℕ) (cs : List ℕ)
    → is_blank c ≡ false
    → words (c ∷ cs) ≡ (c ∷ token cs) ∷ words (after_token cs)
unfolding words token after_token
words-token c [] h = rw h refl
words-token c (d ∷ cs) h = elim (Bool-cases (is_blank d)) [
  | inl blank ↦
      rw (words-more c (d ∷ cs) h, words-blank d cs blank, blank)
        (attach-blank c d cs (words cs) blank)
  | inr more ↦
      words-more c (d ∷ cs) h
      ∙ ap (attach c (d ∷ cs)) (words-token d cs more)
      ∙ attach-more c d cs (d ∷ token cs) (words (after_token cs)) more
      ∙ rw more refl
]

pub token-more : (c : ℕ) (cs : List ℕ) → is_blank c ≡ false → token (c ∷ cs) ≡ c ∷ token cs
unfolding token
token-more c cs h = rw h refl

pub after_token-more :
    (c : ℕ) (cs : List ℕ) → is_blank c ≡ false → after_token (c ∷ cs) ≡ after_token cs
unfolding after_token
after_token-more c cs h = rw h refl

-- the first byte that is skipped to is not blank
skip_blanks_stops :
    (s : List ℕ)
    → (skip_blanks s ≡ [])
      ⊎ ((c : ℕ) × (cs : List ℕ) × (skip_blanks s ≡ c ∷ cs) × (is_blank c ≡ false))
unfolding skip_blanks
skip_blanks_stops [] = inl refl
skip_blanks_stops (c ∷ cs) = elim (Bool-cases (is_blank c)) [
  | inl y ↦ rw y (skip_blanks_stops cs)
  | inr n ↦ rw n (inr (c, cs, refl, n))
]

unfoldable pub first_word : List (List ℕ) → Option (List ℕ)
first_word [] = none
first_word (w ∷ _) = some w

unfoldable pub other_words : List (List ℕ) → List (List ℕ)
other_words [] = []
other_words (_ ∷ ws) = ws

-- What a call returns is the first word, and what it leaves has the other words.
pub strtok_word : (s : List ℕ) → (strtok s).0 ≡ first_word (words s)
unfolding strtok first_word words
strtok_word s = elim (skip_blanks_stops s) [
  | inl none_left ↦ rw (sym (words-skip_blanks s), none_left) refl
  | inr (c, cs, at, n) ↦
      rw (sym (words-skip_blanks s), at, words-token c cs n, token-more c cs n) refl
]

pub strtok-words : (s : List ℕ) → words (strtok s).1 ≡ other_words (words s)
unfolding strtok other_words words
strtok-words s = elim (skip_blanks_stops s) [
  | inl none_left ↦ rw (sym (words-skip_blanks s), none_left) refl
  | inr (c, cs, at, n) ↦
      rw (sym (words-skip_blanks s), at, words-token c cs n, after_token-more c cs n) refl
]
