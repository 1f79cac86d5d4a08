-- ===== src/CommandApi/Ascii/Lines.antt =====
-- Lines of src/command_api.c's command language, written with one blank between two words.
use epi_pico2w_seringue.Prelude.{
  ℕ, ◌≡◌, ◌≤◌, ◌≢◌, refl, ap, ◌∙◌, false, some, List, [], ◌∷◌, ◌++◌, map, length, All, arith, ◌==◌,
}
use epi_pico2w_seringue.Float.{Float}
use epi_pico2w_seringue.CString.{is_blank, token, after_token, c_string, upper}
use epi_pico2w_seringue.CString.Words.{words, words-token, token-more, after_token-more}
use epi_pico2w_seringue.CommandApi.{Command}
use epi_pico2w_seringue.CommandApi.Ascii.{parse_ascii}
use epi_pico2w_seringue.CommandApi.Ascii.Grammar.{Means}
use epi_pico2w_seringue.CommandApi.Ascii.Meaning.{parse_ascii_iff}

-- a byte of a word: not blank, not zero, not a small letter
abbrev pub IsPlain : ℕ → Type 0
IsPlain b = (is_blank b ≡ false) × (b ≢ 0) × (upper b ≡ b)

abbrev pub IsWord : List ℕ → Type 0
IsWord w = (w ≢ []) × All IsPlain w

-- the words with a blank between them
unfoldable pub join : List (List ℕ) → List ℕ
join [] = []
join (w ∷ []) = w
join (w ∷ v ∷ ws) = w ++ b' ' ∷ join (v ∷ ws)

token-append : (w s : List ℕ) → All IsPlain w → token (w ++ b' ' ∷ s) ≡ w
unfolding token
token-append [] s h = refl
token-append (c ∷ w) s (h, hs) = token-more c (w ++ b' ' ∷ s) h.0 ∙ ap (c ∷◌) (token-append w s hs)

after_token-append : (w s : List ℕ) → All IsPlain w → after_token (w ++ b' ' ∷ s) ≡ s
unfolding after_token
after_token-append [] s h = refl
after_token-append (c ∷ w) s (h, hs) =
    after_token-more c (w ++ b' ' ∷ s) h.0 ∙ after_token-append w s hs

token-whole : (w : List ℕ) → All IsPlain w → token w ≡ w
unfolding token
token-whole [] h = refl
token-whole (c ∷ w) (h, hs) = token-more c w h.0 ∙ ap (c ∷◌) (token-whole w hs)

after_token-whole : (w : List ℕ) → All IsPlain w → after_token w ≡ []
unfolding after_token
after_token-whole [] h = refl
after_token-whole (c ∷ w) (h, hs) = after_token-more c w h.0 ∙ after_token-whole w hs

words-one : (w : List ℕ) → IsWord w → words w ≡ w ∷ []
unfolding words
words-one [] (some_byte, hs) = absurd (some_byte refl)
words-one (c ∷ w) (some_byte, (h, hs)) =
    words-token c w h.0 ∙ rw (token-whole w hs, after_token-whole w hs) refl

words-append : (w s : List ℕ) → IsWord w → words (w ++ b' ' ∷ s) ≡ w ∷ words s
words-append [] s (some_byte, hs) = absurd (some_byte refl)
words-append (c ∷ w) s (some_byte, (h, hs)) =
    words-token c (w ++ b' ' ∷ s) h.0 ∙ rw (token-append w s hs, after_token-append w s hs) refl

words-join : (ws : List (List ℕ)) → All IsWord ws → words (join ws) ≡ ws
unfolding join words
words-join [] h = refl
words-join (w ∷ []) (h, hs) = words-one w h
words-join (w ∷ v ∷ ws) (h, hs) =
    words-append w (join (v ∷ ws)) h ∙ ap (w ∷◌) (words-join (v ∷ ws) hs)

-- bytes that the copy of the line keeps
abbrev IsKept : ℕ → Type 0
IsKept b = (b ≢ 0) × (upper b ≡ b)

copied : (s : List ℕ) → All IsKept s → c_string (map upper s) ≡ s
unfolding c_string
copied [] h = refl
copied (c ∷ s) (h, hs) =
    let real : (c == 0) ≡ false = ground arith in rw (h.1, real, copied s hs) refl

plain-IsKept : (w : List ℕ) → All IsPlain w → All IsKept w
plain-IsKept [] h = tt
plain-IsKept (c ∷ w) (h, hs) = ((h.1, h.2), plain-IsKept w hs)

append-IsKept : (s t : List ℕ) → All IsKept s → All IsKept t → All IsKept (s ++ t)
append-IsKept [] t h k = k
append-IsKept (c ∷ s) t (h, hs) k = (h, append-IsKept s t hs k)

join-IsKept : (ws : List (List ℕ)) → All IsWord ws → All IsKept (join ws)
unfolding join upper
join-IsKept [] h = tt
join-IsKept (w ∷ []) (h, hs) = plain-IsKept w h.1
join-IsKept (w ∷ v ∷ ws) (h, hs) =
    append-IsKept w (b' ' ∷ join (v ∷ ws)) (plain-IsKept w h.1)
      ((λ e. ground arith, ground arith), join-IsKept (v ∷ ws) hs)

-- Words that stand for a command, written on a line of 1 to 159 bytes with one blank between them and
-- without small letters, are parsed to that command.
pub parse_ascii-join :
    (number : List ℕ → Float) (ws : List (List ℕ)) (c : Command)
    → All IsWord ws
    → Means number ws c
    → 1 ≤ length (join ws)
    → length (join ws) ≤ 159
    → parse_ascii number (join ws) ≡ some c
parse_ascii-join number ws c h m few many =
    (parse_ascii_iff number (join ws) c).1
      (few, many, rw (copied (join ws) (join-IsKept ws h), words-join ws h) m)
