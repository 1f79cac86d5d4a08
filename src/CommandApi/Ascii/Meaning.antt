-- ===== src/CommandApi/Ascii/Meaning.antt =====
-- `command_parse_ascii` of src/command_api.c accepts the command language.
use epi_pico2w_seringue.Prelude.{
  ℕ, ◌≡◌, ◌≤◌, ◌≢◌, ◌↔◌, refl, sym, ap, subst, ◌∙◌, true, false, Option, none, some, List, [], ◌∷◌,
  map, length, All, arith, ◌==◌, leb, ◌||◌, Bool-cases, inl, inr,
}
use mathlib.Core.Option.{some-injective}
use epi_pico2w_seringue.Float.{Float}
use epi_pico2w_seringue.CString.{bytes, c_string, upper, lower, same, strtok}
use epi_pico2w_seringue.CString.Search.{same_sound}
use epi_pico2w_seringue.CString.Words.{words, first_word, other_words, strtok_word, strtok-words}
use epi_pico2w_seringue.CommandApi.{Command, CommandKind, ConfigParam, no_command}
use epi_pico2w_seringue.CommandApi.Names.{parameter}
use epi_pico2w_seringue.CommandApi.Ascii.{
  set_kind, Branch, branches, choose, verb, with_kind, parse_words, parse_ascii,
}
use epi_pico2w_seringue.CommandApi.Ascii.Grammar.{
  Means, push, pull, stop, set_zero, restart, bootsel, reset, flush, dose, dose_by, dose_at_speed,
  dose_and_retract, move, move_at_speed, unload, unload_at_speed, calibration_start,
  calibration_finish, calibration_cancel, set, set_command,
}
use epi_pico2w_seringue.CommandApi.Ascii.Branches.{
  at, IsSound, just-IsSound, dose-IsSound, move-IsSound, unload-IsSound, sgcal-IsSound, set-IsSound,
}

choose_words : (number : List ℕ → Float) → List (List ℕ) → Option Command
unfolding with_kind choose branches
choose_words number [] = none
choose_words number (cmd ∷ ws) = with_kind (at (choose cmd (branches number)) ws)

verb-words :
    (number : List ℕ → Float) (cmd save : List ℕ)
    → verb number cmd save ≡ at (choose cmd (branches number)) (words save)
unfolding verb
verb-words number cmd save = simp (strtok_word, strtok-words)

parse_first :
    (number : List ℕ → Float) (o : Option (List ℕ)) (save : List ℕ) (ws : List (List ℕ))
    → o ≡ first_word ws
    → words save ≡ other_words ws
    → parse_words number (o, save) ≡ choose_words number ws
unfolding parse_words choose_words first_word other_words
parse_first number none save [] h k = refl
parse_first number none save (w ∷ ws) h k = ground arith
parse_first number (some cmd) save [] h k = ground arith
parse_first number (some cmd) save (w ∷ ws) h k =
    rw (verb-words number cmd save, k, some-injective cmd w h) refl

parse_words_lem :
    (number : List ℕ → Float) (s : List ℕ)
    → parse_words number (strtok s) ≡ choose_words number (words s)
parse_words_lem number s =
    parse_first number (strtok s).0 (strtok s).1 (words s) (strtok_word s) (strtok-words s)

module _ (number : List ℕ → Float) where
  branches-IsSound : All (IsSound number) (branches number)
  unfolding branches
  branches-IsSound = (
    just-IsSound number _ _ push,
    (
      just-IsSound number _ _ pull,
      (
        just-IsSound number _ _ stop,
        (
          just-IsSound number _ _ set_zero,
          (
            just-IsSound number _ _ restart,
            (
              just-IsSound number _ _ bootsel,
              (
                just-IsSound number _ _ reset,
                (
                  just-IsSound number _ _ flush,
                  (
                    dose-IsSound number,
                    (
                      move-IsSound number,
                      (unload-IsSound number, (sgcal-IsSound number, (set-IsSound number, tt))),
                    ),
                  ),
                ),
              ),
            ),
          ),
        ),
      ),
    ),
  )

  choose-same :
      (cmd n : List ℕ) (f : Branch) (bs : List (List ℕ × Branch)) (ws : List (List ℕ))
      → same cmd n ≡ true
      → at (choose cmd ((n, f) ∷ bs)) ws ≡ at f ws
  unfolding choose
  choose-same cmd n f bs ws h = rw h refl

  choose-other :
      (cmd n : List ℕ) (f : Branch) (bs : List (List ℕ × Branch)) (ws : List (List ℕ))
      → same cmd n ≡ false
      → at (choose cmd ((n, f) ∷ bs)) ws ≡ at (choose cmd bs) ws
  unfolding choose
  choose-other cmd n f bs ws h = rw h refl

  choose_sound :
      (bs : List (List ℕ × Branch)) (cmd : List ℕ) (ws : List (List ℕ)) (c : Command)
      → All (IsSound number) bs
      → at (choose cmd bs) ws ≡ some c
      → c.kind ≢ CommandKind.none
      → Means number (cmd ∷ ws) c
  unfolding choose IsSound
  choose_sound [] cmd ws c hs h real = absurd (real (sym (ap Command.kind (some-injective _ c h))))
  choose_sound ((n, f) ∷ bs) cmd ws c (sound, hs) h real = elim (Bool-cases (same cmd n)) [
    | inl y ↦
        subst (λ w. Means number (w ∷ ws) c) (sym (same_sound cmd n y))
          (sound ws c (sym (choose-same cmd n f bs ws y) ∙ h) real)
    | inr o ↦ choose_sound bs cmd ws c hs (sym (choose-other cmd n f bs ws o) ∙ h) real
  ]

  with_kind-some :
      (r : Option Command) (c : Command)
      → with_kind r ≡ some c
      → (r ≡ some c) × (c.kind ≢ CommandKind.none)
  unfolding with_kind
  with_kind-some none c h = ground arith
  with_kind-some (some x) c h = ground arith

  set_known :
      (p : ConfigParam) (v : Float)
      → p ≢ ConfigParam.none
      → with_kind (some (record no_command { kind = set_kind p; parameter = p; value = v }))
        ≡ some (set_command p v)
  unfolding with_kind
  set_known p v h = let known : set_kind p ≡ CommandKind.set_config = ground arith in rw known refl

  Means-choose_words :
      {ws : List (List ℕ)} {c : Command} → Means number ws c → choose_words number ws ≡ some c
  unfolding choose_words with_kind choose branches same bytes first_word other_words
  Means-choose_words (push ws) = refl
  Means-choose_words (pull ws) = refl
  Means-choose_words (stop ws) = refl
  Means-choose_words (set_zero ws) = refl
  Means-choose_words (restart ws) = refl
  Means-choose_words (bootsel ws) = refl
  Means-choose_words (reset ws) = refl
  Means-choose_words (flush ws) = refl
  Means-choose_words dose = refl
  Means-choose_words (dose_by d h) = rw h refl
  Means-choose_words (dose_at_speed d s h) = rw h refl
  Means-choose_words (dose_and_retract d s r ws h) = rw h refl
  Means-choose_words (move d) = refl
  Means-choose_words (move_at_speed d s ws) = refl
  Means-choose_words unload = refl
  Means-choose_words (unload_at_speed s ws) = refl
  Means-choose_words (calibration_start ws) = refl
  Means-choose_words (calibration_finish ws) = refl
  Means-choose_words (calibration_cancel ws) = refl
  Means-choose_words (set n v ws known) = set_known (parameter (map lower n)) (number v) known

choose_words_iff :
    (number : List ℕ → Float) (ws : List (List ℕ)) (c : Command)
    → (choose_words number ws ≡ some c) ↔ Means number ws c
unfolding choose_words
choose_words_iff number [] c = (λ h. ground arith, λ m. Means-choose_words number m)
choose_words_iff number (cmd ∷ ws) c = (
  λ h.
      (let (chosen, real) = with_kind-some number (at (choose cmd (branches number)) ws) c h in
        choose_sound number (branches number) cmd ws c (branches-IsSound number) chosen real),
  λ m. Means-choose_words number m,
)

-- A line is accepted, with a command, exactly when it has from 1 to 159 bytes and its words, in capitals
-- and up to the first zero, stand for that command in the command language.
pub parse_ascii_iff :
    (number : List ℕ → Float) (line : List ℕ) (c : Command)
    → (parse_ascii number line ≡ some c) ↔ (
        (1 ≤ length line)
        × (length line ≤ 159)
        × Means number (words (c_string (map upper line))) c)
unfolding parse_ascii
parse_ascii_iff number line c = elim (Bool-cases (length line == 0 || leb 160 (length line))) [
  | inl bad ↦ rw bad (λ h. ground arith, λ (few, many, m). ground arith)
  | inr good ↦
      rw (good, parse_words_lem number (c_string (map upper line)))
        (
          λ h. (
            ground arith,
            ground arith,
            (choose_words_iff number (words (c_string (map upper line))) c).0 h,
          ),
          λ (few, many, m). (choose_words_iff number (words (c_string (map upper line))) c).1 m,
        )
]
