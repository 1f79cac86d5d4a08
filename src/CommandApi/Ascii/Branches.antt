-- ===== src/CommandApi/Ascii/Branches.antt =====
-- The branches of `command_parse_ascii` (src/command_api.c): what each accepts is in the command
-- language.
use epi_pico2w_seringue.Prelude.{
  ℕ, ◌≡◌, ◌≢◌, ◌⊎◌, sym, ap, subst, ◌∙◌, true, false, Option, none, some, List, [], ◌∷◌, map, arith,
  inl, inr,
}
use mathlib.Core.Option.{some-injective}
use epi_pico2w_seringue.Float.{Float, lef}
use epi_pico2w_seringue.CString.{bytes, lower, same}
use epi_pico2w_seringue.CString.Search.{same_sound}
use epi_pico2w_seringue.CString.Words.{first_word, other_words}
use epi_pico2w_seringue.CommandApi.{Command, CommandKind, ConfigParam, no_command}
use epi_pico2w_seringue.CommandApi.Names.{parameter}
use epi_pico2w_seringue.CommandApi.Ascii.{
  plain, value_or, zero_f, minus_one, dose_at, move_at, unload_at, sgcal_at, set_kind, set_at,
  Branch, just,
}
use epi_pico2w_seringue.CommandApi.Ascii.Grammar.{
  Means, dose, dose_by, dose_at_speed, dose_and_retract, move, move_at_speed, unload,
  unload_at_speed, calibration_start, calibration_finish, calibration_cancel, set, set_command,
}

-- a branch at the words that follow
abbrev pub at : Branch → List (List ℕ) → Option Command
at f ws =
    f (first_word ws) (first_word (other_words ws)) (first_word (other_words (other_words ws)))

module _ (number : List ℕ → Float) where
  -- what a branch accepts is in the language
  unfoldable pub IsSound : List ℕ × Branch → Type 0
  IsSound (n, f) =
      (ws : List (List ℕ)) (c : Command)
      → at f ws ≡ some c
      → c.kind ≢ CommandKind.none
      → Means number (n ∷ ws) c

  becomes :
      {ws : List (List ℕ)} {x c : Command} → some x ≡ some c → Means number ws x → Means number ws c
  becomes {ws} {x} {c} h m = subst (Means number ws) (some-injective x c h) m

  pub just-IsSound :
      (n : List ℕ) (k : CommandKind)
      → ((ws : List (List ℕ)) → Means number (n ∷ ws) (plain k))
      → IsSound (n, just k)
  unfolding IsSound
  just-IsSound n k m ws c h real = becomes h (m ws)

  dose_at-distance :
      (d : List ℕ) (s r : Option (List ℕ)) (c : Command)
      → dose_at number (some d) s r ≡ some c
      → (lef (number d) zero_f ≡ false)
        × (some (record no_command {
          kind = CommandKind.dose;
          distance_mm = number d;
          speed_mm_s = value_or number zero_f s;
          retract_mm = value_or number minus_one r;
        })
            ≡ some c)
  unfolding dose_at
  dose_at-distance d s r c h = ground arith

  pub dose-IsSound : IsSound (bytes "DOSE", dose_at number)
  unfolding IsSound dose_at first_word other_words
  dose-IsSound [] c h real = becomes h dose
  dose-IsSound (d ∷ []) c h real =
      let (positive, same_c) = dose_at-distance d none none c h in
      becomes same_c (dose_by d positive)
  dose-IsSound (d ∷ s ∷ []) c h real =
      let (positive, same_c) = dose_at-distance d (some s) none c h in
      becomes same_c (dose_at_speed d s positive)
  dose-IsSound (d ∷ s ∷ r ∷ ws) c h real =
      let (positive, same_c) = dose_at-distance d (some s) (some r) c h in
      becomes same_c (dose_and_retract d s r ws positive)

  pub move-IsSound : IsSound (bytes "MOVE", λ v s r. move_at number v s)
  unfolding IsSound move_at first_word other_words
  move-IsSound [] c h real = ground arith
  move-IsSound (d ∷ []) c h real = becomes h (move d)
  move-IsSound (d ∷ s ∷ ws) c h real = becomes h (move_at_speed d s ws)

  pub unload-IsSound : IsSound (bytes "UNLOAD", λ v s r. unload_at number v)
  unfolding IsSound unload_at first_word other_words
  unload-IsSound [] c h real = becomes h unload
  unload-IsSound (s ∷ ws) c h real = becomes h (unload_at_speed s ws)

  sgcal_at-words :
      (v : List ℕ) (c : Command)
      → sgcal_at (some v) ≡ some c
      → (same v (bytes "START") ≡ true) × (some (plain CommandKind.sg_cal_start) ≡ some c)
        ⊎ (same v (bytes "FINISH") ≡ true) × (some (plain CommandKind.sg_cal_finish) ≡ some c)
        ⊎ (same v (bytes "CANCEL") ≡ true) × (some (plain CommandKind.sg_cal_cancel) ≡ some c)
  unfolding sgcal_at
  sgcal_at-words v c h = ground arith

  with_word :
      (v w : List ℕ) {ws : List (List ℕ)} {c : Command}
      → same v w ≡ true
      → Means number (bytes "SGCAL" ∷ w ∷ ws) c
      → Means number (bytes "SGCAL" ∷ v ∷ ws) c
  with_word v w {ws} {c} h m =
      subst (λ v. Means number (bytes "SGCAL" ∷ v ∷ ws) c) (sym (same_sound v w h)) m

  pub sgcal-IsSound : IsSound (bytes "SGCAL", λ v s r. sgcal_at v)
  unfolding IsSound sgcal_at first_word other_words
  sgcal-IsSound [] c h real = ground arith
  sgcal-IsSound (v ∷ ws) c h real = elim (sgcal_at-words v c h) [
    | inl (w, e) ↦ with_word v (bytes "START") w (becomes e (calibration_start ws))
    | inr (inl (w, e)) ↦ with_word v (bytes "FINISH") w (becomes e (calibration_finish ws))
    | inr (inr (w, e)) ↦ with_word v (bytes "CANCEL") w (becomes e (calibration_cancel ws))
  ]

  set_kind-real :
      (p : ConfigParam)
      → set_kind p ≢ CommandKind.none
      → (p ≢ ConfigParam.none) × (set_kind p ≡ CommandKind.set_config)
  set_kind-real p h = ground arith

  pub set-IsSound : IsSound (bytes "SET", λ n v r. set_at number n v)
  unfolding IsSound set_at first_word other_words
  set-IsSound [] c h real = ground arith
  set-IsSound (n ∷ []) c h real = ground arith
  set-IsSound (n ∷ v ∷ ws) c h real =
      let p = parameter (map lower n) in
      let kinds = ap Command.kind (some-injective _ c h) in
      let (known, is_set) = set_kind-real p (λ e. real (sym kinds ∙ e)) in
      becomes (sym (ap (λ k. some (record (set_command p (number v)) { kind = k })) is_set) ∙ h)
        (set n v ws known)
