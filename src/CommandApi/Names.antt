-- ===== src/CommandApi/Names.antt =====
-- `same_name` and `parameter` of src/command_api.c: the names of the settings.
use epi_pico2w_seringue.Prelude.{
  ℕ, ◌≡◌, ◌≢◌, ◌↔◌, refl, sym, ap, ◌∙◌, ◌⊎◌, inl, inr, Bool, true, false, ◌&&◌, List, [], ◌∷◌, map,
  All, ◌==◌, arith, if◌then◌else◌, Bool-cases, and-eq_true, ==_iff,
}
use epi_pico2w_seringue.CString.{bytes, lower}
use epi_pico2w_seringue.CommandApi.{ConfigParam}

-- `same_name`; no byte of a string is 0, so a string that ends first is another one
unfoldable pub same_name : List ℕ → List ℕ → Bool
unfolding lower
same_name [] [] = true
same_name (a ∷ s) (b ∷ t) = lower a == lower b && same_name s t
same_name _ _ = false

-- the table of `parameter`
abbrev table : List (List ℕ × ConfigParam)
table =
    (bytes "screw_pitch_mm", ConfigParam.screw_pitch_mm)
    ∷ (bytes "motor_steps_per_rev", ConfigParam.motor_steps_per_rev)
    ∷ (bytes "microsteps", ConfigParam.microsteps)
    ∷ (bytes "motor_run_current_mA", ConfigParam.run_current_ma)
    ∷ (bytes "motor_hold_current_mA", ConfigParam.hold_current_ma)
    ∷ (bytes "manual_speed_mm_s", ConfigParam.manual_speed_mm_s)
    ∷ (bytes "dosing_speed_mm_s", ConfigParam.dosing_speed_mm_s)
    ∷ (bytes "trigger_dose_mm", ConfigParam.trigger_dose_mm)
    ∷ (bytes "a1_mm_s2", ConfigParam.a1_mm_s2)
    ∷ (bytes "amax_mm_s2", ConfigParam.amax_mm_s2)
    ∷ (bytes "dmax_mm_s2", ConfigParam.dmax_mm_s2)
    ∷ (bytes "d1_mm_s2", ConfigParam.d1_mm_s2)
    ∷ (bytes "retract_distance_mm", ConfigParam.retract_distance_mm)
    ∷ (bytes "retract_speed_mm_s", ConfigParam.retract_speed_mm_s)
    ∷ (bytes "retract_delay_ms", ConfigParam.retract_delay_ms)
    ∷ (bytes "position_min_mm", ConfigParam.position_min_mm)
    ∷ (bytes "position_max_mm", ConfigParam.position_max_mm)
    ∷ (bytes "manual_timeout_ms", ConfigParam.manual_timeout_ms)
    ∷ (bytes "stallguard_threshold", ConfigParam.stallguard_threshold)
    ∷ (bytes "stallguard_warning_level", ConfigParam.stallguard_warning)
    ∷ (bytes "stallguard_critical_level", ConfigParam.stallguard_critical)
    ∷ (bytes "stallguard_filter_count", ConfigParam.stallguard_filter_count)
    ∷ (bytes "stallguard_enabled", ConfigParam.stallguard_enabled)
    ∷ []

-- the loop of `parameter` over its table
unfoldable lookup : List ℕ → List (List ℕ × ConfigParam) → ConfigParam
lookup s [] = ConfigParam.none
lookup s ((n, p) ∷ ps) = let rest = lookup s ps in if same_name s n then p else rest

-- `parameter`
unfoldable pub parameter : List ℕ → ConfigParam
unfolding lookup
parameter s = lookup s table

-- the name that the documentation gives each setting
unfoldable pub name : ConfigParam → List ℕ
name ConfigParam.none = []
name ConfigParam.screw_pitch_mm = bytes "screw_pitch_mm"
name ConfigParam.motor_steps_per_rev = bytes "motor_steps_per_rev"
name ConfigParam.microsteps = bytes "microsteps"
name ConfigParam.run_current_ma = bytes "motor_run_current_mA"
name ConfigParam.hold_current_ma = bytes "motor_hold_current_mA"
name ConfigParam.manual_speed_mm_s = bytes "manual_speed_mm_s"
name ConfigParam.dosing_speed_mm_s = bytes "dosing_speed_mm_s"
name ConfigParam.trigger_dose_mm = bytes "trigger_dose_mm"
name ConfigParam.a1_mm_s2 = bytes "a1_mm_s2"
name ConfigParam.amax_mm_s2 = bytes "amax_mm_s2"
name ConfigParam.dmax_mm_s2 = bytes "dmax_mm_s2"
name ConfigParam.d1_mm_s2 = bytes "d1_mm_s2"
name ConfigParam.retract_distance_mm = bytes "retract_distance_mm"
name ConfigParam.retract_speed_mm_s = bytes "retract_speed_mm_s"
name ConfigParam.retract_delay_ms = bytes "retract_delay_ms"
name ConfigParam.position_min_mm = bytes "position_min_mm"
name ConfigParam.position_max_mm = bytes "position_max_mm"
name ConfigParam.manual_timeout_ms = bytes "manual_timeout_ms"
name ConfigParam.stallguard_threshold = bytes "stallguard_threshold"
name ConfigParam.stallguard_warning = bytes "stallguard_warning_level"
name ConfigParam.stallguard_critical = bytes "stallguard_critical_level"
name ConfigParam.stallguard_filter_count = bytes "stallguard_filter_count"
name ConfigParam.stallguard_enabled = bytes "stallguard_enabled"

lower-lower : (c : ℕ) → lower (lower c) ≡ lower c
unfolding lower
lower-lower c = ground arith

same_name-lower : (s n : List ℕ) → same_name (map lower s) n ≡ same_name s n
unfolding same_name
same_name-lower [] [] = refl
same_name-lower [] (b ∷ t) = refl
same_name-lower (a ∷ s) [] = refl
same_name-lower (a ∷ s) (b ∷ t) = rw (lower-lower a, same_name-lower s t) refl

same_name-agrees : (s n : List ℕ) → same_name s n ≡ true → map lower s ≡ map lower n
unfolding same_name
same_name-agrees [] [] h = refl
same_name-agrees [] (b ∷ t) h = ground arith
same_name-agrees (a ∷ s) [] h = ground arith
same_name-agrees (a ∷ s) (b ∷ t) h =
    let (first, others) = and-eq_true (lower a == lower b) (same_name s t) h in
    rw ((==_iff (lower a) (lower b)).0 first, same_name-agrees s t others) refl

lookup-lower :
    (s : List ℕ) (ps : List (List ℕ × ConfigParam)) → lookup (map lower s) ps ≡ lookup s ps
unfolding lookup
lookup-lower s [] = refl
lookup-lower s ((n, p) ∷ ps) = rw (same_name-lower s n, lookup-lower s ps) refl

IsNamed : List ℕ × ConfigParam → Type 0
IsNamed (n, p) = map lower n ≡ map lower (name p)

lookup-finds :
    (s : List ℕ) (ps : List (List ℕ × ConfigParam))
    → All IsNamed ps
    → (lookup s ps ≡ ConfigParam.none) ⊎ (map lower s ≡ map lower (name (lookup s ps)))
unfolding lookup IsNamed
lookup-finds s [] h = inl refl
lookup-finds s ((n, p) ∷ ps) (h, hs) = elim (Bool-cases (same_name s n)) [
  | inl y ↦ rw y (inr (same_name-agrees s n y ∙ h))
  | inr n ↦ rw n (lookup-finds s ps hs)
]

parameter-name : (p : ConfigParam) → p ≢ ConfigParam.none → parameter (name p) ≡ p
unfolding parameter name same_name bytes
parameter-name ConfigParam.none h = absurd (h refl)
parameter-name ConfigParam.screw_pitch_mm h = refl
parameter-name ConfigParam.motor_steps_per_rev h = refl
parameter-name ConfigParam.microsteps h = refl
parameter-name ConfigParam.run_current_ma h = refl
parameter-name ConfigParam.hold_current_ma h = refl
parameter-name ConfigParam.manual_speed_mm_s h = refl
parameter-name ConfigParam.dosing_speed_mm_s h = refl
parameter-name ConfigParam.trigger_dose_mm h = refl
parameter-name ConfigParam.a1_mm_s2 h = refl
parameter-name ConfigParam.amax_mm_s2 h = refl
parameter-name ConfigParam.dmax_mm_s2 h = refl
parameter-name ConfigParam.d1_mm_s2 h = refl
parameter-name ConfigParam.retract_distance_mm h = refl
parameter-name ConfigParam.retract_speed_mm_s h = refl
parameter-name ConfigParam.retract_delay_ms h = refl
parameter-name ConfigParam.position_min_mm h = refl
parameter-name ConfigParam.position_max_mm h = refl
parameter-name ConfigParam.manual_timeout_ms h = refl
parameter-name ConfigParam.stallguard_threshold h = refl
parameter-name ConfigParam.stallguard_warning h = refl
parameter-name ConfigParam.stallguard_critical h = refl
parameter-name ConfigParam.stallguard_filter_count h = refl
parameter-name ConfigParam.stallguard_enabled h = refl

table-IsNamed : All IsNamed table
unfolding IsNamed name bytes
table-IsNamed = ground arith

parameter-lower : (s : List ℕ) → parameter (map lower s) ≡ parameter s
unfolding parameter
parameter-lower s = lookup-lower s table

named :
    (s : List ℕ) (p : ConfigParam)
    → p ≢ ConfigParam.none
    → parameter s ≡ p
    → map lower s ≡ map lower (name p)
unfolding parameter
named s p real h = elim (lookup-finds s table table-IsNamed) [
  | inl not_there ↦ absurd (real (sym h ∙ not_there))
  | inr agrees ↦ agrees ∙ ap (λ p. map lower (name p)) h
]

-- A text names a parameter exactly when it is the name of its setting, whatever the case of the letters.
pub parameter_iff :
    (s : List ℕ) (p : ConfigParam)
    → p ≢ ConfigParam.none
    → (parameter s ≡ p) ↔ (map lower s ≡ map lower (name p))
parameter_iff s p real = (
  named s p real,
  λ h. sym (parameter-lower s) ∙ ap parameter h ∙ parameter-lower (name p) ∙ parameter-name p real,
)
