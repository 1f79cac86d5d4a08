-- ===== src/Buttons/Debounce.antt =====
-- `debounce` of src/buttons.c over many calls, with the true time beside the wrapping clock.
use native.Mathlib.Nat.{add-zero}
use epi_pico2w_seringue.Prelude.{
  ℕ, ◌+◌, ◌-◌, ◌≢◌, if◌then◌else◌, ◌≤◌, ◌<◌, ◌≡◌, refl, ◌⊎◌, inl, Bool, xor, List, [], ◌∷◌, arith,
  All, u32, sub32-elapsed,
}
use epi_pico2w_seringue.Buttons.{Debounced, debounce}

-- a call: the sample, and the milliseconds since the call before
abbrev pub Call : Type 0
Call = Bool × ℕ

-- the calls of one button in order, from the true time `t`
pub run : Debounced → ℕ → List Call → Debounced
run b t [] = b
run b t ((s, d) ∷ calls) = run (debounce b s (u32 (t + d))) (t + d) calls

-- the milliseconds that the calls take together
unfoldable pub duration : List Call → ℕ
duration [] = 0
duration ((s, d) ∷ calls) = d + duration calls

-- Within 30 ms of a settled button: the output is `v`, and a sample that differs was first seen at
-- the true time `at`, after `since`.
record IsRecent (v : Bool) (since t at : ℕ) (b : Debounced) : Type 0 where
  output : b.stable ≡ v
  recent : (b.sample ≡ v) ⊎ ((b.changed ≡ u32 at) × (since ≤ at) × (at ≤ t))

abbrev noted_at : Debounced → Bool → ℕ → ℕ → ℕ
noted_at b s now at = if xor s b.sample then now else at

debounce-IsRecent :
    (v s : Bool) (since t d at : ℕ) (b : Debounced)
    → since ≤ t
    → t + d < since + 30
    → IsRecent v since t at b
    → IsRecent v since (t + d) (noted_at b s (t + d) at) (debounce b s (u32 (t + d)))
unfolding debounce
debounce-IsRecent v s since t d at b begun short r =
    ground (arith, sub32-elapsed at (t + d - at), sub32-elapsed (t + d) 0)

run-IsRecent :
    (v : Bool) (since t at : ℕ) (b : Debounced) (calls : List Call)
    → since ≤ t
    → t + duration calls < since + 30
    → IsRecent v since t at b
    → (run b t calls).stable ≡ v
unfolding run duration
run-IsRecent v since t at b [] begun short r = r.output
run-IsRecent v since t at b ((s, d) ∷ calls) begun short r =
    run-IsRecent v since (t + d) (noted_at b s (t + d) at) (debounce b s (u32 (t + d))) calls
      (omega arith) (omega arith) (debounce-IsRecent v s since t d at b begun (omega arith) r)

-- A settled button keeps its output through every sequence of calls that lasts less than 30 ms,
-- whatever their samples: a bounce or a glitch of that length does not come through.
pub run-glitch :
    (b : Debounced) (t : ℕ) (calls : List Call)
    → b.sample ≡ b.stable
    → duration calls < 30
    → (run b t calls).stable ≡ b.stable
run-glitch b t calls settled short =
    run-IsRecent b.stable t t t b calls (omega arith) (omega arith)
      (record { output = refl; recent = inl settled })

-- A contact held at `s` since the true time `at`: the output is `s`, or 30 ms have not passed.
record IsHeld (s : Bool) (at t : ℕ) (b : Debounced) : Type 0 where
  sample : b.sample ≡ s
  changed : b.changed ≡ u32 at
  begun : at ≤ t
  output : (b.stable ≡ s) ⊎ (t < at + 30)

debounce-IsHeld :
    (s : Bool) (at t d : ℕ) (b : Debounced)
    → t + d < at + 4294967296
    → IsHeld s at t b
    → IsHeld s at (t + d) (debounce b s (u32 (t + d)))
unfolding debounce
debounce-IsHeld s at t d b fits h = ground (arith, sub32-elapsed at (t + d - at))

run-IsHeld :
    (s : Bool) (at t : ℕ) (b : Debounced) (calls : List Call)
    → t + duration calls < at + 4294967296
    → All (λ (c : Call). c.0 ≡ s) calls
    → IsHeld s at t b
    → IsHeld s at (t + duration calls) (run b t calls)
unfolding run duration
run-IsHeld s at t b [] fits all h = rw add-zero h
run-IsHeld s at t b ((x, d) ∷ calls) fits all h =
    let e : t + d + duration calls ≡ t + (d + duration calls) = omega arith in
    rw (← e, all.0)
      (run-IsHeld s at (t + d) (debounce b s (u32 (t + d))) calls (omega arith) all.1
        (debounce-IsHeld s at t d b (omega arith) h))

debounce-edge :
    (s : Bool) (t : ℕ) (b : Debounced) → b.sample ≢ s → IsHeld s t t (debounce b s (u32 t))
unfolding debounce
debounce-edge s t b differs = ground (arith, sub32-elapsed t 0)

-- A contact that changes to `s` and holds it comes through: after calls that all read `s` and last at
-- least 30 ms, though not a whole turn of the clock, the output is `s`.
pub run-held :
    (s : Bool) (b : Debounced) (t : ℕ) (calls : List Call)
    → b.sample ≢ s
    → All (λ (c : Call). c.0 ≡ s) calls
    → 30 ≤ duration calls
    → duration calls < 4294967296
    → (run (debounce b s (u32 t)) t calls).stable ≡ s
run-held s b t calls differs all long fits =
    let h : IsHeld s t (t + duration calls) (run (debounce b s (u32 t)) t calls) =
      run-IsHeld s t t (debounce b s (u32 t)) calls (omega arith) all
        (debounce-edge s t b differs) in
    ground arith
