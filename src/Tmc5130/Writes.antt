-- ===== src/Tmc5130/Writes.antt =====
-- The register writes of src/tmc5130.c: what each operation sends, and where it stops.
use epi_pico2w_seringue.Prelude.{
  ℕ, ◌/◌, ◌≡◌, refl, ap, Bool, true, false, not, List, [], ◌∷◌, ◌++◌, ◌==◌, Bool-cases, inl, inr,
}
use epi_pico2w_seringue.Board.{Act, Board, M, and_then}
use epi_pico2w_seringue.Tmc5130.{tx_frame, write, set_ramp}
use epi_pico2w_seringue.Tmc5130.Frames.{framed, during}
use epi_pico2w_seringue.Tmc5130.Reg.{vstart, a1, v1, amax, vmax, dmax, d1, vstop}

-- a register and the value for it
abbrev pub Setting : Type 0
Setting = ℕ × ℕ

-- the log after these writes
abbrev pub written : List Setting → List Act → List Act
written [] log = log
written ((r, v) ∷ rs) log = written rs (framed (tx_frame r v true) log)

-- the chip's status byte to this write is not 0xff
abbrev pub accepts : Board → Setting → List Act → Bool
accepts b s log = not ((b.answer (during (tx_frame s.0 s.1 true) log)).b0 == 0xff)

-- the chip accepts each write when its turn comes
abbrev pub AllAccepted : Board → List Setting → List Act → Type 0
AllAccepted b [] log = Unit
AllAccepted b (s ∷ rs) log =
    (accepts b s log ≡ true) × AllAccepted b rs (framed (tx_frame s.0 s.1 true) log)

-- All writes of the list are made and accepted, and true is returned; or the chip accepts those before
-- some write and refuses that one, which is the last that is made, and false is returned. Nothing else is
-- done.
pub data Sends (rs : List Setting) (b : Board) : Bool × Board → Type 0 where
  all_made : AllAccepted b rs b.log → Sends rs b (true, record b { log = written rs b.log })
  refused_at :
      (before : List Setting) (s : Setting) (after : List Setting)
      → before ++ s ∷ after ≡ rs
      → AllAccepted b before b.log
      → accepts b s (written before b.log) ≡ false
      → Sends rs b (false, record b { log = written (before ++ s ∷ []) b.log })

-- writes one after the other, each if the one before was accepted
unfoldable pub writes : Setting → List Setting → M Bool
writes (r, v) [] = write r v
writes (r, v) (s ∷ rs) = and_then (write r v) (writes s rs)

write_lem :
    (r v : ℕ) (b : Board)
    → write r v b ≡ (accepts b (r, v) b.log, record b { log = framed (tx_frame r v true) b.log })
unfolding write
write_lem r v b = refl

-- one accepted write in front of others
one_more :
    (s : Setting) (rs : List Setting) (b : Board) (out : Bool × Board)
    → accepts b s b.log ≡ true
    → Sends rs (record b { log = framed (tx_frame s.0 s.1 true) b.log }) out
    → Sends (s ∷ rs) b out
one_more s rs b _ taken (Sends.all_made all) = Sends.all_made (taken, all)
one_more s rs b _ taken (Sends.refused_at before t after split all refused) =
    Sends.refused_at (s ∷ before) t after (ap (λ l. s ∷ l) split) (taken, all) refused

-- A chain of writes makes its writes in order with nothing between, up to the first that is refused,
-- and returns true exactly if none is.
pub writes-Sends : (s : Setting) (rs : List Setting) (b : Board) → Sends (s ∷ rs) b (writes s rs b)
unfolding writes
writes-Sends (r, v) [] b = elim (Bool-cases (accepts b (r, v) b.log)) [
  | inl taken ↦ rw (write_lem r v b, taken) (Sends.all_made (taken, tt))
  | inr refused ↦ rw (write_lem r v b, refused) (Sends.refused_at [] (r, v) [] refl tt refused)
]
writes-Sends (r, v) (s ∷ rs) b =
    let next : Board = record b { log = framed (tx_frame r v true) b.log } in
    elim (Bool-cases (accepts b (r, v) b.log)) [
      | inl taken ↦
          rw (write_lem r v b, taken)
            (one_more (r, v) (s ∷ rs) b (writes s rs next) taken (writes-Sends s rs next))
      | inr refused ↦
          rw (write_lem r v b, refused) (Sends.refused_at [] (r, v) (s ∷ rs) refl tt refused)
    ]

abbrev ramp_settings : ℕ → ℕ → ℕ → ℕ → ℕ → List Setting
ramp_settings v a1' amax' dmax' d1' =
    (a1, a1')
    ∷ (v1, v / 4)
    ∷ (amax, amax')
    ∷ (vmax, v)
    ∷ (dmax, dmax')
    ∷ (d1, d1')
    ∷ (vstop, 10)
    ∷ []

-- Setting up the ramp writes VSTART, A1, V1, AMAX, VMAX, DMAX, D1 and VSTOP in this order with nothing
-- between and returns true if the chip accepts each, and ends with the first that is refused and returns
-- false if not.
pub set_ramp-Sends :
    (v a1' amax' dmax' d1' : ℕ) (b : Board)
    → Sends ((vstart, 1) ∷ ramp_settings v a1' amax' dmax' d1') b (set_ramp v a1' amax' dmax' d1' b)
unfolding set_ramp writes
set_ramp-Sends v a1' amax' dmax' d1' b =
    writes-Sends (vstart, 1) (ramp_settings v a1' amax' dmax' d1') b
