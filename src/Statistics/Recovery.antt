-- ===== src/Statistics/Recovery.antt =====
-- The record that `statistics_persist` of src/statistics.c writes is the one that `statistics_init`
-- finds after a restart.
use epi_pico2w_seringue.Prelude.{
  ℕ, ◌+◌, ◌<◌, ◌≡◌, inl, inr, ap, ◌∙◌, Bool, true, false, not, List, ◌∷◌, length, if◌then◌else◌,
  u32, arith,
}
use epi_pico2w_seringue.Board.{Act, Board, flash_attempt, flash_safe_execute}
use epi_pico2w_seringue.Flash.{Build}
use epi_pico2w_seringue.Flash.Writes.{IsFlash, IsNor, atop, flash_safe_execute-granted}
use epi_pico2w_seringue.Statistics.{Statistics, page_at, do_write, next_slot, persist, init}
use epi_pico2w_seringue.Statistics.Newest.{
  Aligned, next_slot_lem, stats_page-length, write_calls, do_write-calls,
}
use epi_pico2w_seringue.Statistics.Pages.{page_of}
use epi_pico2w_seringue.Statistics.Stored.{IsStored, Wrote, append-Wrote, wrap-Wrote}
use epi_pico2w_seringue.Statistics.Advance.{init-advanced, advanced-IsStored}

abbrev pub outcome : Statistics → ℕ × ℕ × Bool → Bool × Board → (Bool × Statistics) × Board
outcome st next (ok, b) = (
  (
    ok,
    (if ok
        then record st {
          sequence = u32 (st.sequence + 1);
          current_sector = next.0;
          current_page = next.1;
          dirty = false;
        }
        else st),
  ),
  b,
)

pub persist-dirty :
    (build : Build) (st : Statistics) (b : Board)
    → st.dirty ≡ true
    → let next = next_slot st in
      persist build st b
      ≡ outcome st next (
          flash_safe_execute
            (do_write
              (page_at build next.0 next.1)
              next.2
              (page_of (u32 (st.sequence + 1)) st.count))
            b)
unfolding persist
persist-dirty build st b dirty = let due : not st.dirty ≡ false = ap not dirty in rw due

-- The attempt of `statistics_persist` that succeeds writes the next page.
module _ (build : Build) (st : Statistics) (b : Board) (flash : IsFlash b) (nor : IsNor b)
    (aligned : Aligned build) (stored : IsStored build (b.flash b.log) st)
    (sequences : st.sequence < 4294967295) (counts : st.count < 4294967296)
    (dirty : st.dirty ≡ true) (ok : (persist build st b).0.0 ≡ true) where
  abbrev pub next : ℕ × ℕ × Bool
  next = next_slot st

  abbrev pub page : List ℕ
  page = page_of (u32 (st.sequence + 1)) st.count

  abbrev pub calls : List Act
  calls = write_calls (page_at build next.0 next.1) next.2 page

  next-placed : (next.0 < 2) × (next.1 < 16)
  next-placed = elim (next_slot_lem st stored.placed) [
    | inl a ↦ rw a.1 (omega (arith, a.0, stored.placed))
    | inr a ↦ rw a.1 (omega (arith, a.0, stored.placed))
  ]

  persist-Wrote :
      Wrote build (b.flash b.log) (b.flash (atop calls (flash_attempt ∷ b.log))) next.0 next.1 page
  persist-Wrote =
      let size : length page ≡ 256 = stats_page-length (u32 (st.sequence + 1)) st.count _ in
      elim (next_slot_lem st stored.placed) [
        | inl a ↦ rw a.1 (append-Wrote build b st page flash nor size stored a.0)
        | inr a ↦ rw a.1 (wrap-Wrote build b st page flash nor aligned size stored.placed)
      ]

  pub persist-done : persist build st b ≡ (
    (
      true,
      record st {
        sequence = u32 (st.sequence + 1);
        current_sector = next.0;
        current_page = next.1;
        dirty = false;
      },
    ),
    record b { log = atop calls (flash_attempt ∷ b.log) },
  )
  persist-done =
      let write = do_write (page_at build next.0 next.1) next.2 page in
      let tried = persist-dirty build st b dirty in
      let granted : (flash_safe_execute write b).0 ≡ true = rw tried at ok in
      let done =
        flash_safe_execute-granted b write calls
          (λ log. do_write-calls (page_at build next.0 next.1) next.2 page b log) granted in
      tried ∙ ap (outcome st next) (λ i. (granted i, done i))

  no_wrap : u32 (st.sequence + 1) ≡ st.sequence + 1
  no_wrap = omega arith

  -- When the counter has been written, a restart finds it: the start reads exactly the state that is left,
  -- with the count, the sequence number and the place of its record. The flash erases and programs as its
  -- data sheet says, the store begins at a sector, no valid record in it is newer than the current one, the
  -- pages behind the current one are erased, and the count and the next sequence number fit in 32 bits.
  pub init-persist :
      let ((ok, st'), b') = persist build st b in
      (init build (b'.flash b'.log) ≡ st') × IsStored build (b'.flash b'.log) st'
  init-persist = rw persist-done (
    init-advanced build (b.flash b.log) (b.flash (atop calls (flash_attempt ∷ b.log))) st next.0
        next.1 stored (u32 (st.sequence + 1)) no_wrap sequences counts persist-Wrote next-placed.0
        next-placed.1,
    advanced-IsStored build (b.flash b.log) (b.flash (atop calls (flash_attempt ∷ b.log))) st next.0
        next.1 stored (u32 (st.sequence + 1)) no_wrap sequences counts persist-Wrote next-placed.0
        next-placed.1,
  )
