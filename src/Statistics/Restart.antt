-- ===== src/Statistics/Restart.antt =====
-- A restart of the counter of src/statistics.c after every sequence of its operations.
use epi_pico2w_seringue.Prelude.{
  ℕ, ◌+◌, ◌*◌, ◌<◌, ◌≤◌, ◌≡◌, refl, ap, Bool, true, false, not, List, [], ◌∷◌, length,
  if◌then◌else◌, Bool-cases, inl, inr, u32, arith,
}
use epi_pico2w_seringue.Board.{Act, Board, granted, flash_range_erase, flash_attempt, perform}
use epi_pico2w_seringue.Flash.{flash_sector_size, Build}
use epi_pico2w_seringue.Flash.Writes.{
  touches, IsFlash, IsNor, flash_safe_execute-ok, flash_safe_execute-granted,
}
use epi_pico2w_seringue.Statistics
use epi_pico2w_seringue.Statistics.{
  Statistics, stats_offset, page_at, valid_at, next_slot, persist, factory_reset, init, cleared,
}
use epi_pico2w_seringue.Statistics.Newest.{Aligned}
use epi_pico2w_seringue.Statistics.Pages.{erased-invalid}
use epi_pico2w_seringue.Statistics.Recovery.{persist-dirty, persist-done, init-persist}
use epi_pico2w_seringue.Statistics.Runs.{Operation, run}
use epi_pico2w_seringue.Statistics.Scan.{IsEmpty, init-IsEmpty}
use epi_pico2w_seringue.Statistics.Stored.{IsStored}

-- a flash that does what its data sheet says, and is always granted
pub record IsWorking (b : Board) : Type 0 where
  pub flash : IsFlash b
  pub nor : IsNor b
  pub grants : (log : List Act) → b.grant log ≡ granted

-- The flash fits the state, and once the counter is written a restart finds the state.
pub record Remembers (build : Build) (b : Board) (st : Statistics) : Type 0 where
  pub stored : IsStored build (b.flash b.log) st
  pub found : st.dirty ≡ false → init build (b.flash b.log) ≡ st
  pub count : st.count < 4294967296

-- a step keeps both, with at most one record more
record Kept (build : Build) (st : Statistics) (b : Board) (st' : Statistics) (b' : Board)
    : Type 0 where
  remembers : Remembers build b' st'
  working : IsWorking b'
  sequence : st'.sequence ≤ st.sequence + 1

IsWorking-log : (b : Board) (log : List Act) → IsWorking b → IsWorking (record b { log = log })
IsWorking-log b log h = record {
  flash = record { keeps = h.flash.keeps };
  nor = record { erases = h.nor.erases; programs = h.nor.programs };
  grants = h.grants;
}

persist-Kept :
    (build : Build) (st : Statistics) (b : Board)
    → IsWorking b
    → Aligned build
    → Remembers build b st
    → st.sequence < 4294967295
    → Kept build st b (persist build st b).0.1 (persist build st b).1
persist-Kept build st b working aligned h room = elim (Bool-cases (not st.dirty)) [
  | inl clean ↦
      unfold persist in
      rw clean (record { remembers = h; working = working; sequence = omega arith })
  | inr due ↦
      let dirty : st.dirty ≡ true = ground arith in
      let ok : (persist build st b).0.0 ≡ true =
        rw (persist-dirty build st b dirty) (flash_safe_execute-ok b _ working.grants) in
      let again =
        init-persist build st b working.flash working.nor aligned h.stored room h.count dirty ok in
      let done =
        persist-done build st b working.flash working.nor aligned h.stored room h.count dirty ok in
      record {
        remembers = record { stored = again.1; found = λ e. again.0; count = rw done h.count };
        working = rw done (IsWorking-log b _ working);
        sequence = rw done (omega arith);
      }
]

-- A flash with both sectors erased fits the state that is cleared.
pub blank-Remembers :
    (build : Build) (b : Board)
    → ((at : ℕ)
        → stats_offset build ≤ at
        → at < stats_offset build + 2 * flash_sector_size
        → b.flash b.log at ≡ 255)
    → Remembers build b cleared
blank-Remembers build b erased =
    let empty : IsEmpty build (b.flash b.log) = λ s p hs hp.
      erased-invalid (b.flash b.log) (page_at build s p)
        (λ i lt. erased (page_at build s p + i) (omega arith) (omega arith)) in
    record {
      stored = record {
        placed = record { sector = omega arith; page = omega arith };
        newest = λ s p hs hp valid. cc (valid, empty s p hs hp);
        room = λ p low high i lt. erased (page_at build 0 p + i) (omega arith) (omega arith);
      };
      found = λ e. init-IsEmpty build (b.flash b.log) empty;
      count = omega arith;
    }

abbrev wiped : Statistics → Bool × Board → (Bool × Statistics) × Board
wiped st (ok, b) = ((ok, (if ok then cleared else st)), b)

factory_reset-done :
    (build : Build) (st : Statistics) (b : Board)
    → IsWorking b
    → let erase = flash_range_erase (stats_offset build) (2 * flash_sector_size) in
      factory_reset build st b ≡ ((true, cleared), record b { log = erase ∷ flash_attempt ∷ b.log })
unfolding factory_reset
factory_reset-done build st b working =
    let erase = flash_range_erase (stats_offset build) (2 * flash_sector_size) in
    let ok = flash_safe_execute-ok b (perform erase) working.grants in
    let done =
      flash_safe_execute-granted b (perform erase) (erase ∷ []) (λ log. unfold perform in refl)
        ok in
    ap (wiped st) (λ i. (ok i, done i))

factory_reset-Kept :
    (build : Build) (st : Statistics) (b : Board)
    → IsWorking b
    → Kept build st b (factory_reset build st b).0.1 (factory_reset build st b).1
factory_reset-Kept build st b working =
    let erase = flash_range_erase (stats_offset build) (2 * flash_sector_size) in
    rw (factory_reset-done build st b working) (record {
      remembers =
          blank-Remembers build (record b { log = erase ∷ flash_attempt ∷ b.log })
            (λ at low high.
              working.nor.erases (stats_offset build) (2 * flash_sector_size)
                (flash_attempt ∷ b.log) at (unfold touches in ground arith));
      working = IsWorking-log b (erase ∷ flash_attempt ∷ b.log) working;
      sequence = omega arith;
    })

-- Counting and flushing touch the state only.
dirty-Remembers :
    (build : Build) (b : Board) (st : Statistics) (count : ℕ)
    → Remembers build b st
    → count < 4294967296
    → Remembers build b (record st { count = count; dirty = true })
dirty-Remembers build b st count h fits = record {
  stored = record {
    placed = record { sector = h.stored.placed.sector; page = h.stored.placed.page };
    newest = h.stored.newest;
    room = h.stored.room;
  };
  found = λ e. cc;
  count = fits;
}

run-Remembers :
    (build : Build) (os : List Operation) (st : Statistics) (b : Board)
    → IsWorking b
    → Aligned build
    → Remembers build b st
    → st.sequence + length os < 4294967296
    → let (st', b') = run build st os b in Remembers build b' st'
unfolding run Statistics.increment Statistics.flush
run-Remembers build [] st b working aligned h room = h
run-Remembers build (Operation.counted ∷ os) st b working aligned h room =
    run-Remembers build os (record st { count = u32 (st.count + 1); dirty = true }) b working
      aligned (dirty-Remembers build b st (u32 (st.count + 1)) h (omega arith)) (omega arith)
run-Remembers build (Operation.flushed ∷ os) st b working aligned h room =
    run-Remembers build os (record st { count = 0; dirty = true }) b working aligned
      (dirty-Remembers build b st 0 h (omega arith)) (omega arith)
run-Remembers build (Operation.persisted ∷ os) st b working aligned h room =
    let kept = persist-Kept build st b working aligned h (omega arith) in
    run-Remembers build os (persist build st b).0.1 (persist build st b).1 kept.working aligned
      kept.remembers (omega (arith, kept.sequence))
run-Remembers build (Operation.wiped ∷ os) st b working aligned h room =
    let kept = factory_reset-Kept build st b working in
    run-Remembers build os (factory_reset build st b).0.1 (factory_reset build st b).1 kept.working
      aligned kept.remembers (omega (arith, kept.sequence))

-- After every sequence of operations on the counter that leaves nothing unwritten, a restart finds
-- exactly the state that was left. It begins in a state that the flash fits, such as the cleared one with
-- an erased flash; the flash does what its data sheet says and is always granted, the store begins at a
-- sector, and the sequence numbers of the records fit in 32 bits.
pub init-run :
    (build : Build) (os : List Operation) (st : Statistics) (b : Board)
    → IsWorking b
    → Aligned build
    → Remembers build b st
    → st.sequence + length os < 4294967296
    → (run build st os b).0.dirty ≡ false
    → let (st', b') = run build st os b in init build (b'.flash b'.log) ≡ st'
init-run build os st b working aligned h room clean =
    (run-Remembers build os st b working aligned h room).found clean
