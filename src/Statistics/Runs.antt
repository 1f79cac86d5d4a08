-- ===== src/Statistics/Runs.antt =====
-- The counter of src/statistics.c through every sequence of its operations.
use epi_pico2w_seringue.Prelude.{
  ℕ, zero, suc, Bool, ◌+◌, ◌<◌, ◌≤◌, false, List, [], ◌∷◌, ◌++◌, arith, u32, not, Bool-cases, inl,
  inr,
}
use epi_pico2w_seringue.Board.{Board, flash_safe_execute, granted_run}
use epi_pico2w_seringue.Crc.{crc32}
use epi_pico2w_seringue.Flash.{Build, image}
use epi_pico2w_seringue.Statistics
use epi_pico2w_seringue.Statistics.{
  Statistics, stats_offset, page_at, record_head, erased, do_write, next_slot, persist,
  factory_reset, init, scan_page, scan_pages, cleared, pages_per_sector,
}
use epi_pico2w_seringue.Statistics.Newest.{IsPlaced, next_slot_lem}

persist-IsPlaced :
    (build : Build) (st : Statistics) (b : Board) → IsPlaced st → IsPlaced (persist build st b).0.1
unfolding persist
persist-IsPlaced build st b h =
    let next = next_slot st in
    let sequence = u32 (st.sequence + 1) in
    let head = record_head sequence st.count in
    let page = head ++ image ((4, crc32 head) ∷ []) ++ erased 240 in
    let write = do_write (page_at build next.0 next.1) next.2 page in
    elim (Bool-cases (not st.dirty)) [
      | inl clean ↦ rw clean h
      | inr dirty' ↦ rw dirty' (elim (Bool-cases (flash_safe_execute write b).0) [
        | inl yes' ↦ rw yes' (ground (arith, next_slot_lem st h))
        | inr no' ↦ rw no' h
      ])
    ]

factory_reset-IsPlaced :
    (build : Build) (st : Statistics) (b : Board)
    → IsPlaced st
    → IsPlaced (factory_reset build st b).0.1
unfolding factory_reset flash_safe_execute granted_run
factory_reset-IsPlaced build st b h = ground arith

-- the accumulator of the scan
abbrev ScanPlaced : Bool × Statistics → Type 0
ScanPlaced acc = IsPlaced acc.1

scan_page-IsPlaced :
    (build : Build) (flash : ℕ → ℕ) (s p : ℕ) (acc : Bool × Statistics)
    → s < 2
    → p < 16
    → ScanPlaced acc
    → ScanPlaced (scan_page build flash s p acc)
unfolding scan_page
scan_page-IsPlaced build flash s p (found, st) hs hp h = ground arith

scan_pages-IsPlaced :
    (build : Build) (flash : ℕ → ℕ) (s n p : ℕ) (acc : Bool × Statistics)
    → s < 2
    → p + n ≤ 16
    → ScanPlaced acc
    → ScanPlaced (scan_pages build flash s n p acc)
unfolding scan_pages
scan_pages-IsPlaced build flash s zero p acc hs hp h = h
scan_pages-IsPlaced build flash s (suc n) p acc hs hp h =
    scan_pages-IsPlaced build flash s n (p + 1) (scan_page build flash s p acc) hs (omega arith)
      (scan_page-IsPlaced build flash s p acc hs (omega arith) h)

init-IsPlaced : (build : Build) (flash : ℕ → ℕ) → IsPlaced (init build flash)
unfolding init
init-IsPlaced build flash = scan_pages-IsPlaced build flash 1 16 0 _ (omega arith) (omega arith) (
    scan_pages-IsPlaced build flash 0 16 0 (false, cleared) (omega arith) (omega arith)
      (record { sector = omega arith; page = omega arith }))

-- the operations on the counter
pub data Operation : Type 0 where
  counted flushed persisted wiped : Operation

unfoldable pub run : Build → Statistics → List Operation → Board → Statistics × Board
run build st [] b = (st, b)
run build st (Operation.counted ∷ os) b = run build (Statistics.increment st) os b
run build st (Operation.flushed ∷ os) b = run build (Statistics.flush st) os b
run build st (Operation.persisted ∷ os) b =
    let ((ok, st'), b') = Statistics.persist build st b in run build st' os b'
run build st (Operation.wiped ∷ os) b =
    let ((ok, st'), b') = Statistics.factory_reset build st b in run build st' os b'

run-IsPlaced :
    (build : Build) (st : Statistics) (os : List Operation) (b : Board)
    → IsPlaced st
    → IsPlaced (run build st os b).0
unfolding run Statistics.increment Statistics.flush
run-IsPlaced build st [] b h = h
run-IsPlaced build st (Operation.counted ∷ os) b h =
    run-IsPlaced build (Statistics.increment st) os b (record { sector = h.sector; page = h.page })
run-IsPlaced build st (Operation.flushed ∷ os) b h =
    run-IsPlaced build (Statistics.flush st) os b (record { sector = h.sector; page = h.page })
run-IsPlaced build st (Operation.persisted ∷ os) b h =
    let ((ok, st'), b') = Statistics.persist build st b in
    run-IsPlaced build st' os b' (persist-IsPlaced build st b h)
run-IsPlaced build st (Operation.wiped ∷ os) b h =
    let ((ok, st'), b') = Statistics.factory_reset build st b in
    run-IsPlaced build st' os b' (factory_reset-IsPlaced build st b h)

-- From what is found in any flash at the start, after every sequence of operations on the counter and
-- however the attempts on the flash go, the current record lies in one of the two sectors of the store
-- and in one of their sixteen pages.
pub init-run-IsPlaced :
    (build : Build) (os : List Operation) (b : Board)
    → IsPlaced (run build (init build (b.flash b.log)) os b).0
init-run-IsPlaced build os b =
    run-IsPlaced build (init build (b.flash b.log)) os b (init-IsPlaced build (b.flash b.log))
