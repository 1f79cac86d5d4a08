-- ===== src/Statistics/Newest.antt =====
-- `statistics_persist` of src/statistics.c never touches the page of the record that it replaces.
use epi_pico2w_seringue.Prelude.{
  ℕ, zero, suc, ◌⊎◌, Bool, ◌+◌, ◌-◌, ◌*◌, ◌%◌, ◌<◌, ◌≡◌, refl, true, false, List, [], ◌∷◌, ◌++◌,
  arith, u32, length, ltb, not, Bool-cases, inl, inr, bit_xor,
}
use epi_pico2w_seringue.Board.{Act, Board, flash_range_erase, flash_range_program, perform}
use epi_pico2w_seringue.Crc.{crc32}
use epi_pico2w_seringue.Flash.{flash_sector_size, flash_page_size, Build, image, bytes_of}
use epi_pico2w_seringue.Flash.Writes.{touches, IsFlash, Spares, atop, flash_safe_execute-keeps}
use epi_pico2w_seringue.Statistics.{
  Statistics, stats_offset, page_at, record_head, erased, do_write, next_slot, persist,
}

-- the current record lies in one of the two sectors, in one of their sixteen pages
pub record IsPlaced (st : Statistics) : Type 0 where
  pub sector : st.current_sector < 2
  pub page : st.current_page < 16

flip : (s : ℕ) → s < 2 → bit_xor s 1 ≡ 1 - s
flip zero h = refl
flip (suc zero) h = refl
flip (suc (suc s)) h = absurd (omega arith)

-- What is written next: the page behind the current one, or behind the last page of the sector, the
-- first page of the other sector, which is erased.
pub next_slot_lem :
    (st : Statistics)
    → IsPlaced st
    → ((st.current_page < 15) × (next_slot st ≡ (st.current_sector, st.current_page + 1, false)))
      ⊎ ((st.current_page ≡ 15) × (next_slot st ≡ (1 - st.current_sector, 0, true)))
unfolding next_slot
next_slot_lem st h = elim (Bool-cases (ltb st.current_page 15)) [
  | inl y ↦ inl (ground (arith, flip st.current_sector))
  | inr n ↦ inr (ground (arith, flip st.current_sector))
]

pub stats_page-length :
    (sequence count sum : ℕ)
    → length (record_head sequence count ++ image ((4, sum) ∷ []) ++ erased 240) ≡ 256
unfolding image bytes_of erased
stats_page-length sequence count sum = refl

-- the calls of `do_write`, newest first
abbrev pub write_calls : ℕ → Bool → List ℕ → List Act
write_calls offset true page =
    flash_range_program offset page
    ∷ flash_range_erase (offset - offset % flash_sector_size) flash_sector_size
    ∷ []
write_calls offset false page = flash_range_program offset page ∷ []

pub do_write-calls :
    (offset : ℕ) (erase : Bool) (page : List ℕ) (b : Board) (log : List Act)
    → do_write offset erase page (record b { log = log })
      ≡ (tt, record b { log = atop (write_calls offset erase page) log })
unfolding do_write perform
do_write-calls offset true page b log = refl
do_write-calls offset false page b log = refl

-- the store begins at a sector of the flash
abbrev pub Aligned : Build → Type 0
Aligned build = (n : ℕ) × (stats_offset build ≡ n * flash_sector_size)

write_calls-Spares :
    (build : Build) (st : Statistics) (page : List ℕ) (i : ℕ)
    → Aligned build
    → IsPlaced st
    → length page ≡ 256
    → i < flash_page_size
    → let (s, p, erase) = next_slot st in
      Spares
        (write_calls (page_at build s p) erase page)
        (page_at build st.current_sector st.current_page + i)
unfolding touches
write_calls-Spares build st page i aligned placed size inside = elim (next_slot_lem st placed) [
  | inl a ↦ rw a.1 (ground arith)
  | inr z ↦
      let offset = page_at build (1 - st.current_sector) 0 in
      let start : offset - offset % flash_sector_size ≡ offset = omega (arith, aligned.1) in
      rw (z.1, start) (ground arith)
]

-- Writing the counter leaves every byte of the page with the current record as it is, however the
-- attempt goes: the sector that is erased is the other one. The flash is one where erasing and
-- programming change only the bytes in their range, the store begins at a sector, and the current
-- record lies in one of its pages.
pub persist-keeps_current :
    (build : Build) (st : Statistics) (b : Board) (i : ℕ)
    → IsFlash b
    → Aligned build
    → IsPlaced st
    → i < flash_page_size
    → let at = page_at build st.current_sector st.current_page + i in
      let b' = (persist build st b).1 in b'.flash b'.log at ≡ b.flash b.log at
unfolding persist
persist-keeps_current build st b i flash aligned placed inside = elim (Bool-cases (not st.dirty)) [
  | inl clean ↦ rw clean refl
  | inr dirty' ↦
      let next = next_slot st in
      let sequence = u32 (st.sequence + 1) in
      let head = record_head sequence st.count in
      let page = head ++ image ((4, crc32 head) ∷ []) ++ erased 240 in
      let offset = page_at build next.0 next.1 in
      rw dirty' (
        flash_safe_execute-keeps b (do_write offset next.2 page) (write_calls offset next.2 page)
          (page_at build st.current_sector st.current_page + i) flash
          (do_write-calls offset next.2 page b)
          (write_calls-Spares build st page i aligned placed
            (stats_page-length sequence st.count (crc32 head)) inside))
]
