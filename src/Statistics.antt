-- ===== src/Statistics.antt =====
-- src/statistics.c and include/statistics.h: the counter of activations, kept in two flash sectors
-- that are filled page by page in turn.
pub mod Advance
pub mod Newest
pub mod Pages
pub mod Recovery
pub mod Restart
pub mod Runs
pub mod Scan
pub mod Stored
use epi_pico2w_seringue.Prelude.{
  ℕ, zero, suc, ◌+◌, ◌-◌, ◌*◌, ◌%◌, Bool, true, false, not, ◌&&◌, ◌||◌, List, [], ◌∷◌, ◌++◌, ltb,
  leb, ◌==◌, if◌then◌else◌, u32, bit_xor,
}
use epi_pico2w_seringue.Board.{
  flash_range_erase, flash_range_program, M, ◌>>=◌, ◌>>◌, pure, perform, flash_safe_execute,
}
use epi_pico2w_seringue.Crc.{crc32}
use epi_pico2w_seringue.Flash.{
  flash_sector_size, flash_page_size, Build, btstack_offset, bytes_at, number_at, image,
}

-- `STATS_MAGIC`
abbrev pub stats_magic : ℕ
stats_magic = 0x53544154

-- `STATS_OFFSET`
abbrev pub stats_offset : Build → ℕ
stats_offset build = btstack_offset build - 4 * flash_sector_size

-- `PAGES_PER_SECTOR`
abbrev pub pages_per_sector : ℕ
pages_per_sector = 16

-- the static variables
pub record Statistics : Type 0 where
  pub count : ℕ
  pub sequence : ℕ
  pub current_sector : ℕ
  pub current_page : ℕ
  pub dirty : Bool

abbrev pub cleared : Statistics
cleared = record { count = 0; sequence = 0; current_sector = 0; current_page = 0; dirty = false }

-- the fields of a `record_t` that are covered by its checksum, as an image
abbrev pub record_head : ℕ → ℕ → List ℕ
record_head sequence count = image ((4, stats_magic) ∷ (4, sequence) ∷ (4, count) ∷ [])

-- `valid` on the record at an offset
unfoldable pub valid_at : (ℕ → ℕ) → ℕ → Bool
valid_at flash at =
    number_at flash at 4 == stats_magic
    && number_at flash (at + 12) 4 == crc32 (bytes_at flash at 12)

-- the offset of a page
abbrev pub page_at : Build → ℕ → ℕ → ℕ
page_at build s p = stats_offset build + s * flash_sector_size + p * flash_page_size

-- the body of the loop of `statistics_init`, with its `found`
unfoldable pub scan_page : Build → (ℕ → ℕ) → ℕ → ℕ → Bool × Statistics → Bool × Statistics
scan_page build flash s p (found, st) =
    let at = page_at build s p in
    let seq = number_at flash (at + 4) 4 in
    if valid_at flash at && (not found || ltb st.sequence seq)
    then (
      true,
      record st {
        sequence = seq;
        count = number_at flash (at + 8) 4;
        current_sector = s;
        current_page = p;
      },
    )
    else (found, st)

-- the inner loop, from page `p` on, with `n` pages left
unfoldable pub scan_pages : Build → (ℕ → ℕ) → ℕ → ℕ → ℕ → Bool × Statistics → Bool × Statistics
unfolding scan_page
scan_pages build flash s zero p acc = acc
scan_pages build flash s (suc n) p acc =
    scan_pages build flash s n (p + 1) (scan_page build flash s p acc)

-- `statistics_init`
unfoldable pub init : Build → (ℕ → ℕ) → Statistics
unfolding scan_pages
init build flash =
    (scan_pages build flash 1 pages_per_sector 0
      (scan_pages build flash 0 pages_per_sector 0 (false, cleared))).1

-- `statistics_increment`, `statistics_flush`
unfoldable pub increment : Statistics → Statistics
increment st = record st { count = u32 (st.count + 1); dirty = true }

unfoldable pub flush : Statistics → Statistics
flush st = record st { count = 0; dirty = true }

-- the rest of a page behind the record
unfoldable pub erased : ℕ → List ℕ
erased zero = []
erased (suc n) = 0xff ∷ erased n

-- `do_write`
unfoldable pub do_write : ℕ → Bool → List ℕ → M (Unit {0})
unfolding perform
do_write offset erase page =
    (if erase
      then perform (flash_range_erase (offset - offset % flash_sector_size) flash_sector_size)
      else pure tt)
    >> perform (flash_range_program offset page)

-- where `statistics_persist` writes: the sector, the page, and whether the sector is erased
unfoldable pub next_slot : Statistics → ℕ × ℕ × Bool
next_slot st =
    let next_page = u32 (st.current_page + 1) in
    if leb pages_per_sector next_page
    then (bit_xor st.current_sector 1, 0, true)
    else (st.current_sector, next_page, false)

-- `statistics_persist`
unfoldable pub persist : Build → Statistics → M (Bool × Statistics)
unfolding next_slot do_write erased flash_safe_execute
persist build st =
    let (next_sector, next_page, erase) = next_slot st in
    let sequence = u32 (st.sequence + 1) in
    let head = record_head sequence st.count in
    let page = head ++ image ((4, crc32 head) ∷ []) ++ erased 240 in
    if not st.dirty then pure (true, st) else do
      ok ← flash_safe_execute (do_write (page_at build next_sector next_page) erase page)
      pure (
        ok,
        (if ok
            then record st {
              sequence = sequence;
              current_sector = next_sector;
              current_page = next_page;
              dirty = false;
            }
            else st),
      )

-- `statistics_factory_reset`, with its `do_erase`
unfoldable pub factory_reset : Build → Statistics → M (Bool × Statistics)
unfolding flash_safe_execute perform
factory_reset build st = do
  ok ← flash_safe_execute (perform (flash_range_erase (stats_offset build) (2 * flash_sector_size)))
  pure (ok, (if ok then cleared else st))
