-- ===== src/ConfigStore/Newest.antt =====
-- `config_store_save` of src/config_store.c never touches the sector of the newest valid settings.
use epi_pico2w_seringue.Prelude.{
  ℕ, ◌+◌, ◌-◌, ◌*◌, ◌%◌, ◌<◌, ◌≡◌, refl, true, false, List, [], ◌∷◌, arith, u32, length, ◌++◌,
  Bool-cases, inl, inr, leb, ltb, ◌&&◌, ap, ◌∙◌,
}
use epi_pico2w_seringue.Board.{Board, flash_range_erase, flash_range_program, perform}
use epi_pico2w_seringue.Crc.{crc32}
use epi_pico2w_seringue.DeviceConfig.{DeviceConfig, validate}
use epi_pico2w_seringue.Flash.{flash_sector_size, Build, image, bytes_of}
use epi_pico2w_seringue.Flash.Writes.{touches, IsFlash, Spares, flash_safe_execute-keeps}
use epi_pico2w_seringue.ConfigStore.{
  store_offset, config_at, config_head, load, zeros, do_write, save,
}

-- the offset of a sector of the store
abbrev pub slot : Build → ℕ → ℕ
slot build k = store_offset build + k * flash_sector_size

pub config_page-length :
    (c : DeviceConfig) (sum : ℕ)
    → length (config_head c ++ image ((4, sum) ∷ []) ++ zeros 160) ≡ 256
unfolding config_head image bytes_of zeros
config_page-length c sum = refl

pub do_write-Spares :
    (offset at : ℕ) (page : List ℕ)
    → length page ≡ 256
    → (leb offset at && ltb at (offset + flash_sector_size)) ≡ false
    → Spares (flash_range_program offset page ∷ flash_range_erase offset flash_sector_size ∷ []) at
unfolding touches
do_write-Spares offset at page size out = ground arith

-- the settings that are loaded are the valid ones of sector `k`, and their sequence number has the
-- parity of the sector
pub record IsNewest (build : Build) (b : Board) (k : ℕ) : Type 0 where
  pub loaded : load build (b.flash b.log) ≡ (true, config_at (b.flash b.log) (slot build k))
  pub parity : (config_at (b.flash b.log) (slot build k)).sequence % 2 ≡ k

next_parity : (n k : ℕ) → n % 2 ≡ k → u32 (n + 1) % 2 ≡ 1 - k
next_parity n k h = omega arith

-- Saving leaves every byte of the sector with the newest valid settings as it is, whether the flash
-- is granted, the error comes after the write, or the attempt is refused, on a flash where erasing and
-- programming change only the bytes in their range, and where those settings, of the present version,
-- lie in the sector of the parity of their sequence number, as a save that succeeds leaves them.
pub save-keeps_newest :
    (build : Build) (c : DeviceConfig) (b : Board) (k i : ℕ)
    → IsFlash b
    → IsNewest build b k
    → i < flash_sector_size
    → let b' = (save build c b).1 in
      b'.flash b'.log (slot build k + i) ≡ b.flash b.log (slot build k + i)
unfolding save do_write perform
save-keeps_newest build c b k i flash newest inside = elim (Bool-cases (validate c)) [
  | inr bad ↦ rw bad refl
  | inl good ↦
      let old = (load build (b.flash b.log)).1 in
      let numbered : DeviceConfig = record c { sequence = u32 (old.sequence + 1) } in
      let sum = crc32 (config_head numbered) in
      let page = config_head numbered ++ image ((4, sum) ∷ []) ++ zeros 160 in
      let offset = store_offset build + numbered.sequence % 2 * flash_sector_size in
      let other : numbered.sequence % 2 ≡ 1 - k =
        next_parity old.sequence k (ap (λ l. l.1.sequence % 2) newest.loaded ∙ newest.parity) in
      rw good (
        flash_safe_execute-keeps b (do_write offset page)
          (flash_range_program offset page ∷ flash_range_erase offset flash_sector_size ∷ [])
          (slot build k + i) flash (λ log. refl)
          (do_write-Spares offset (slot build k + i) page (config_page-length numbered sum)
            (ground arith)))
]
