-- ===== src/Flash.antt =====
-- include/storage_layout.h and the flash geometry: where the stores lie, and how bytes are read.
pub mod Bytes
pub mod Writes
use epi_pico2w_seringue.Prelude.{
  ℕ, zero, suc, ◌+◌, ◌-◌, ◌*◌, ◌/◌, ◌%◌, Bool, List, [], ◌∷◌, ◌++◌, if◌then◌else◌,
}

-- the SDK's FLASH_SECTOR_SIZE and FLASH_PAGE_SIZE
abbrev pub flash_sector_size : ℕ
flash_sector_size = 4096

abbrev pub flash_page_size : ℕ
flash_page_size = 256

-- the build: PICO_FLASH_SIZE_BYTES, PICO_RP2350 && PICO_RP2350_A2_SUPPORTED, DISPENSER_HAS_RADIO
pub record Build : Type 0 where
  pub flash_size : ℕ
  pub a2_supported : Bool
  pub has_radio : Bool

-- `DISPENSER_BTSTACK_SIZE`
abbrev pub btstack_size : ℕ
btstack_size = 2 * flash_sector_size

-- `DISPENSER_BTSTACK_OFFSET`
abbrev pub btstack_offset : Build → ℕ
btstack_offset build =
    if build.a2_supported
    then build.flash_size - flash_sector_size - btstack_size
    else build.flash_size - btstack_size

-- `n` bytes from an offset on
unfoldable pub bytes_at : (ℕ → ℕ) → ℕ → ℕ → List ℕ
bytes_at flash at zero = []
bytes_at flash at (suc n) = flash at ∷ bytes_at flash (at + 1) n

-- the little-endian number of `n` bytes from an offset on
unfoldable pub number_at : (ℕ → ℕ) → ℕ → ℕ → ℕ
number_at flash at zero = 0
number_at flash at (suc n) = flash at + 256 * number_at flash (at + 1) n

-- the `n` low bytes of a number, lowest first
unfoldable pub bytes_of : ℕ → ℕ → List ℕ
bytes_of zero v = []
bytes_of (suc n) v = v % 256 ∷ bytes_of n (v / 256)

-- the image of a struct: the size and value of each field in turn
unfoldable pub image : List (ℕ × ℕ) → List ℕ
unfolding bytes_of
image [] = []
image ((n, v) ∷ fields) = bytes_of n v ++ image fields
