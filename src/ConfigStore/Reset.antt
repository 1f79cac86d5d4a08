-- ===== src/ConfigStore/Reset.antt =====
-- `config_store_factory_reset` of src/config_store.c takes the settings back to the defaults.
use epi_pico2w_seringue.Prelude.{ℕ, ◌+◌, ◌*◌, ◌≡◌, refl, ◌∙◌, true, false, [], ◌∷◌, arith, ◌==◌}
use epi_pico2w_seringue.Board.{Board, flash_range_erase, flash_attempt, perform}
use epi_pico2w_seringue.DeviceConfig.{validate, defaults, bad_mechanics}
use epi_pico2w_seringue.Flash.{flash_sector_size, Build, number_at}
use epi_pico2w_seringue.Flash.Bytes.{Agree, number_at-Agree}
use epi_pico2w_seringue.Flash.Writes.{touches, IsNor, flash_safe_execute-granted}
use epi_pico2w_seringue.ConfigStore.{
  store_offset, config_at, settings_at, valid_at, valid_v5_at, load, factory_reset,
}
use epi_pico2w_seringue.ConfigStore.Bytes.{valid_at-Agree}

-- a flash that is erased everywhere
abbrev blank : ℕ → ℕ
blank at = 255

blank-invalid : valid_at blank 0 ≡ false
unfolding valid_at validate bad_mechanics config_at settings_at number_at
blank-invalid = refl

blank-version : (number_at blank 0 4 == 5) ≡ false
unfolding number_at
blank-version = refl

-- Nothing is found where the bytes are erased, in neither layout.
erased-invalid : (flash : ℕ → ℕ) (o : ℕ) → Agree flash o blank 0 96 → valid_at flash o ≡ false
erased-invalid flash o h = valid_at-Agree flash o blank 0 h ∙ blank-invalid

erased-invalid_v5 : (flash : ℕ → ℕ) (o : ℕ) → Agree flash o blank 0 96 → valid_v5_at flash o ≡ false
unfolding valid_v5_at
erased-invalid_v5 flash o h =
    rw (number_at-Agree flash o blank 0 4 (λ i lt. h i (omega arith)), blank-version)

-- Where both sectors are erased, nothing is found.
pub load-blank :
    (build : Build) (flash : ℕ → ℕ)
    → Agree flash (store_offset build) blank 0 96
    → Agree flash (store_offset build + flash_sector_size) blank 0 96
    → load build flash ≡ (false, defaults)
unfolding load
load-blank build flash first second = rw (
  erased-invalid flash (store_offset build) first,
  erased-invalid flash (store_offset build + flash_sector_size) second,
  erased-invalid_v5 flash (store_offset build) first,
  erased-invalid_v5 flash (store_offset build + flash_sector_size) second,
)

-- After a factory reset that succeeds the defaults are loaded and reported as not stored, whatever
-- was in the flash, if an erased byte reads as 0xff.
pub load-factory_reset :
    (build : Build) (b : Board)
    → IsNor b
    → (factory_reset build b).0 ≡ true
    → let b' = (factory_reset build b).1 in load build (b'.flash b'.log) ≡ (false, defaults)
unfolding factory_reset
load-factory_reset build b nor ok =
    let pa = store_offset build in
    let erase = flash_range_erase pa (2 * flash_sector_size) in
    let log = flash_attempt ∷ b.log in
    let after = b.flash (erase ∷ log) in
    let first : Agree after pa blank 0 96 =
      λ i lt. nor.erases pa (2 * flash_sector_size) log (pa + i) (unfold touches in ground arith) in
    let second : Agree after (pa + flash_sector_size) blank 0 96 = λ i lt.
      nor.erases pa (2 * flash_sector_size) log (pa + flash_sector_size + i)
        (unfold touches in ground arith) in
    let done =
      flash_safe_execute-granted b (perform erase) (erase ∷ []) (λ log. unfold perform in refl)
        ok in
    rw done (load-blank build after first second)
