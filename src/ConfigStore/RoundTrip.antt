-- ===== src/ConfigStore/RoundTrip.antt =====
-- What `config_store_save` of src/config_store.c writes, `config_store_load` reads back, also after a
-- restart.
use epi_pico2w_seringue.Prelude.{
  ℕ, zero, suc, ◌+◌, ◌-◌, ◌%◌, ◌≤◌, ◌<◌, ◌≡◌, ◌⊎◌, refl, ap, subst, ◌∙◌, true, false, List, [], ◌∷◌,
  arith, u32, length, Bool-cases, inl, inr,
}
use epi_pico2w_seringue.Board.{
  Act, Board, flash_range_erase, flash_range_program, flash_attempt, perform, flash_safe_execute,
}
use epi_pico2w_seringue.Crc.{crc32}
use epi_pico2w_seringue.DeviceConfig.{DeviceConfig, validate}
use epi_pico2w_seringue.Flash.{flash_sector_size, Build}
use epi_pico2w_seringue.Flash.Bytes.{Agree, byte_in}
use epi_pico2w_seringue.Flash.Writes.{
  touches, IsFlash, IsNor, Spares-keeps, atop, flash_safe_execute-granted,
}
use epi_pico2w_seringue.ConfigStore.{config_at, valid_at, config_head, load, do_write, save}
use epi_pico2w_seringue.ConfigStore.Bytes.{config_at-Agree, valid_at-Agree}
use epi_pico2w_seringue.ConfigStore.Newest.{IsNewest, slot, do_write-Spares, config_page-length}
use epi_pico2w_seringue.ConfigStore.Page.{
  IsTyped, page_of, config_at-page, valid_at-page, config_head-crc, validate-numbered,
}

-- What is loaded is at least as new as the valid settings of each sector.
load-newest :
    (build : Build) (flash : ℕ → ℕ) (k : ℕ)
    → k < 2
    → valid_at flash (slot build k) ≡ true
    → (config_at flash (slot build k)).sequence ≤ (load build flash).1.sequence
load-newest build flash zero h good = unfold load in ground arith
load-newest build flash (suc zero) h good = unfold load in ground arith
load-newest build flash (suc (suc k)) h good = absurd (omega arith)

-- The settings of a sector are loaded if they are valid and newer than those of the other one.
load-newer :
    (build : Build) (flash : ℕ → ℕ) (k : ℕ)
    → k < 2
    → valid_at flash (slot build k) ≡ true
    → (valid_at flash (slot build (1 - k)) ≡ false)
      ⊎ ((config_at flash (slot build (1 - k))).sequence
          < (config_at flash (slot build k)).sequence)
    → load build flash ≡ (true, config_at flash (slot build k))
load-newer build flash zero h good older = unfold load in ground arith
load-newer build flash (suc zero) h good older = unfold load in ground arith
load-newer build flash (suc (suc k)) h good older = absurd (omega arith)

-- The settings of sector `k` are loaded after they were written there, if the other sector is as it
-- was before and they are newer than everything that was there.
load-written :
    (build : Build) (before after : ℕ → ℕ) (k : ℕ)
    → k < 2
    → valid_at after (slot build k) ≡ true
    → Agree after (slot build (1 - k)) before (slot build (1 - k)) 96
    → (load build before).1.sequence < (config_at after (slot build k)).sequence
    → load build after ≡ (true, config_at after (slot build k))
load-written build before after k h good same newer =
    let other = slot build (1 - k) in
    elim (Bool-cases (valid_at before other)) [
      | inl valid ↦ load-newer build after k h good (
          inr (
            rw (config_at-Agree after other before other same)
              (omega (arith, load-newest build before (1 - k) (omega arith) valid))))
      | inr invalid ↦
          load-newer build after k h good
            (inl (valid_at-Agree after other before other same ∙ invalid))
    ]

-- the calls of `do_write`, newest first
abbrev write_calls : ℕ → List ℕ → List Act
write_calls offset page =
    flash_range_program offset page ∷ flash_range_erase offset flash_sector_size ∷ []

-- After the calls the page lies at the offset.
write_calls-page :
    (b : Board) (log : List Act) (offset : ℕ) (page : List ℕ)
    → IsNor b
    → length page ≡ 256
    → Agree (b.flash (atop (write_calls offset page) log)) offset (byte_in page) 0 256
unfolding touches
write_calls-page b log offset page nor size i lt =
    let place : 0 + i ≡ i = omega arith in
    rw place (
      nor.programs offset page (flash_range_erase offset flash_sector_size ∷ log) i
        (omega (arith, size)) (nor.erases offset flash_sector_size log (offset + i) (ground arith)))

-- ... and the bytes outside of the sector are what they were.
write_calls-others :
    (b : Board) (log : List Act) (offset : ℕ) (page : List ℕ) (o : ℕ)
    → IsFlash b
    → length page ≡ 256
    → (o + 96 ≤ offset) ⊎ (offset + flash_sector_size ≤ o)
    → Agree (b.flash (atop (write_calls offset page) (flash_attempt ∷ log))) o (b.flash log) o 96
unfolding touches
write_calls-others b log offset page o flash size apart i lt =
    Spares-keeps b (write_calls offset page) (flash_attempt ∷ log) (o + i) flash
      (do_write-Spares offset (o + i) page size (ground arith))
    ∙ flash.keeps flash_attempt log (o + i) refl

-- What a sector of the store holds after the page with these settings was written to it, and that it is
-- what is loaded.
load-page :
    (build : Build) (c : DeviceConfig) (b : Board) (k : ℕ)
    → IsFlash b
    → IsNor b
    → IsTyped c
    → validate c ≡ true
    → k < 2
    → (load build (b.flash b.log)).1.sequence < c.sequence
    → c.sequence < 4294967296
    → let sum = crc32 (config_head c) in
      let after =
        b.flash (atop (write_calls (slot build k) (page_of c sum)) (flash_attempt ∷ b.log)) in
      (load build after ≡ (true, config_at after (slot build k)))
      × (config_at after (slot build k) ≡ record c { crc = sum })
load-page build c b k flash nor typed good hk newer fits =
    let sum = crc32 (config_head c) in
    let at = slot build k in
    let page = page_of c sum in
    let size : length page ≡ 256 = config_page-length c sum in
    let calls = write_calls at page in
    let after = b.flash (atop calls (flash_attempt ∷ b.log)) in
    let written : Agree after at (byte_in page) 0 96 =
      λ i lt. write_calls-page b (flash_attempt ∷ b.log) at page nor size i (omega arith) in
    let found : config_at after at ≡ record c { crc = sum } =
      config_at-Agree after at (byte_in page) 0 written
      ∙ config_at-page c sum typed fits (config_head-crc c) in
    let valid : valid_at after at ≡ true =
      valid_at-Agree after at (byte_in page) 0 written ∙ valid_at-page c typed fits good in
    (
      load-written build (b.flash b.log) after k hk valid
          (write_calls-others b b.log at page (slot build (1 - k)) flash size (ground arith))
          (rw found newer),
      found,
    )

numbered-IsTyped : (c : DeviceConfig) (n : ℕ) → IsTyped c → IsTyped (record c { sequence = n })
numbered-IsTyped c n h = assumption

save-valid :
    (build : Build) (c : DeviceConfig) (b : Board)
    → validate c ≡ true
    → let numbered = record c { sequence = u32 ((load build (b.flash b.log)).1.sequence + 1) } in
      let sum = crc32 (config_head numbered) in
      let offset = slot build (numbered.sequence % 2) in
      let (ok, b') = flash_safe_execute (do_write offset (page_of numbered sum)) b in
      save build c b ≡ ((ok, record numbered { crc = sum }), b')
unfolding save
save-valid build c b good = rw good

-- What is in the flash after a save that succeeds: the settings with the next sequence number, in the
-- sector of its parity, and they are what is loaded.
record IsSaved (build : Build) (c : DeviceConfig) (b : Board) : Type 0 where
  newest : IsNewest build (save build c b).1 (((load build (b.flash b.log)).1.sequence + 1) % 2)
  loaded : let ((ok, saved), b') = save build c b in load build (b'.flash b'.log) ≡ (true, saved)
  saved : (save build c b).0.1 ≡ record c {
    sequence = (load build (b.flash b.log)).1.sequence + 1;
    crc = (save build c b).0.1.crc;
  }

save-IsSaved :
    (build : Build) (c : DeviceConfig) (b : Board)
    → IsFlash b
    → IsNor b
    → IsTyped c
    → validate c ≡ true
    → (load build (b.flash b.log)).1.sequence < 4294967295
    → (save build c b).0.0 ≡ true
    → IsSaved build c b
save-IsSaved build c b flash nor typed good room ok =
    let old = (load build (b.flash b.log)).1.sequence in
    let numbered : DeviceConfig = record c { sequence = u32 (old + 1) } in
    let sum = crc32 (config_head numbered) in
    let page = page_of numbered sum in
    let k = numbered.sequence % 2 in
    let offset = slot build k in
    let step = save-valid build c b good in
    let no_wrap : u32 (old + 1) ≡ old + 1 = omega arith in
    let done =
      flash_safe_execute-granted b (do_write offset page) (write_calls offset page)
        (λ log. unfold do_write perform in refl) (rw step at ok) in
    let (found, at_slot) =
      load-page build numbered b k flash nor (numbered-IsTyped c (u32 (old + 1)) typed)
        (validate-numbered c (u32 (old + 1)) c.crc ∙ good) (omega arith) (omega arith)
        (omega arith) in
    let after : Board = record b { log = atop (write_calls offset page) (flash_attempt ∷ b.log) } in
    let newest : IsNewest build after k = record {
      loaded = found;
      parity = ap (λ (d : DeviceConfig). d.sequence % 2) at_slot;
    } in
    record {
      newest = rw step (rw done (subst (IsNewest build after) (ap (λ n. n % 2) no_wrap) newest));
      loaded = rw step (rw done (found ∙ ap (λ r. (true, r)) at_slot));
      saved = rw step (λ i. record c { sequence = no_wrap i; crc = sum });
    }

-- After a save that succeeds the newest settings lie in the sector of the parity of their sequence
-- number.
pub save-IsNewest :
    (build : Build) (c : DeviceConfig) (b : Board)
    → IsFlash b
    → IsNor b
    → IsTyped c
    → validate c ≡ true
    → (load build (b.flash b.log)).1.sequence < 4294967295
    → (save build c b).0.0 ≡ true
    → IsNewest build (save build c b).1 (((load build (b.flash b.log)).1.sequence + 1) % 2)
save-IsNewest build c b flash nor typed good room ok =
    (save-IsSaved build c b flash nor typed good room ok).newest

-- Settings that the validation accepts and whose fields have values of their C types are loaded as
-- they were saved, also by a restart, when the saving succeeds, and they are the given ones with the
-- next sequence number and a checksum; on a flash where erasing and programming do what its data sheet
-- says, and as long as the 32-bit sequence number does not wrap.
pub load-save :
    (build : Build) (c : DeviceConfig) (b : Board)
    → IsFlash b
    → IsNor b
    → IsTyped c
    → validate c ≡ true
    → (load build (b.flash b.log)).1.sequence < 4294967295
    → (save build c b).0.0 ≡ true
    → let ((ok, saved), b') = save build c b in
      (load build (b'.flash b'.log) ≡ (true, saved))
      × (saved
          ≡ record c { sequence = (load build (b.flash b.log)).1.sequence + 1; crc = saved.crc })
load-save build c b flash nor typed good room ok =
    let h = save-IsSaved build c b flash nor typed good room ok in (h.loaded, h.saved)
