-- ===== src/Statistics/Stored.antt =====
-- What the two sectors of src/statistics.c hold, and how the calls of its `do_write` change that.
use epi_pico2w_seringue.Prelude.{
  ℕ, ◌+◌, ◌-◌, ◌%◌, ◌<◌, ◌≤◌, ◌≡◌, ◌≢◌, ◌⊎◌, inl, inr, refl, ◌∙◌, true, false, ◌&&◌, List, [], ◌∷◌,
  leb, ltb, length, Bool-cases, ◌==◌, arith,
}
use epi_pico2w_seringue.Board.{Act, Board, flash_range_erase, flash_range_program, flash_attempt}
use epi_pico2w_seringue.Flash.{flash_sector_size, Build}
use epi_pico2w_seringue.Flash.Bytes.{Agree, byte_in}
use epi_pico2w_seringue.Flash.Writes.{touches, IsFlash, IsNor, Spares-keeps, atop}
use epi_pico2w_seringue.Statistics.{Statistics, page_at, valid_at}
use epi_pico2w_seringue.Statistics.Newest.{IsPlaced, Aligned, write_calls}
use epi_pico2w_seringue.Statistics.Pages.{blank}
use epi_pico2w_seringue.Statistics.Scan.{sequence_at}

-- What the flash holds in a state: no valid record is newer than the current one, and the pages
-- behind the current one are erased.
pub record IsStored (build : Build) (flash : ℕ → ℕ) (st : Statistics) : Type 0 where
  pub placed : IsPlaced st
  pub newest :
      (s p : ℕ)
      → s < 2
      → p < 16
      → valid_at flash (page_at build s p) ≡ true
      → sequence_at build flash s p ≤ st.sequence
  pub room :
      (p : ℕ)
      → st.current_page < p
      → p < 16
      → Agree flash (page_at build st.current_sector p) blank 0 256

-- A page is written, the others are as before or erased, and those behind it are erased.
pub record Wrote (build : Build) (before after : ℕ → ℕ) (s p : ℕ) (page : List ℕ) : Type 0 where
  pub written : Agree after (page_at build s p) (byte_in page) 0 256
  pub others :
      (t q : ℕ)
      → t < 2
      → q < 16
      → (t ≢ s) ⊎ (q ≢ p)
      → Agree after (page_at build t q) before (page_at build t q) 256
        ⊎ Agree after (page_at build t q) blank 0 256
  pub room : (q : ℕ) → p < q → q < 16 → Agree after (page_at build s q) blank 0 256

-- No byte of a page lies in another page.
pages_apart :
    (build : Build) (s p t q i n : ℕ)
    → n ≡ 256
    → p < 16
    → q < 16
    → i < 256
    → (t ≢ s) ⊎ (q ≢ p)
    → (leb (page_at build s p) (page_at build t q + i)
        && ltb (page_at build t q + i) (page_at build s p + n))
      ≡ false
pages_apart build s p t q i n size hp hq hi other = ground arith

-- ... or in another sector.
sectors_apart :
    (build : Build) (s t q i : ℕ)
    → q < 16
    → i < 256
    → t ≢ s
    → (leb (page_at build s 0) (page_at build t q + i)
        && ltb (page_at build t q + i) (page_at build s 0 + flash_sector_size))
      ≡ false
sectors_apart build s t q i hq hi other = ground arith

-- The calls of `do_write` that program an erased page.
pub append-Wrote :
    (build : Build) (b : Board) (st : Statistics) (page : List ℕ)
    → IsFlash b
    → IsNor b
    → length page ≡ 256
    → IsStored build (b.flash b.log) st
    → st.current_page < 15
    → let calls = write_calls (page_at build st.current_sector (st.current_page + 1)) false page in
      Wrote build
        (b.flash b.log)
        (b.flash (atop calls (flash_attempt ∷ b.log)))
        st.current_sector
        (st.current_page + 1)
        page
unfolding touches
append-Wrote build b st page flash nor size stored inner =
    let s = st.current_sector in
    let p = st.current_page + 1 in
    let log = flash_attempt ∷ b.log in
    let calls = write_calls (page_at build s p) false page in
    let kept : (t q : ℕ)
        → q < 16
        → (t ≢ s) ⊎ (q ≢ p)
        → Agree (b.flash (atop calls log)) (page_at build t q) (b.flash b.log) (page_at build t q)
            256 =
      λ t q hq other i lt.
        Spares-keeps b calls log (page_at build t q + i) flash
          (pages_apart build s p t q i (length page) size (omega arith) hq lt other, tt)
        ∙ flash.keeps flash_attempt b.log (page_at build t q + i) refl in
    record {
      written = λ i lt.
          let place : 0 + i ≡ i = omega arith in
          rw place (
            nor.programs (page_at build s p) page log i (omega (arith, size)) (
              flash.keeps flash_attempt b.log (page_at build s p + i) refl
              ∙ stored.room p (omega arith) (omega arith) i lt));
      others = λ t q ht hq other. inl (kept t q hq other);
      room = λ q low high i lt.
          kept s q high (inr (omega arith)) i lt ∙ stored.room q (omega arith) high i lt;
    }

-- The calls of `do_write` that erase the other sector first.
pub wrap-Wrote :
    (build : Build) (b : Board) (st : Statistics) (page : List ℕ)
    → IsFlash b
    → IsNor b
    → Aligned build
    → length page ≡ 256
    → IsPlaced st
    → let calls = write_calls (page_at build (1 - st.current_sector) 0) true page in
      Wrote build
        (b.flash b.log)
        (b.flash (atop calls (flash_attempt ∷ b.log)))
        (1 - st.current_sector)
        0
        page
unfolding touches
wrap-Wrote build b st page flash nor aligned size placed =
    let s = 1 - st.current_sector in
    let offset = page_at build s 0 in
    let start : offset - offset % flash_sector_size ≡ offset = omega (arith, aligned.1) in
    let log = flash_attempt ∷ b.log in
    let erase = flash_range_erase offset flash_sector_size in
    let calls : List Act = flash_range_program offset page ∷ erase ∷ [] in
    let wiped : (q : ℕ)
        → 0 < q
        → q < 16
        → Agree (b.flash (atop calls log)) (page_at build s q) blank 0 256 =
      λ q low high i lt.
        flash.keeps (flash_range_program offset page) (erase ∷ log) (page_at build s q + i)
          (pages_apart build s 0 s q i (length page) size (omega arith) high lt (inr (omega arith)))
        ∙ nor.erases offset flash_sector_size log (page_at build s q + i) (ground arith) in
    rw start (record {
      written = λ i lt.
          let place : 0 + i ≡ i = omega arith in
          rw place (
            nor.programs offset page (erase ∷ log) i (omega (arith, size))
              (nor.erases offset flash_sector_size log (offset + i) (ground arith)));
      others = λ t q ht hq other. elim (Bool-cases (t == s)) [
        | inl same ↦ let here : t ≡ s = ground arith in inr (rw here (wiped q (omega arith) hq))
        | inr apart ↦
            let away : t ≢ s = ground arith in
            inl (λ i lt.
              Spares-keeps b calls log (page_at build t q + i) flash (
                pages_apart build s 0 t q i (length page) size (omega arith) hq lt (inl away),
                (sectors_apart build s t q i hq lt away, tt),
              )
              ∙ flash.keeps flash_attempt b.log (page_at build t q + i) refl)
      ];
      room = λ q low high. wiped q low high;
    })
