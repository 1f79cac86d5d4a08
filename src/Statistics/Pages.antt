-- ===== src/Statistics/Pages.antt =====
-- A record of src/statistics.c in its page: what is found depends on the bytes of the page alone.
use epi_pico2w_seringue.Prelude.{
  ℕ, ◌+◌, ◌≤◌, ◌<◌, ◌≡◌, refl, ◌∙◌, false, true, List, [], ◌∷◌, ◌++◌, ◌==◌, ==_iff, arith,
}
use epi_pico2w_seringue.Crc.{crc32}
use epi_pico2w_seringue.Crc.Width.{crc32-lt}
use epi_pico2w_seringue.Flash.{bytes_at, number_at, image, bytes_of}
use epi_pico2w_seringue.Flash.Bytes.{
  Agree, Agree-from, number_at-Agree, bytes_at-Agree, byte_in, image-AreBytes, four_bytes,
}
use epi_pico2w_seringue.Statistics.{valid_at, record_head, erased}

pub valid_at-Agree :
    (f : ℕ → ℕ) (o : ℕ) (g : ℕ → ℕ) (p : ℕ) → Agree f o g p 16 → valid_at f o ≡ valid_at g p
unfolding valid_at
valid_at-Agree f o g p h =
    let magic : number_at f o 4 ≡ number_at g p 4 =
      number_at-Agree f o g p 4 (λ i lt. h i (omega arith)) in
    let sum : number_at f (o + 12) 4 ≡ number_at g (p + 12) 4 =
      number_at-Agree f (o + 12) g (p + 12) 4 (Agree-from f o g p 12 4 h) in
    let head : bytes_at f o 12 ≡ bytes_at g p 12 =
      bytes_at-Agree f o g p 12 (λ i lt. h i (omega arith)) in
    rw (magic, sum, head)

-- the number at a place of the record
pub field-Agree :
    (f : ℕ → ℕ) (o : ℕ) (g : ℕ → ℕ) (p k : ℕ)
    → k + 4 ≤ 16
    → Agree f o g p 16
    → number_at f (o + k) 4 ≡ number_at g (p + k) 4
field-Agree f o g p k room h =
    number_at-Agree f (o + k) g (p + k) 4 (Agree-from f o g p k 4 (λ i lt. h i (omega arith)))

-- a flash that is erased everywhere
abbrev pub blank : ℕ → ℕ
blank at = 255

blank-invalid : valid_at blank 0 ≡ false
unfolding valid_at number_at
blank-invalid = refl

pub erased-invalid : (f : ℕ → ℕ) (o : ℕ) → Agree f o blank 0 16 → valid_at f o ≡ false
erased-invalid f o h = valid_at-Agree f o blank 0 h ∙ blank-invalid

-- the page that is written for a record
abbrev pub page_of : ℕ → ℕ → List ℕ
page_of sequence count =
    record_head sequence count ++ image ((4, crc32 (record_head sequence count)) ∷ []) ++ erased 240

record_head-crc : (sequence count : ℕ) → crc32 (record_head sequence count) < 4294967296
record_head-crc sequence count = crc32-lt (record_head sequence count) (image-AreBytes _)

page-magic :
    (sequence count : ℕ) → (number_at (byte_in (page_of sequence count)) 0 4 == 0x53544154) ≡ true
unfolding number_at image bytes_of erased
page-magic sequence count = refl

page-crc :
    (sequence count : ℕ)
    → number_at (byte_in (page_of sequence count)) 12 4 ≡ crc32 (record_head sequence count)
unfolding number_at image bytes_of erased
page-crc sequence count =
    four_bytes (crc32 (record_head sequence count)) (record_head-crc sequence count)

page-head :
    (sequence count : ℕ)
    → bytes_at (byte_in (page_of sequence count)) 0 12 ≡ record_head sequence count
unfolding bytes_at image bytes_of erased
page-head sequence count = refl

pub valid_at-page : (sequence count : ℕ) → valid_at (byte_in (page_of sequence count)) 0 ≡ true
unfolding valid_at
valid_at-page sequence count =
    rw (page-magic sequence count, page-crc sequence count, page-head sequence count)
      ((==_iff _ _).1 refl)

pub page-sequence :
    (sequence count : ℕ)
    → sequence < 4294967296
    → number_at (byte_in (page_of sequence count)) 4 4 ≡ sequence
unfolding number_at image bytes_of erased
page-sequence sequence count h = four_bytes sequence h

pub page-count :
    (sequence count : ℕ)
    → count < 4294967296
    → number_at (byte_in (page_of sequence count)) 8 4 ≡ count
unfolding number_at image bytes_of erased
page-count sequence count h = four_bytes count h
