-- ===== src/Statistics/Scan.antt =====
-- What the scan of `statistics_init` of src/statistics.c finds.
use epi_pico2w_seringue.Prelude.{
  ℕ, zero, suc, ◌+◌, ◌<◌, ◌≤◌, ◌≡◌, ◌≢◌, ◌⊎◌, inl, inr, refl, ap, ◌∙◌, Bool, true, false,
  Bool-cases, ltb, arith,
}
use epi_pico2w_seringue.Flash.{Build, number_at}
use epi_pico2w_seringue.Statistics.{
  Statistics, page_at, valid_at, scan_page, scan_pages, init, cleared,
}

-- the sequence number and the count of the record in a page
abbrev pub sequence_at : Build → (ℕ → ℕ) → ℕ → ℕ → ℕ
sequence_at build flash s p = number_at flash (page_at build s p + 4) 4

abbrev pub count_at : Build → (ℕ → ℕ) → ℕ → ℕ → ℕ
count_at build flash s p = number_at flash (page_at build s p + 8) 4

-- the record of a page, as the state
abbrev pub recorded : Build → (ℕ → ℕ) → ℕ → ℕ → Statistics
recorded build flash s p = record {
  count = count_at build flash s p;
  sequence = sequence_at build flash s p;
  current_sector = s;
  current_page = p;
  dirty = false;
}

-- The page holds a valid record that is newer than every other valid one.
pub record IsNewestPage (build : Build) (flash : ℕ → ℕ) (s p : ℕ) : Type 0 where
  pub valid : valid_at flash (page_at build s p) ≡ true
  pub newest :
      (t q : ℕ)
      → t < 2
      → q < 16
      → (t ≢ s) ⊎ (q ≢ p)
      → valid_at flash (page_at build t q) ≡ true
      → sequence_at build flash t q < sequence_at build flash s p

-- the scan has found older records only
abbrev Older : ℕ → Bool × Statistics → Type 0
Older sequence acc = ((acc.0 ≡ true) → (acc.1.sequence < sequence)) × (acc.1.dirty ≡ false)

module _ (build : Build) (flash : ℕ → ℕ) (s p : ℕ) (target : IsNewestPage build flash s p) where
  scan_page-hit :
      (acc : Bool × Statistics)
      → Older (sequence_at build flash s p) acc
      → scan_page build flash s p acc ≡ (true, recorded build flash s p)
  unfolding scan_page
  scan_page-hit (true, st) h = ground (arith, target.valid, h.0 refl)
  scan_page-hit (false, st) h = ground (arith, target.valid)

  scan_page-before :
      (t q : ℕ) (acc : Bool × Statistics)
      → t < 2
      → q < 16
      → (t ≢ s) ⊎ (q ≢ p)
      → Older (sequence_at build flash s p) acc
      → Older (sequence_at build flash s p) (scan_page build flash t q acc)
  unfolding scan_page
  scan_page-before t q (found, st) ht hq other h =
      elim (Bool-cases (valid_at flash (page_at build t q))) [
        | inl v ↦ ground (arith, target.newest t q ht hq other v)
        | inr v ↦ rw v h
      ]

  scan_page-after :
      (t q : ℕ)
      → t < 2
      → q < 16
      → (t ≢ s) ⊎ (q ≢ p)
      → scan_page build flash t q (true, recorded build flash s p)
        ≡ (true, recorded build flash s p)
  unfolding scan_page
  scan_page-after t q ht hq other = elim (Bool-cases (valid_at flash (page_at build t q))) [
    | inl v ↦ ground (arith, target.newest t q ht hq other v)
    | inr v ↦ rw v refl
  ]

  scan_pages-before :
      (t n q : ℕ) (acc : Bool × Statistics)
      → t < 2
      → q + n ≤ 16
      → (t ≢ s) ⊎ (q + n ≤ p)
      → Older (sequence_at build flash s p) acc
      → Older (sequence_at build flash s p) (scan_pages build flash t n q acc)
  unfolding scan_pages
  scan_pages-before t zero q acc ht hq other h = h
  scan_pages-before t (suc n) q acc ht hq other h =
      scan_pages-before t n (q + 1) (scan_page build flash t q acc) ht (omega arith) (omega arith)
        (scan_page-before t q acc ht (omega arith) (omega arith) h)

  scan_pages-after :
      (t n q : ℕ)
      → t < 2
      → q + n ≤ 16
      → (t ≢ s) ⊎ (p < q)
      → scan_pages build flash t n q (true, recorded build flash s p)
        ≡ (true, recorded build flash s p)
  unfolding scan_pages
  scan_pages-after t zero q ht hq other = refl
  scan_pages-after t (suc n) q ht hq other =
      rw (scan_page-after t q ht (omega arith) (omega arith))
        (scan_pages-after t n (q + 1) ht (omega arith) (omega arith))

  -- Through the sector of the page, the scan ends with its record.
  scan_pages-across :
      (n q : ℕ) (acc : Bool × Statistics)
      → s < 2
      → q + n ≤ 16
      → q ≤ p
      → p < q + n
      → Older (sequence_at build flash s p) acc
      → scan_pages build flash s n q acc ≡ (true, recorded build flash s p)
  unfolding scan_pages
  scan_pages-across zero q acc hs hq low high h = absurd (omega arith)
  scan_pages-across (suc n) q acc hs hq low high h = elim (Bool-cases (ltb q p)) [
    | inl early ↦
        scan_pages-across n (q + 1) (scan_page build flash s q acc) hs (omega arith) (ground arith)
          (omega arith) (scan_page-before s q acc hs (omega arith) (inr (ground arith)) h)
    | inr here ↦
        let same : q ≡ p = ground arith in
        rw (same, scan_page-hit acc h) (scan_pages-after s n (p + 1) hs (omega arith) (omega arith))
  ]

none_yet : (sequence : ℕ) → Older sequence (false, cleared)
none_yet sequence = ((λ found. cc), refl)

-- The start finds the newest record.
pub init-IsNewestPage :
    (build : Build) (flash : ℕ → ℕ) (s p : ℕ)
    → IsNewestPage build flash s p
    → s < 2
    → p < 16
    → init build flash ≡ recorded build flash s p
unfolding init
init-IsNewestPage build flash zero p target hs hp =
    ap (λ acc. (scan_pages build flash 1 16 0 acc).1)
      (scan_pages-across build flash 0 p target 16 0 (false, cleared) hs (omega arith) (omega arith)
        (omega arith) (none_yet (sequence_at build flash 0 p)))
    ∙ ap (λ r. r.1)
        (scan_pages-after build flash 0 p target 1 16 0 (omega arith) (omega arith)
          (inl (omega arith)))
init-IsNewestPage build flash (suc zero) p target hs hp =
    ap (λ r. r.1)
      (scan_pages-across build flash 1 p target 16 0
        (scan_pages build flash 0 16 0 (false, cleared)) hs (omega arith) (omega arith)
        (omega arith)
        (scan_pages-before build flash 1 p target 0 16 0 (false, cleared) (omega arith)
          (omega arith) (inl (omega arith)) (none_yet (sequence_at build flash 1 p))))
init-IsNewestPage build flash (suc (suc s)) p target hs hp = absurd (omega arith)

-- No page holds a valid record.
abbrev pub IsEmpty : Build → (ℕ → ℕ) → Type 0
IsEmpty build flash = (s p : ℕ) → s < 2 → p < 16 → valid_at flash (page_at build s p) ≡ false

scan_pages-IsEmpty :
    (build : Build) (flash : ℕ → ℕ) (s n p : ℕ) (acc : Bool × Statistics)
    → IsEmpty build flash
    → s < 2
    → p + n ≤ 16
    → scan_pages build flash s n p acc ≡ acc
unfolding scan_pages scan_page
scan_pages-IsEmpty build flash s zero p acc empty hs hp = refl
scan_pages-IsEmpty build flash s (suc n) p acc empty hs hp =
    rw (empty s p hs (omega arith))
      (scan_pages-IsEmpty build flash s n (p + 1) acc empty hs (omega arith))

-- Then the counter starts at 0.
pub init-IsEmpty :
    (build : Build) (flash : ℕ → ℕ) → IsEmpty build flash → init build flash ≡ cleared
unfolding init
init-IsEmpty build flash empty =
    ap (λ acc. (scan_pages build flash 1 16 0 acc).1)
      (scan_pages-IsEmpty build flash 0 16 0 (false, cleared) empty (omega arith) (omega arith))
    ∙ ap (λ r. r.1)
        (scan_pages-IsEmpty build flash 1 16 0 (false, cleared) empty (omega arith) (omega arith))
