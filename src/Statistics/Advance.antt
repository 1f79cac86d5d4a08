-- ===== src/Statistics/Advance.antt =====
-- The state after the next record of src/statistics.c was written: the scan finds it.
use epi_pico2w_seringue.Prelude.{
  ℕ, ◌+◌, ◌<◌, ◌≤◌, ◌≡◌, ◌≢◌, ◌⊎◌, inl, inr, sym, ◌∙◌, true, false, ◌==◌, Bool-cases, arith,
}
use epi_pico2w_seringue.Flash.{Build}
use epi_pico2w_seringue.Flash.Bytes.{Agree, byte_in}
use epi_pico2w_seringue.Statistics.{Statistics, page_at, valid_at, init}
use epi_pico2w_seringue.Statistics.Pages.{
  page_of, valid_at-Agree, field-Agree, erased-invalid, valid_at-page, page-sequence, page-count,
}
use epi_pico2w_seringue.Statistics.Scan.{sequence_at, count_at, IsNewestPage, init-IsNewestPage}
use epi_pico2w_seringue.Statistics.Stored.{IsStored, Wrote}

same_page : (t q s p : ℕ) → ((t ≡ s) × (q ≡ p)) ⊎ ((t ≢ s) ⊎ (q ≢ p))
same_page t q s p = elim (Bool-cases (t == s)) [
  | inl a ↦ elim (Bool-cases (q == p)) [
    | inl b ↦ inl (ground arith, ground arith)
    | inr b ↦ inr (inr (ground arith))
  ]
  | inr a ↦ inr (inl (ground arith))
]

module _ (build : Build) (before after : ℕ → ℕ) (st : Statistics) (s p : ℕ)
    (stored : IsStored build before st) (n : ℕ) (next_number : n ≡ st.sequence + 1)
    (sequences : st.sequence < 4294967295) (counts : st.count < 4294967296)
    (wrote : Wrote build before after s p (page_of n st.count)) (hs : s < 2) (hp : p < 16) where
  head : Agree after (page_at build s p) (byte_in (page_of n st.count)) 0 16
  head i lt = wrote.written i (omega arith)

  new-sequence : sequence_at build after s p ≡ n
  new-sequence =
      field-Agree after (page_at build s p) (byte_in (page_of n st.count)) 0 4 (omega arith) head
      ∙ page-sequence n st.count (omega arith)

  new-count : count_at build after s p ≡ st.count
  new-count =
      field-Agree after (page_at build s p) (byte_in (page_of n st.count)) 0 8 (omega arith) head
      ∙ page-count n st.count counts

  -- The other valid records are those that were there before.
  others-le :
      (t q : ℕ)
      → t < 2
      → q < 16
      → (t ≢ s) ⊎ (q ≢ p)
      → valid_at after (page_at build t q) ≡ true
      → sequence_at build after t q ≤ st.sequence
  others-le t q ht hq other valid = elim (wrote.others t q ht hq other) [
    | inl kept ↦
        let at = page_at build t q in
        let part : Agree after at before at 16 = λ i lt. kept i (omega arith) in
        rw (field-Agree after at before at 4 (omega arith) part)
          (stored.newest t q ht hq (sym (valid_at-Agree after at before at part) ∙ valid))
    | inr wiped ↦
        cc (valid, erased-invalid after (page_at build t q) (λ i lt. wiped i (omega arith)))
  ]

  new-IsNewestPage : IsNewestPage build after s p
  new-IsNewestPage = record {
    valid =
        valid_at-Agree after (page_at build s p) (byte_in (page_of n st.count)) 0 head
        ∙ valid_at-page n st.count;
    newest = λ t q ht hq other valid. omega (arith, new-sequence, others-le t q ht hq other valid);
  }

  abbrev advanced : Statistics
  advanced = record st { sequence = n; current_sector = s; current_page = p; dirty = false }

  pub init-advanced : init build after ≡ advanced
  init-advanced = init-IsNewestPage build after s p new-IsNewestPage hs hp ∙ (λ i. record {
    count = new-count i;
    sequence = new-sequence i;
    current_sector = s;
    current_page = p;
    dirty = false;
  })

  pub advanced-IsStored : IsStored build after advanced
  advanced-IsStored = record {
    placed = record { sector = hs; page = hp };
    newest = λ t q ht hq valid. elim (same_page t q s p) [
      | inl (this_sector, this_page) ↦ rw (this_sector, this_page, new-sequence) (omega arith)
      | inr other ↦ omega (arith, others-le t q ht hq other valid)
    ];
    room = wrote.room;
  }
