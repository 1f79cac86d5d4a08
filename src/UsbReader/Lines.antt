-- ===== src/UsbReader/Lines.antt =====
-- The lines that `usb_command_task` of src/app_tasks.c reads.
use epi_pico2w_seringue.Prelude.{
  ℕ, ◌+◌, ◌≡◌, ◌≤◌, ◌<◌, refl, sym, ap, ◌∙◌, Bool, true, false, none, some, List, [], ◌∷◌, ◌++◌,
  length, length-append, All, if◌then◌else◌, if_either, Bool-cases, ltb→lt, inl, inr, arith, ltb,
  ◌==◌,
}
use mathlib.Core.List.{append_assoc, append-nil}
use epi_pico2w_seringue.CString.{c_string}
use epi_pico2w_seringue.CommandApi.{Command}
use epi_pico2w_seringue.CommandQueue.{QueueOps, submit_command}
use epi_pico2w_seringue.UsbReader.{
  Parsers, Reader, is_json, report, submit_parsed, answer_or_submit, run_line, feed, feeds,
}

-- a byte that neither ends a line nor is left out
abbrev pub IsText : ℕ → Type 0
IsText c = ((c == b'\r') ≡ false) × ((c == b'\n') ≡ false)

module _ {Q : Type 0} (ops : QueueOps Q) (parsers : Parsers) where
  feed-text :
      (c : ℕ) (r : Reader Q)
      → IsText c
      → length r.line < 511
      → feed ops parsers c r ≡ record r { line = r.line ++ c ∷ [] }
  unfolding feed
  feed-text c r (no_return, no_end) h =
      let room : ltb (length r.line) 511 ≡ true = ground arith in rw (no_return, no_end, room) refl

  feeds-text :
      (cs rest : List ℕ) (r : Reader Q)
      → All IsText cs
      → length r.line + length cs ≤ 511
      → feeds ops parsers (cs ++ rest) r ≡ feeds ops parsers rest (record r { line = r.line ++ cs })
  unfolding feeds
  feeds-text [] rest r h k =
      ap (λ l. feeds ops parsers rest (record r { line = l })) (sym (append-nil r.line))
  feeds-text (c ∷ cs) rest r (h, hs) k =
      let one = length-append r.line (c ∷ []) in
      ap (feeds ops parsers (cs ++ rest)) (feed-text c r h (omega (arith, k)))
      ∙ feeds-text cs rest (record r { line = r.line ++ c ∷ [] }) hs (omega (arith, one, k))
      ∙ ap (λ l. feeds ops parsers rest (record r { line = l })) (append_assoc r.line (c ∷ []) cs)

  feed-end :
      (r : Reader Q)
      → 1 ≤ length r.line
      → feeds ops parsers (b'\n' ∷ []) r ≡ record (run_line ops parsers r) { line = [] }
  unfolding feeds feed
  feed-end r few =
      let some_bytes : (length r.line == 0) ≡ false = ground arith in rw some_bytes refl

  -- Between two lines, from 1 to 511 bytes that are neither a return nor the end of a line, followed by
  -- the end of a line, are run as one line, and the reader is again between two lines.
  pub feeds-line :
      (cs : List ℕ) (r : Reader Q)
      → r.line ≡ []
      → All IsText cs
      → 1 ≤ length cs
      → length cs ≤ 511
      → feeds ops parsers (cs ++ b'\n' ∷ []) r
        ≡ record (run_line ops parsers (record r { line = cs })) { line = [] }
  feeds-line cs r start h few many =
      feeds-text cs (b'\n' ∷ []) r h (omega (arith, ap length start, many))
      ∙ ap (λ l. feeds ops parsers (b'\n' ∷ []) (record r { line = l ++ cs })) start
      ∙ feed-end (record r { line = cs }) few

  abbrev Short : Reader Q → Type 0
  Short r = length r.line ≤ 511

  feed-bounded :
      (c : ℕ) (r : Reader Q) → length r.line ≤ 511 → length (feed ops parsers c r).line ≤ 511
  unfolding feed
  feed-bounded c r h = if_either Short (c == b'\r') h (
      if_either Short (c == b'\n') (omega arith) (elim (Bool-cases (ltb (length r.line) 511)) [
        | inl room ↦ rw room (omega (arith, length-append r.line (c ∷ []), ltb→lt _ _ room))
        | inr none_left ↦ rw none_left (omega arith)
      ]))

  -- The line never has more than 511 bytes, so that it fits in its array with a closing zero.
  pub feeds-bounded :
      (cs : List ℕ) (r : Reader Q)
      → length r.line ≤ 511
      → length (feeds ops parsers cs r).line ≤ 511
  unfolding feeds
  feeds-bounded [] r h = h
  feeds-bounded (c ∷ cs) r h = feeds-bounded cs (feed ops parsers c r) (feed-bounded c r h)

  report-queue : (x : Bool × Q) (r : Reader Q) → (report ops parsers x r).queue ≡ x.1
  unfolding report
  report-queue (true, q) r = refl
  report-queue (false, q) r = refl

  -- a line that is parsed as a command submits it
  pub run_line-queue :
      (c : Command) (r : Reader Q)
      → parsers.answer (c_string r.line) ≡ none
      → is_json r.line ≡ false
      → parsers.parse_ascii r.line ≡ some c
      → (run_line ops parsers r).queue ≡ (submit_command ops c r.queue).1
  unfolding run_line answer_or_submit submit_parsed
  run_line-queue c r no_query no_json parsed =
      ap (λ o. (answer_or_submit ops parsers o r).queue) no_query
      ∙ ap
          (λ t.
            (submit_parsed ops parsers
              (if t then parsers.parse_json r.line else parsers.parse_ascii r.line) r).queue)
          no_json
      ∙ ap (λ o. (submit_parsed ops parsers o r).queue) parsed
      ∙ report-queue (submit_command ops c r.queue) r
