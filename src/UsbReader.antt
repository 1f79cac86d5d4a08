-- ===== src/UsbReader.antt =====
-- `usb_command_task` of src/app_tasks.c: the lines that come over USB.
pub mod Lines
use epi_pico2w_seringue.Prelude.{
  ℕ, ◌+◌, Bool, true, false, Option, none, some, List, [], ◌∷◌, ◌++◌, length, ltb, ◌==◌,
  if◌then◌else◌,
}
use epi_pico2w_seringue.CString.{bytes, c_string}
use epi_pico2w_seringue.CommandApi.{Command}
use epi_pico2w_seringue.CommandQueue.{QueueOps, submit_command}

-- what the reader calls: `app_tasks_format_query` with a buffer of 768 bytes, and the two parsers
pub record Parsers : Type 0 where
  pub answer : List ℕ → Option (List ℕ)
  pub parse_json : List ℕ → Option Command
  pub parse_ascii : List ℕ → Option Command

-- `line` with its first `used` bytes, the command queue, and what was printed
pub record Reader (Q : Type 0) : Type 0 where
  pub line : List ℕ
  pub queue : Q
  pub printed : List ℕ

-- `line[0]=='{'`
unfoldable pub is_json : List ℕ → Bool
is_json [] = false
is_json (c ∷ _) = c == b'{'

module _ {Q : Type 0} (ops : QueueOps Q) (parsers : Parsers) where
  abbrev print : List ℕ → Reader Q → Reader Q
  print t r = record r { printed = r.printed ++ t }

  unfoldable pub report : Bool × Q → Reader Q → Reader Q
  unfolding bytes
  report (true, q) r = print (bytes "OK QUEUED\n") (record r { queue = q })
  report (false, q) r = print (bytes "ERR SYNTAX_OR_QUEUE\n") (record r { queue = q })

  -- `if(parsed&&submit_command(&command))...else...`
  unfoldable pub submit_parsed : Option Command → Reader Q → Reader Q
  unfolding report submit_command bytes
  submit_parsed none r = print (bytes "ERR SYNTAX_OR_QUEUE\n") r
  submit_parsed (some c) r = report (submit_command ops c r.queue) r

  unfoldable pub answer_or_submit : Option (List ℕ) → Reader Q → Reader Q
  unfolding submit_parsed is_json
  answer_or_submit (some t) r = print t r
  answer_or_submit none r =
      submit_parsed
        (if is_json r.line then parsers.parse_json r.line else parsers.parse_ascii r.line) r

  -- the end of a line that is not empty
  unfoldable pub run_line : Reader Q → Reader Q
  unfolding answer_or_submit c_string
  run_line r = answer_or_submit (parsers.answer (c_string r.line)) r

  -- the body of the loop, at the character that was read
  unfoldable pub feed : ℕ → Reader Q → Reader Q
  unfolding run_line bytes
  feed ch r =
      if ch == b'\r'
      then r
      else if ch == b'\n'
      then record (if length r.line == 0 then r else run_line r) { line = [] }
      else if ltb (length r.line) 511
      then record r { line = r.line ++ ch ∷ [] }
      else print (bytes "ERR LINE_TOO_LONG\n") (record r { line = [] })

  -- what comes, one character after the other
  unfoldable pub feeds : List ℕ → Reader Q → Reader Q
  unfolding feed
  feeds [] r = r
  feeds (c ∷ cs) r = feeds cs (feed c r)
