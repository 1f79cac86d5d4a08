-- ===== src/Tests/Lines.antt =====
-- What stands for the C library and for the queue of FreeRTOS at concrete inputs.
use epi_pico2w_seringue.Prelude.{
  ℕ, ◌+◌, ◌-◌, ◌*◌, ◌≡◌, ◌<◌, ◌≤◌, refl, true, false, ◌&&◌, List, [], ◌∷◌, ◌++◌, length, leb, ltb,
  if◌then◌else◌, arith,
}
use epi_pico2w_seringue.CString.{bytes}
use epi_pico2w_seringue.CommandApi.{Command}
use epi_pico2w_seringue.CommandQueue.{QueueOps, IsQueue, queue_length}
use epi_pico2w_seringue.DeviceConfig.{defaults}
use epi_pico2w_seringue.Float.{Float, binary32, of_ℕ}
use epi_pico2w_seringue.Query.{Facts}
use epi_pico2w_seringue.Tests.Data.{pico2w, idle}

-- the number that a text begins with, behind a number read before
number_behind : ℕ → List ℕ → ℕ
number_behind n [] = n
number_behind n (c ∷ cs) =
    let rest = number_behind (10 * n + (c - b'0')) cs in
    if leb b'0' c && leb c b'9' then rest else n

-- `strtof` on whole numbers
unfoldable pub whole : List ℕ → Float
unfolding number_behind of_ℕ
whole s = of_ℕ binary32 (number_behind 0 s)

-- "%.3f" at zero
abbrev pub zero_text : Float → List ℕ
unfolding bytes
zero_text x = bytes "0.000"

abbrev pub facts : Facts
facts = record {
  build = pico2w;
  radio = record { ready = true; operational = true; advertising_status = 0 };
  snapshot = idle.telemetry_snapshot;
  config = defaults;
}

-- a queue that is the list of its commands
abbrev pub list_queue : QueueOps (List Command)
list_queue = record {
  reset = λ q. [];
  send_to_front = λ c q. if ltb (length q) queue_length then (true, c ∷ q) else (false, q);
  send_to_back = λ c q. if ltb (length q) queue_length then (true, q ++ c ∷ []) else (false, q);
  waiting = λ q. q;
}

has_room : (q : List Command) → length q < queue_length → ltb (length q) queue_length ≡ true
has_room q h = ground arith

has_none : (q : List Command) → queue_length ≤ length q → ltb (length q) queue_length ≡ false
has_none q h = ground arith

pub list_queue-IsQueue : IsQueue list_queue
list_queue-IsQueue = record {
  reset_empties = λ q. refl;
  front = λ c q h. rw (has_room q h) (refl, refl);
  back = λ c q h. rw (has_room q h) (refl, refl);
  full = λ c q h. rw (has_none q h) (refl, refl);
}
