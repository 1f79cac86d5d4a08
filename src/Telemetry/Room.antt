-- ===== src/Telemetry/Room.antt =====
-- The buffer of `telemetry_task` of src/app_tasks.c is large enough.
use epi_pico2w_seringue.Prelude.{
  ℕ, zero, suc, ◌+◌, ◌/◌, ◌%◌, ◌≤◌, ◌<◌, ◌≡◌, refl, ap, sym, ◌∙◌, Bool, true, false, List, [], ◌∷◌,
  ◌++◌, length, length-append, no_length, arith, ◌==◌, if◌then◌else◌, if_either, inl, inr,
}
use mathlib.Core.List.{append-nil}
use epi_pico2w_seringue.Float.{binary32, of_ℕ, ltf}
use epi_pico2w_seringue.AppState
use epi_pico2w_seringue.AppState.{State}
use epi_pico2w_seringue.Flash.{Build}
use epi_pico2w_seringue.App.{TelemetrySnapshot}
use epi_pico2w_seringue.CString.{bytes}
use epi_pico2w_seringue.Telemetry.{
  Buffer, digits, downwards, scaled, Radio, truth, format_telemetry, telemetry_size, telemetry_line,
}
use epi_pico2w_seringue.Telemetry.Text.{IsCut}
use epi_pico2w_seringue.Telemetry.Format.{
  Piece, text, uint, fixed3, decimal_text, three_digits, piece_text, text_of, radio_pieces,
  telemetry, format_telemetry-IsCut,
}

length-digits : (n v : ℕ) → length (digits n v) ≤ n
unfolding digits
length-digits zero v = omega arith
length-digits (suc n) v =
    if_either (λ (r : List ℕ). length ((48 + v % 10) ∷ r) ≤ suc n) (v / 10 == 0) (omega arith)
      (omega (arith, length-digits n (v / 10)))

length-downwards : (ds : List ℕ) → length (downwards ds) ≡ length ds
unfolding downwards
length-downwards [] = refl
length-downwards (d ∷ ds) =
    omega (arith, length-append (downwards ds) (d ∷ []), length-downwards ds)

length-decimal_text : (v : ℕ) → length (decimal_text v) ≤ 10
length-decimal_text v = omega (arith, length-downwards (digits 10 v), length-digits 10 v)

-- room that is enough for a part
room : Piece → ℕ
room (text t) = length t
room (uint v) = 10
room (fixed3 x) = 15

four_parts :
    (a b c d : List ℕ) → length (a ++ b ++ c ++ d) ≡ length a + length b + length c + length d
four_parts a b c d =
    omega (arith, length-append (a ++ b ++ c) d, length-append (a ++ b) c, length-append a b)

length-piece_text : (p : Piece) → length (piece_text p) ≤ room p
unfolding room piece_text bytes
length-piece_text (text t) = omega arith
length-piece_text (uint v) = length-decimal_text v
length-piece_text (fixed3 x) =
    let negative = ltf x (of_ℕ binary32 0) in
    let sign : List ℕ = if negative then b'-' ∷ [] else [] in
    let signed : length sign ≤ 1 =
      if_either (λ (r : List ℕ). length r ≤ 1) negative (omega arith) (omega arith) in
    omega (
      arith,
      signed,
      length-decimal_text (scaled x / 1000),
      four_parts sign (decimal_text (scaled x / 1000)) (b'.' ∷ []) (three_digits (scaled x % 1000)),
    )

room_of : List Piece → ℕ
unfolding room
room_of [] = 0
room_of (p ∷ ps) = room p + room_of ps

length-text_of : (ps : List Piece) → length (text_of ps) ≤ room_of ps
unfolding text_of room_of
length-text_of [] = omega arith
length-text_of (p ∷ ps) =
    omega (arith, length-append (piece_text p) (text_of ps), length-piece_text p, length-text_of ps)

length-name : (s : State) → length (bytes (AppState.name s)) ≤ 11
unfolding bytes AppState.name
length-name AppState.boot = omega arith
length-name AppState.ready = omega arith
length-name AppState.manual_push = omega arith
length-name AppState.manual_pull = omega arith
length-name AppState.dosing = omega arith
length-name AppState.retracting = omega arith
length-name AppState.homing = omega arith
length-name AppState.stopping = omega arith
length-name AppState.fault = omega arith

length-truth : (b : Bool) → length (truth b) ≤ 5
unfolding truth bytes
length-truth true = omega arith
length-truth false = omega arith

-- the end of the text, from the radio on
room_of-end :
    (t : Bool) (r : Radio) (fault : ℕ)
    → room_of (
        (if t then radio_pieces r else [])
        ++ text (bytes ",\"fault\":") ∷ uint fault ∷ text (bytes "}") ∷ [])
      ≤ 94
unfolding room_of room bytes
room_of-end false r fault = omega arith
room_of-end true r fault = omega (arith, length-truth r.ready, length-truth r.operational)

room_of-telemetry :
    (build : Build) (r : Radio) (s : TelemetrySnapshot)
    → length (bytes s.unload_result) ≤ 12
    → room_of (telemetry build r s) ≤ 447
unfolding room_of room telemetry bytes
room_of-telemetry build r s h = omega (
  arith,
  h,
  length-name s.state,
  length-truth s.sg_calibrating,
  length-truth build.has_radio,
  room_of-end build.has_radio r s.fault,
)

whole :
    (capacity : ℕ) (t : List ℕ) (o : Buffer) → length t < capacity → IsCut capacity t o → o.text ≡ t
whole capacity t o h cut =
    let size = ap length cut.split in
    let parts = length-append o.text cut.rest in
    let nothing_left : cut.rest ≡ [] = elim cut.cut [
      | inl one ↦ no_length cut.rest (omega (arith, one, size, parts, cut.room, h))
      | inr done ↦ done
    ] in
    sym (append-nil o.text) ∙ ap (o.text ++◌) (sym nothing_left) ∙ cut.split

-- with a result of the last unloading of at most 12 bytes, 448 bytes are enough
pub format_telemetry-whole :
    (build : Build) (r : Radio) (capacity : ℕ) (s : TelemetrySnapshot)
    → length (bytes s.unload_result) ≤ 12
    → telemetry_size ≤ capacity
    → (format_telemetry build r capacity s).text ≡ text_of (telemetry build r s)
format_telemetry-whole build r capacity s h k =
    let parts = telemetry build r s in
    whole capacity (text_of parts) (format_telemetry build r capacity s)
      (omega (arith, length-text_of parts, room_of-telemetry build r s h))
      (format_telemetry-IsCut build r capacity s (omega arith))

pub length-telemetry :
    (build : Build) (r : Radio) (s : TelemetrySnapshot)
    → length (bytes s.unload_result) ≤ 12
    → length (text_of (telemetry build r s)) < telemetry_size
length-telemetry build r s h =
    omega (arith, length-text_of (telemetry build r s), room_of-telemetry build r s h)

-- With a result of the last unloading of at most 12 bytes, as all of them are, the telemetry is never cut
-- by its buffer of 448 bytes: a line of it is the whole text of the listed parts.
pub telemetry_line-whole :
    (build : Build) (r : Radio) (s : TelemetrySnapshot)
    → length (bytes s.unload_result) ≤ 12
    → telemetry_line build r s ≡ text_of (telemetry build r s) ++ b'\n' ∷ []
unfolding telemetry_line
telemetry_line-whole build r s h =
    ap (λ t. t ++ b'\n' ∷ []) (format_telemetry-whole build r telemetry_size s h (omega arith))
