-- ===== src/BleService/Lines.antt =====
-- Lines that come to src/ble_service.c in parts.
use epi_pico2w_seringue.Prelude.{
  ℕ, ◌+◌, ◌≡◌, ◌≢◌, ◌<◌, refl, sym, ap, ◌∙◌, true, false, not, ◌&&◌, Option, none, some, List, [],
  ◌∷◌, ◌++◌, length, length-append, All, Bool-cases, inl, inr, arith,
}
use mathlib.Core.List.{append_assoc, append-nil}
use epi_pico2w_seringue.CommandApi.{Command}
use epi_pico2w_seringue.BleService.{
  Client, AttResult, Service, rx_size, request_for, send, uart_reply, is_stop, queue_command, strip,
  ask, answer_or_queue, uart_command, ends_line, write_cb,
}
use epi_pico2w_seringue.BleService.Receive.{is_too_long, with_part, receive-part, receive-line}

-- the state without the log
abbrev pub forget : Service → Service
forget s = record s { calls = [] }

-- the same result, and the same state but for the log
abbrev pub Same : AttResult × Service → AttResult × Service → Type 0
Same a b = (a.0 ≡ b.0) × (forget a.1 ≡ forget b.1)

request_for-forget : (o : Option ℕ) (s : Service) → forget (request_for o s) ≡ forget s
request_for-forget none s = refl
request_for-forget (some c) s = refl

send-forget : (t : List ℕ) (s : Service) → forget (send t s) ≡ forget (send t (forget s))
send-forget t s =
    request_for-forget s.connection
      (record s { uart_tx = t; uart_tx_offset = 0; notify_pending = true })
    ∙ sym (
        request_for-forget s.connection
          (record (forget s) { uart_tx = t; uart_tx_offset = 0; notify_pending = true }))

queue_command-forget :
    (o : Option Command) (s : Service) → Same (queue_command o s) (queue_command o (forget s))
unfolding queue_command uart_reply
queue_command-forget none s = (refl, send-forget _ s)
queue_command-forget (some c) s = elim (Bool-cases (s.has_command && not (is_stop c.kind))) [
  | inl busy ↦ rw busy (refl, send-forget _ s)
  | inr free ↦ rw free (refl, send-forget _ (record s { pending = c; has_command = true }))
]

answer_or_queue-forget :
    (client : Client) (text : List ℕ) (o : Option (List ℕ)) (s : Service)
    → Same (answer_or_queue client text o s) (answer_or_queue client text o (forget s))
unfolding answer_or_queue
answer_or_queue-forget client text none s = queue_command-forget (client.parse text) s
answer_or_queue-forget client text (some t) s = (refl, send-forget t s)

-- what a line does depends on the state without the log
uart_command-forget :
    (client : Client) (text : List ℕ) (s t : Service)
    → forget s ≡ forget t
    → Same (uart_command client text s) (uart_command client text t)
unfolding uart_command
uart_command-forget client text s t h =
    let here : (u : Service)
        → Same (uart_command client text u) (uart_command client text (forget u)) =
      answer_or_queue-forget client (strip text) (ask client (strip text)) in
    (
      (here s).0 ∙ ap (λ u. (uart_command client text u).0) h ∙ sym (here t).0,
      (here s).1 ∙ ap (λ u. forget (uart_command client text u).1) h ∙ sym (here t).1,
    )

-- parts written one after the other
unfoldable pub write_parts : Client → List (List ℕ) → Service → Service
unfolding write_cb
write_parts client [] s = s
write_parts client (p ∷ ps) s = write_parts client ps (write_cb client true 0 p s).1

unfoldable pub joined : List (List ℕ) → List ℕ
joined [] = []
joined (p ∷ ps) = p ++ joined ps

-- a part of a line, but for the last
abbrev pub IsInner : List ℕ → Type 0
IsInner p = (p ≢ []) × (ends_line p ≡ false)

ends_line-append : (a b : List ℕ) → b ≢ [] → ends_line (a ++ b) ≡ ends_line b
unfolding ends_line
ends_line-append [] b h = refl
ends_line-append (c ∷ []) [] h = absurd (h refl)
ends_line-append (c ∷ []) (d ∷ b) h = refl
ends_line-append (c ∷ d ∷ a) b h = ends_line-append (d ∷ a) b h

is_too_long-fits :
    (p : List ℕ) (s : Service)
    → p ≢ []
    → length s.uart_rx + length p < rx_size
    → is_too_long p s ≡ false
is_too_long-fits [] s h k = absurd (h refl)
is_too_long-fits (c ∷ p) s h k = ground arith

-- the state that holds these bytes
abbrev holding : List ℕ → Service → Service
holding r s = record (forget s) { uart_rx = r }

write_parts-holding :
    (client : Client) (ps : List (List ℕ)) (s : Service)
    → All IsInner ps
    → length s.uart_rx + length (joined ps) < rx_size
    → forget (write_parts client ps s) ≡ holding (s.uart_rx ++ joined ps) s
unfolding write_parts joined write_cb
write_parts-holding client [] s h k = ap (λ r. holding r s) (sym (append-nil s.uart_rx))
write_parts-holding client (p ∷ ps) s ((some_bytes, inner), hs) k =
    let total = length-append p (joined ps) in
    let before = length-append s.uart_rx p in
    let fits = is_too_long-fits p s some_bytes (omega (arith, total, k)) in
    let goes_on = ends_line-append s.uart_rx p some_bytes ∙ inner in
    ap (λ r. forget (write_parts client ps r.1)) (receive-part client p s fits goes_on)
    ∙ write_parts-holding client ps (with_part p s) hs (omega (arith, total, before, k))
    ∙ ap (λ r. holding r s) (append_assoc s.uart_rx p (joined ps))

-- what a line does in a state that has received it
abbrev outcome : Client → List ℕ → Service → AttResult × Service
outcome client line s =
    let done = uart_command client line (holding line s) in (done.0, holding [] done.1)

received :
    (client : Client) (q : List ℕ) (s : Service)
    → q ≢ []
    → ends_line q ≡ true
    → length s.uart_rx + length q < rx_size
    → Same (write_cb client true 0 q s) (outcome client (s.uart_rx ++ q) s)
unfolding write_cb
received client q s some_bytes ends k =
    let fits = is_too_long-fits q s some_bytes k in
    let at_end = ends_line-append s.uart_rx q some_bytes ∙ ends in
    let (result, after) =
      uart_command-forget client (s.uart_rx ++ q) (with_part q s) (holding (s.uart_rx ++ q) s)
        refl in
    rw (receive-line client q s fits at_end) (result, ap (holding []) after)

append-some : (a b : List ℕ) → b ≢ [] → a ++ b ≢ []
append-some [] b h = h
append-some (c ∷ a) b h = λ e. ground arith

-- A line of fewer than 112 bytes that comes in parts, of which only the last ends a line, has the same
-- result and leaves the same state, but for the log of calls, as the line written at once.
pub write_parts_lem :
    (client : Client) (ps : List (List ℕ)) (q : List ℕ) (s : Service)
    → All IsInner ps
    → q ≢ []
    → ends_line q ≡ true
    → length s.uart_rx + length (joined ps ++ q) < rx_size
    → Same
        (write_cb client true 0 q (write_parts client ps s))
        (write_cb client true 0 (joined ps ++ q) s)
write_parts_lem client ps q s inner some_bytes ends k =
    let t = write_parts client ps s in
    let total = length-append s.uart_rx (joined ps) in
    let both = length-append (joined ps) q in
    let held : forget t ≡ holding (s.uart_rx ++ joined ps) s =
      write_parts-holding client ps s inner (omega (arith, both, k)) in
    let rx : t.uart_rx ≡ s.uart_rx ++ joined ps = ap Service.uart_rx held in
    let line : t.uart_rx ++ q ≡ s.uart_rx ++ (joined ps ++ q) =
      ap (λ r. r ++ q) rx ∙ append_assoc s.uart_rx (joined ps) q in
    let equal =
      ap (λ r. outcome client r t) line
      ∙ ap (λ (u : Service). outcome client (s.uart_rx ++ (joined ps ++ q)) u) held in
    let in_parts =
      received client q t some_bytes ends (omega (arith, ap length rx, total, both, k)) in
    let at_once =
      received client (joined ps ++ q) s (append-some (joined ps) q some_bytes)
        (ends_line-append (joined ps) q some_bytes ∙ ends) k in
    (
      in_parts.0 ∙ ap (λ (r : AttResult × Service). r.0) equal ∙ sym at_once.0,
      in_parts.1 ∙ ap (λ (r : AttResult × Service). forget r.1) equal ∙ sym at_once.1,
    )
