-- ===== src/BleService/Sent.antt =====
-- src/ble_service.c sends every answer to its end.
use epi_pico2w_seringue.Prelude.{
  ℕ, ◌+◌, ◌-◌, ◌≡◌, ◌≤◌, ◌<◌, refl, sym, ap, ◌∙◌, Bool, true, false, Option, none, some, List, [],
  ◌∷◌, ◌++◌, length, take, drop, take-drop, drop-drop, length-drop, no_length, ltb, if_either,
  Bool-cases, ltb→lt, subst, inl, inr, arith,
}
use mathlib.Core.List.{append_assoc, append-nil}
use epi_pico2w_seringue.BleService.{
  Call, notify, Service, tx_size, chunk_size, request_for, advance, send_chunk, can_send,
  can_send_now, packet_handler,
}
use epi_pico2w_seringue.BleService.Transmit.{chunk_size-positive, next_offset}

-- the bytes that were given to BTstack, in order
unfoldable pub sent : List Call → List ℕ
sent [] = []
sent (notify c t ∷ cs) = t ++ sent cs
sent (_ ∷ cs) = sent cs

sent-append : (a b : List Call) → sent (a ++ b) ≡ sent a ++ sent b
unfolding sent
sent-append [] b = refl
sent-append (notify c t ∷ a) b =
    ap (t ++◌) (sent-append a b) ∙ sym (append_assoc t (sent a) (sent b))
sent-append (Call.request_can_send_now c ∷ a) b = sent-append a b
sent-append (Call.timer_remove ∷ a) b = sent-append a b
sent-append (Call.timer_restart ∷ a) b = sent-append a b
sent-append (Call.set_up ∷ a) b = sent-append a b
sent-append (Call.advertise ∷ a) b = sent-append a b
sent-append (Call.disconnect c ∷ a) b = sent-append a b
sent-append (Call.start_stack i ∷ a) b = sent-append a b

-- what sending depends on, and what it has done
abbrev View : Type 0
View = Option ℕ × List ℕ × ℕ × Bool × List ℕ

view : Service → View
unfolding sent
view s = (s.connection, s.uart_tx, s.uart_tx_offset, s.notify_pending, sent s.calls)

request_for-view : (o : Option ℕ) (s : Service) → view (request_for o s) ≡ view s
unfolding view sent
request_for-view none s = refl
request_for-view (some c) s =
    ap (λ t. (s.connection, s.uart_tx, s.uart_tx_offset, s.notify_pending, t))
      (sent-append s.calls (Call.request_can_send_now c ∷ []) ∙ append-nil (sent s.calls))

send_chunk-view : (c mtu : ℕ) (s : Service) → view (send_chunk c mtu s) ≡ view (advance c mtu s)
unfolding send_chunk
send_chunk-view c mtu s =
    let a = advance c mtu s in
    if_either (λ r. view r ≡ view a) a.notify_pending (request_for-view a.connection a) refl

sent-notify :
    (cs : List Call) (c : ℕ) (t : List ℕ)
    → sent (cs ++ notify c t ∷ [] ++ Call.timer_restart ∷ []) ≡ sent cs ++ t
unfolding sent
sent-notify cs c t =
    sent-append (cs ++ notify c t ∷ []) (Call.timer_restart ∷ [])
    ∙ append-nil (sent (cs ++ notify c t ∷ []))
    ∙ sent-append cs (notify c t ∷ [])
    ∙ ap (sent cs ++◌) (append-nil t)

advance-view :
    (c mtu : ℕ) (s : Service)
    → s.uart_tx_offset ≤ length s.uart_tx
    → length s.uart_tx < tx_size
    → view (advance c mtu s) ≡ (
      s.connection,
      s.uart_tx,
      s.uart_tx_offset + chunk_size mtu s,
      ltb (s.uart_tx_offset + chunk_size mtu s) (length s.uart_tx),
      sent s.calls ++ take (chunk_size mtu s) (drop s.uart_tx_offset s.uart_tx),
    )
unfolding view advance
advance-view c mtu s h k =
    rw
      (
        next_offset mtu s h k,
        sent-notify s.calls c (take (chunk_size mtu s) (drop s.uart_tx_offset s.uart_tx)),
      )
      refl

-- BTstack reports that it can send, with these MTUs
unfoldable pub can_sends : List ℕ → Service → Service
unfolding packet_handler
can_sends [] s = s
can_sends (mtu ∷ mtus) s = can_sends mtus (packet_handler (can_send_now mtu) s)

silent : (o : Option ℕ) (mtu : ℕ) (s : Service) → s.notify_pending ≡ false → can_send o mtu s ≡ s
unfolding can_send
silent none mtu s h = refl
silent (some c) mtu s h = rw h refl

not_below : (a b : ℕ) → ltb a b ≡ false → b ≤ a
not_below a b h = ground arith

idle : (mtus : List ℕ) (s : Service) → s.notify_pending ≡ false → can_sends mtus s ≡ s
unfolding can_sends packet_handler
idle [] s h = refl
idle (mtu ∷ mtus) s h = ap (can_sends mtus) (silent s.connection mtu s h) ∙ idle mtus s h

sends :
    (c mtu : ℕ) (s : Service)
    → s.connection ≡ some c
    → s.notify_pending ≡ true
    → packet_handler (can_send_now mtu) s ≡ send_chunk c mtu s
unfolding packet_handler can_send
sends c mtu s h p = ap (λ o. can_send o mtu s) h ∙ rw p refl

-- a part and what is left behind it
next_part :
    (n o : ℕ) (t : List ℕ) (u : List ℕ) → (u ++ take n (drop o t)) ++ drop (o + n) t ≡ u ++ drop o t
next_part n o t u =
    append_assoc u (take n (drop o t)) (drop (o + n) t)
    ∙ ap (λ r. u ++ (take n (drop o t) ++ r)) (sym (drop-drop o n t))
    ∙ ap (u ++◌) (take-drop n (drop o t))

nothing_left : (n : ℕ) (t : List ℕ) → length t ≤ n → drop n t ≡ []
nothing_left n t h = no_length (drop n t) (omega (arith, length-drop n t))

last_part :
    (n o : ℕ) (t : List ℕ) (u : List ℕ) → length t ≤ o + n → u ++ take n (drop o t) ≡ u ++ drop o t
last_part n o t u h =
    sym (append-nil (u ++ take n (drop o t)))
    ∙ ap ((u ++ take n (drop o t)) ++◌) (sym (nothing_left (o + n) t h))
    ∙ next_part n o t u

-- both conclusions, after what was sent before
abbrev IsSent : Service → List ℕ → Type 0
unfolding sent
IsSent s t = (s.notify_pending ≡ false) × (sent s.calls ≡ t)

-- In a connection, with an answer on its way of which the offset says how much was sent, as many reports
-- that BTstack can send as bytes are left, and at least one, are enough, with whatever MTUs: then
-- nothing is on its way, and what was given to BTstack is what it was before and the rest of the answer.
pub can_sends_lem :
    (mtus : List ℕ) (s : Service) (c : ℕ)
    → s.connection ≡ some c
    → s.notify_pending ≡ true
    → s.uart_tx_offset ≤ length s.uart_tx
    → length s.uart_tx < tx_size
    → length s.uart_tx - s.uart_tx_offset ≤ length mtus
    → 1 ≤ length mtus
    → ((can_sends mtus s).notify_pending ≡ false)
      × (sent (can_sends mtus s).calls ≡ sent s.calls ++ drop s.uart_tx_offset s.uart_tx)
unfolding can_sends view
can_sends_lem [] s c h p o t enough some_mtu = absurd (omega arith)
can_sends_lem (mtu ∷ mtus) s c h p o t enough some_mtu =
    let n = chunk_size mtu s in
    let next = send_chunk c mtu s in
    let seen = send_chunk-view c mtu s ∙ advance-view c mtu s o t in
    let connection : next.connection ≡ some c = ap (λ (v : View). v.0) seen ∙ h in
    let tx : next.uart_tx ≡ s.uart_tx = ap (λ (v : View). v.1) seen in
    let offset : next.uart_tx_offset ≡ s.uart_tx_offset + n = ap (λ (v : View). v.2) seen in
    let pending : next.notify_pending ≡ ltb (s.uart_tx_offset + n) (length s.uart_tx) =
      ap (λ (v : View). v.3) seen in
    let calls : sent next.calls ≡ sent s.calls ++ take n (drop s.uart_tx_offset s.uart_tx) =
      ap (λ (v : View). v.4) seen in
    let all = sent s.calls ++ drop s.uart_tx_offset s.uart_tx in
    subst (λ (u : Service). IsSent (can_sends mtus u) all) (sym (sends c mtu s h p))
      (elim (Bool-cases (ltb (s.uart_tx_offset + n) (length s.uart_tx))) [
        | inl more ↦
            let behind : s.uart_tx_offset + n < length s.uart_tx = ltb→lt _ _ more in
            let some_bytes = chunk_size-positive mtu s (omega (arith, behind)) t in
            let size = ap length tx in
            let rest =
              can_sends_lem mtus next c connection (pending ∙ more)
                (omega (arith, size, offset, behind)) (omega (arith, size, t))
                (omega (arith, size, offset, some_bytes, enough))
                (omega (arith, enough, some_bytes, behind)) in
            (
              rest.0,
              rest.1
                  ∙ rw (calls, offset, tx) (next_part n s.uart_tx_offset s.uart_tx (sent s.calls)),
            )
        | inr done ↦
            let finished = pending ∙ done in
            let still = idle mtus next finished in
            (
              ap Service.notify_pending still ∙ finished,
              ap (λ (u : Service). sent u.calls) still
                  ∙ calls
                  ∙ last_part n s.uart_tx_offset s.uart_tx (sent s.calls) (not_below _ _ done),
            )
      ])
