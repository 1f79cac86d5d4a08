-- ===== src/BleService/Bounds.antt =====
-- The arrays of src/ble_service.c are never written or read behind their ends.
use epi_pico2w_seringue.Prelude.{
  ℕ, ◌+◌, ◌-◌, ◌≡◌, ◌≤◌, ◌<◌, refl, true, false, not, ◌&&◌, ◌||◌, Option, none, some, List, [], ◌∷◌,
  ◌++◌, length, length-append, length-take, All, take, ltb, leb, ◌==◌, if◌then◌else◌, if_either,
  Bool-cases, inl, inr, arith,
}
use epi_pico2w_seringue.CString.{bytes, c_string}
use epi_pico2w_seringue.CommandApi.{Command}
use epi_pico2w_seringue.BleService.{
  AttResult, Client, Service, rx_size, tx_size, initial, call, timer_restart, is_stop, request_for,
  send, uart_reply, strip, queue_command, ask, answer_or_queue, uart_command, ends_line, receive,
  write_cb, state, command_complete, connection_complete, can_send_now, disconnection_complete,
  other, set_advertising_parameters, set_advertise_enable, other_opcode, advance, send_chunk,
  can_send, packet_handler, disconnect_from, idle_timeout, take_command,
}
use epi_pico2w_seringue.BleService.Run.{
  Input, write, event, timeout, fetch, step, run, IsFitting, HasFitting,
}
use epi_pico2w_seringue.BleService.Receive.{
  is_too_long, with_part, receive-too_long, receive-part, receive-line,
}
use epi_pico2w_seringue.BleService.Transmit.{chunk_size-le, next_offset}

-- What is received leaves room for a closing zero, and so does the answer; what is sent lies in it.
pub record InBounds (received answer : List ℕ) (offset : ℕ) : Type 0 where
  pub rx : length received < rx_size
  pub tx : length answer < tx_size
  pub in_answer : offset ≤ length answer

abbrev pub IsBounded : Service → Type 0
IsBounded s = InBounds s.uart_rx s.uart_tx s.uart_tx_offset

request_for-IsBounded : (o : Option ℕ) (s : Service) → IsBounded s → IsBounded (request_for o s)
request_for-IsBounded none s b = b
request_for-IsBounded (some c) s b = b

send-IsBounded :
    (t : List ℕ) (s : Service)
    → length t < tx_size
    → length s.uart_rx < rx_size
    → IsBounded (send t s)
send-IsBounded t s h few =
    request_for-IsBounded s.connection
      (record s { uart_tx = t; uart_tx_offset = 0; notify_pending = true })
      (record { rx = few; tx = h; in_answer = omega arith })

uart_reply-IsBounded :
    (t : List ℕ) (s : Service) → length s.uart_rx < rx_size → IsBounded (uart_reply t s)
unfolding uart_reply
uart_reply-IsBounded t s few =
    let n = if leb tx_size (length t) then tx_size - 1 else length t in
    let small : n < tx_size = ground arith in
    send-IsBounded (take n t) s (omega (arith, length-take n t, small)) few

queue_command-IsBounded :
    (o : Option Command) (s : Service)
    → length s.uart_rx < rx_size
    → IsBounded (queue_command o s).1
unfolding queue_command
queue_command-IsBounded none s few = uart_reply-IsBounded (bytes "ERR COMMAND\n") s few
queue_command-IsBounded (some c) s few =
    if_either (λ (r : AttResult × Service). IsBounded r.1) (s.has_command && not (is_stop c.kind))
      (uart_reply-IsBounded (bytes "ERR BUSY\n") s few)
      (uart_reply-IsBounded (bytes "OK QUEUED\n") (record s { pending = c; has_command = true })
        few)

answer_or_queue-IsBounded :
    (client : Client) (text : List ℕ) (o : Option (List ℕ)) (s : Service)
    → ((t : List ℕ) → o ≡ some t → length t < tx_size)
    → length s.uart_rx < rx_size
    → IsBounded (answer_or_queue client text o s).1
unfolding answer_or_queue
answer_or_queue-IsBounded client text none s fits few =
    queue_command-IsBounded (client.parse text) s few
answer_or_queue-IsBounded client text (some t) s fits few = send-IsBounded t s (fits t refl) few

ask-fits :
    (client : Client) (text t : List ℕ)
    → IsFitting client
    → ask client text ≡ some t
    → length t < tx_size
unfolding ask
ask-fits client text t fits h = elim (Bool-cases (ltb (length text) 112)) [
  | inl y ↦ fits (c_string text) t (ground arith)
  | inr n ↦ absurd (ground arith)
]

uart_command-IsBounded :
    (client : Client) (text : List ℕ) (s : Service)
    → IsFitting client
    → length s.uart_rx < rx_size
    → IsBounded (uart_command client text s).1
unfolding uart_command
uart_command-IsBounded client text s fits few =
    answer_or_queue-IsBounded client (strip text) (ask client (strip text)) s
      (λ t. ask-fits client (strip text) t fits) few

part_fits : (m n l : ℕ) → l ≡ m + n → (n == 0 || leb rx_size (m + n)) ≡ false → l < rx_size
part_fits m n l e h = ground arith

receive-IsBounded :
    (client : Client) (buffer : List ℕ) (s : Service)
    → IsFitting client
    → IsBounded s
    → IsBounded (receive client buffer s).1
unfolding receive
receive-IsBounded client buffer s fits b = elim (Bool-cases (is_too_long buffer s)) [
  | inl bad ↦ rw (receive-too_long client buffer s bad) (
      uart_reply-IsBounded (bytes "ERR TOO_LONG\n") (record (call timer_restart s) { uart_rx = [] })
        (omega arith))
  | inr good ↦
      let small : length (s.uart_rx ++ buffer) < rx_size =
        part_fits (length s.uart_rx) (length buffer) (length (s.uart_rx ++ buffer))
          (length-append s.uart_rx buffer) good in
      elim (Bool-cases (ends_line (s.uart_rx ++ buffer))) [
        | inl line ↦
            let after =
              uart_command-IsBounded client (s.uart_rx ++ buffer) (with_part buffer s) fits small in
            rw (receive-line client buffer s good line)
              (record { rx = omega arith; tx = after.tx; in_answer = after.in_answer })
        | inr more ↦
            rw (receive-part client buffer s good more)
              (record { rx = small; tx = b.tx; in_answer = b.in_answer })
      ]
]

advance-IsBounded : (c mtu : ℕ) (s : Service) → IsBounded s → IsBounded (advance c mtu s)
unfolding advance
advance-IsBounded c mtu s b =
    let fits = chunk_size-le mtu s b.in_answer b.tx in
    let next = next_offset mtu s b.in_answer b.tx in
    record { rx = b.rx; tx = b.tx; in_answer = omega (arith, fits, next, b.in_answer) }

can_send-IsBounded :
    (o : Option ℕ) (mtu : ℕ) (s : Service) → IsBounded s → IsBounded (can_send o mtu s)
unfolding can_send send_chunk
can_send-IsBounded none mtu s b = b
can_send-IsBounded (some c) mtu s b =
    let sent = advance-IsBounded c mtu s b in
    let asked = request_for-IsBounded (advance c mtu s).connection (advance c mtu s) sent in
    if_either IsBounded s.notify_pending
      (if_either IsBounded (advance c mtu s).notify_pending asked sent) b

disconnect_from-IsBounded :
    (o : Option ℕ) (s : Service) → IsBounded s → IsBounded (disconnect_from o s)
disconnect_from-IsBounded none s b = b
disconnect_from-IsBounded (some c) s b = b

idle_timeout-IsBounded : (s : Service) → IsBounded s → IsBounded (idle_timeout s)
unfolding idle_timeout
idle_timeout-IsBounded s b = disconnect_from-IsBounded s.connection s b

step-IsBounded : (i : Input) (s : Service) → HasFitting i → IsBounded s → IsBounded (step i s)
unfolding step write_cb packet_handler can_send idle_timeout take_command
step-IsBounded (write client is_rx offset buffer) s fits b =
    if_either (λ (r : AttResult × Service). IsBounded r.1) (not (offset == 0)) b
      (if_either (λ (r : AttResult × Service). IsBounded r.1) is_rx
        (receive-IsBounded client buffer s fits b) b)
step-IsBounded (event (state true)) s h b = b
step-IsBounded (event (state false)) s h b = b
step-IsBounded (event (command_complete set_advertising_parameters v)) s h b = b
step-IsBounded (event (command_complete set_advertise_enable v)) s h b = b
step-IsBounded (event (command_complete other_opcode v)) s h b = b
step-IsBounded (event (connection_complete c)) s h b = b
step-IsBounded (event (can_send_now mtu)) s h b = can_send-IsBounded s.connection mtu s b
step-IsBounded (event disconnection_complete) s h b = record {
  rx = omega arith;
  tx = b.tx;
  in_answer = b.in_answer;
}
step-IsBounded (event other) s h b = b
step-IsBounded timeout s h b = idle_timeout-IsBounded s b
step-IsBounded fetch s h b =
    if_either (λ (r : Option Command × Service). IsBounded r.1) s.has_command b b

pub bounded :
    (is : List Input) (s : Service) → All HasFitting is → IsBounded s → IsBounded (run is s)
unfolding run
bounded [] s h b = b
bounded (i ∷ is) s (h, hs) b = bounded is (step i s) hs (step-IsBounded i s h b)

-- However the callbacks come from the start, if every answer to a query is shorter than its buffer, then
-- what was received is shorter than its array of 112 bytes, the answer shorter than its array of 768,
-- and what was sent lies in the answer.
pub run-IsBounded : (is : List Input) → All HasFitting is → IsBounded (run is initial)
run-IsBounded is h =
    bounded is initial h (record { rx = omega arith; tx = omega arith; in_answer = omega arith })
