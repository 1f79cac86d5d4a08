-- ===== src/BleService/Receive.antt =====
-- What a write to the RX characteristic does in src/ble_service.c, branch by branch.
use epi_pico2w_seringue.Prelude.{
  ℕ, ◌+◌, ◌≡◌, refl, Bool, true, false, ◌||◌, List, [], ◌++◌, length, leb, ◌==◌, Bool-cases, inl,
  inr,
}
use epi_pico2w_seringue.CString.{bytes}
use epi_pico2w_seringue.BleService.{
  Client, Service, ok, invalid_length, rx_size, call, timer_restart, uart_reply, uart_command,
  ends_line, receive,
}

-- the test on the length of a part
abbrev pub is_too_long : List ℕ → Service → Bool
is_too_long buffer s = length buffer == 0 || leb rx_size (length s.uart_rx + length buffer)

-- the bytes received, with a part
abbrev pub with_part : List ℕ → Service → Service
with_part buffer s = record (call timer_restart s) { uart_rx = s.uart_rx ++ buffer }

pub receive-too_long :
    (client : Client) (buffer : List ℕ) (s : Service)
    → is_too_long buffer s ≡ true
    → receive client buffer s ≡ (
      invalid_length,
      uart_reply (bytes "ERR TOO_LONG\n") (record (call timer_restart s) { uart_rx = [] }),
    )
unfolding receive
receive-too_long client buffer s h = rw h refl

pub receive-part :
    (client : Client) (buffer : List ℕ) (s : Service)
    → is_too_long buffer s ≡ false
    → ends_line (s.uart_rx ++ buffer) ≡ false
    → receive client buffer s ≡ (ok, with_part buffer s)
unfolding receive
receive-part client buffer s h e = rw (h, e) refl

pub receive-line :
    (client : Client) (buffer : List ℕ) (s : Service)
    → is_too_long buffer s ≡ false
    → ends_line (s.uart_rx ++ buffer) ≡ true
    → let done = uart_command client (s.uart_rx ++ buffer) (with_part buffer s) in
      receive client buffer s ≡ (done.0, record done.1 { uart_rx = [] })
unfolding receive
receive-line client buffer s h e = rw (h, e) refl

-- what holds after each branch
pub receive_either :
    (P : Service → Type 0) (client : Client) (buffer : List ℕ) (s : Service)
    → P (uart_reply (bytes "ERR TOO_LONG\n") (record (call timer_restart s) { uart_rx = [] }))
    → P (record (uart_command client (s.uart_rx ++ buffer) (with_part buffer s)).1 { uart_rx = [] })
    → P (with_part buffer s)
    → P (receive client buffer s).1
receive_either P client buffer s long line more = elim (Bool-cases (is_too_long buffer s)) [
  | inl bad ↦ rw (receive-too_long client buffer s bad) long
  | inr good ↦ elim (Bool-cases (ends_line (s.uart_rx ++ buffer))) [
    | inl ends ↦ rw (receive-line client buffer s good ends) line
    | inr goes_on ↦ rw (receive-part client buffer s good goes_on) more
  ]
]
