-- ===== src/BleService/Transmit.antt =====
-- How src/ble_service.c sends an answer in parts.
use epi_pico2w_seringue.Prelude.{ℕ, ◌+◌, ◌-◌, ◌%◌, ◌≡◌, ◌≤◌, ◌<◌, length, ltb, if◌then◌else◌, arith}
use epi_pico2w_seringue.BleService.{Service, tx_size, chunk_size}

part : ℕ → ℕ → ℕ
part mtu left =
    let chunk = if ltb 3 mtu then mtu - 3 else 20 in if ltb left chunk then left else chunk

part-le : (mtu left : ℕ) → part mtu left ≤ left
unfolding part
part-le mtu left = ground arith

part-positive : (mtu left : ℕ) → 1 ≤ left → 1 ≤ part mtu left
unfolding part
part-positive mtu left h = ground arith

left_lem : (l o : ℕ) → o ≤ l → l < tx_size → (l + 65536 - o) % 65536 ≡ l - o
left_lem l o h k = omega arith

pub chunk_size-le :
    (mtu : ℕ) (s : Service)
    → s.uart_tx_offset ≤ length s.uart_tx
    → length s.uart_tx < tx_size
    → chunk_size mtu s ≤ length s.uart_tx - s.uart_tx_offset
unfolding part
chunk_size-le mtu s h k =
    rw (left_lem (length s.uart_tx) s.uart_tx_offset h k)
      (part-le mtu (length s.uart_tx - s.uart_tx_offset))

pub chunk_size-positive :
    (mtu : ℕ) (s : Service)
    → s.uart_tx_offset < length s.uart_tx
    → length s.uart_tx < tx_size
    → 1 ≤ chunk_size mtu s
unfolding part
chunk_size-positive mtu s h k =
    rw (left_lem (length s.uart_tx) s.uart_tx_offset (omega arith) k)
      (part-positive mtu (length s.uart_tx - s.uart_tx_offset) (omega arith))

-- the offset behind the next part
pub next_offset :
    (mtu : ℕ) (s : Service)
    → s.uart_tx_offset ≤ length s.uart_tx
    → length s.uart_tx < tx_size
    → (s.uart_tx_offset + chunk_size mtu s) % 65536 ≡ s.uart_tx_offset + chunk_size mtu s
next_offset mtu s h k = omega (arith, chunk_size-le mtu s h k)
