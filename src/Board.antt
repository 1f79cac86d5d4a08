-- ===== src/Board.antt =====
-- What the firmware does to the microcontroller, as a log of actions, and what the devices answer.
-- The Pico SDK, the driver chip and the wiring are not part of the repository: a device's answer is
-- an arbitrary function of everything that was done before, and theorems hold for every such one.
use epi_pico2w_seringue.Prelude.{ℕ, Bool, true, false, List, ◌∷◌, if◌then◌else◌}

-- the five bytes of an SPI datagram
pub record Frame : Type 0 where
  pub b0 : ℕ
  pub b1 : ℕ
  pub b2 : ℕ
  pub b3 : ℕ
  pub b4 : ℕ

-- the calls of the SDK: pins by their number
pub data Act : Type 0 where
  spi_init : ℕ → Act
  pin_function_spi : ℕ → Act
  pin_init : ℕ → Act
  pin_output : ℕ → Act
  pin_input : ℕ → Act
  pin_pull_up : ℕ → Act
  pin_put : ℕ → Bool → Act
  spi_exchange : Frame → Act
  flash_attempt : Act
  flash_range_erase : ℕ → ℕ → Act
  flash_range_program : ℕ → List ℕ → Act
  task_delay : ℕ → Act
  stdio_flush : Act
  watchdog_reboot : ℕ → Act
  reset_usb_boot : Act
  led_init : Act
  led_put : Bool → Act

-- What `flash_safe_execute` does: it runs the function and returns PICO_OK, runs it and returns an
-- error, or returns an error only.
pub data Grant : Type 0 where
  granted late refused : Grant

-- `log`: newest first; `answer`: what the SPI bus returns to the last exchange of a log; `grant`: how
-- the last flash attempt of a log goes; `flash`: the byte at an offset of the flash after a log
pub record Board : Type 0 where
  pub log : List Act
  pub answer : List Act → Frame
  pub grant : List Act → Grant
  pub flash : List Act → ℕ → ℕ

-- an operation on the hardware
abbrev pub M : Type 0 → Type 0
M A = Board → A × Board

infixl 5 ◌>>=◌ ◌>>◌
abbrev pub ◌>>=◌ : {A B : Type 0} → M A → (A → M B) → M B
◌>>=◌ m f b = let (a, b') = m b in f a b'

abbrev pub ◌>>◌ : {B : Type 0} → M (Unit {0}) → M B → M B
m >> k = m >>= λ _. k

abbrev pub pure : {A : Type 0} → A → M A
pure a b = (a, b)

-- C's `m&&n` on calls: the second is made only where the first returns true
abbrev pub and_then : M Bool → M Bool → M Bool
and_then m n = m >>= λ ok. if ok then n else pure false

unfoldable pub perform : Act → M (Unit {0})
perform a b = (tt, record b { log = a ∷ b.log })

-- `spi_write_read_blocking` of five bytes
unfoldable pub exchange : Frame → M Frame
exchange f b = let log' = spi_exchange f ∷ b.log in (b.answer log', record b { log = log' })

unfoldable pub granted_run : Grant → M (Unit {0}) → M Bool
granted_run granted f = f >> pure true
granted_run late f = f >> pure false
granted_run refused f = pure false

-- `flash_safe_execute(f, arg, timeout)==PICO_OK`
unfoldable pub flash_safe_execute : M (Unit {0}) → M Bool
unfolding perform granted_run
flash_safe_execute f b =
    let asked : Board = record b { log = flash_attempt ∷ b.log } in
    granted_run (b.grant asked.log) f asked
