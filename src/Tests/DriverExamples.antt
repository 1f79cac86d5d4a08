-- ===== src/Tests/DriverExamples.antt =====
-- The theorems on src/tmc5130.c and src/motor_control.c at concrete inputs.
use epi_pico2w_seringue.TmcCurrent.Nearest.{IsNear, validate-IsNear}
use epi_pico2w_seringue.Prelude.{ℕ, ◌≡◌, ◌⊎◌, refl, true, false, not, ◌==◌, List, [], ◌∷◌, arith}
use epi_pico2w_seringue.Board.{Board, Act}
use epi_pico2w_seringue.DeviceConfig.{defaults}
use epi_pico2w_seringue.Tmc5130.{read, tx_frame, rx_word}
use epi_pico2w_seringue.Tmc5130.Frames.{framed, IsPipelined, read-IsPipelined}
use epi_pico2w_seringue.Tmc5130.Writes.{Sends, set_ramp-Sends}
use epi_pico2w_seringue.Tmc5130.Reg
use epi_pico2w_seringue.Tmc5130.{set_ramp}
use epi_pico2w_seringue.Tests.Data.{silent}
use epi_pico2w_seringue.Tests.Host.{defaults_valid, motor}
use epi_pico2w_seringue.Float.{binary32, of_ℕ, decimal}
use epi_pico2w_seringue.Motor.{move_relative}
use epi_pico2w_seringue.Motor.Moves.{is_valid, read_board, motion, move_relative-Sends}

-- a chip whose registers all hold 7
abbrev sevens : List Act → ℕ → ℕ
sevens log a = 7

abbrev chip : Board
chip = record (silent 0) { answer = λ log. record { b0 = 1; b1 = 0; b2 = 0; b3 = 0; b4 = 7 } }

chip-IsPipelined : IsPipelined sevens chip
unfolding rx_word
chip-IsPipelined = record { answers = λ a f log h. refl }

read-IsPipelined_example :
    let (r, b') = read 0x21 chip in
    (r.value ≡ 7)
    × (b'.log ≡ framed (tx_frame 0x21 0 false) (framed (tx_frame 0x21 0 false) []))
    × (r.ok ≡ not (r.status == 0xff))
read-IsPipelined_example = read-IsPipelined sevens chip 0x21 chip-IsPipelined (omega arith)

validate-IsNear_example :
    IsNear defaults.motor_run_current_ma × IsNear defaults.motor_hold_current_ma
validate-IsNear_example = validate-IsNear defaults defaults_valid

-- 2.5 mm from the position 7, at the default mechanics
move_relative-Sends_example :
    ((is_valid sevens chip ≡ false)
      × (move_relative motor (decimal binary32 5 2) (of_ℕ binary32 5) chip
          ≡ (false, read_board sevens chip)))
    ⊎ ((is_valid sevens chip ≡ true)
        × Sends
            (motion sevens chip motor (decimal binary32 5 2) (of_ℕ binary32 5))
            (read_board sevens chip)
            (move_relative motor (decimal binary32 5 2) (of_ℕ binary32 5) chip))
move_relative-Sends_example =
    move_relative-Sends sevens chip motor (decimal binary32 5 2) (of_ℕ binary32 5) chip-IsPipelined
      (omega arith)

set_ramp-Sends_example :
    Sends
      ((Reg.vstart, 1)
        ∷ (Reg.a1, 11)
        ∷ (Reg.v1, 10)
        ∷ (Reg.amax, 12)
        ∷ (Reg.vmax, 40)
        ∷ (Reg.dmax, 13)
        ∷ (Reg.d1, 14)
        ∷ (Reg.vstop, 10)
        ∷ [])
      chip
      (set_ramp 40 11 12 13 14 chip)
set_ramp-Sends_example = set_ramp-Sends 40 11 12 13 14 chip
