-- ===== src/App/Typed/Runs.antt =====
-- The settings of src/app_tasks.c from the start of the firmware on have values of their C types.
use epi_pico2w_seringue.Prelude.{All}
use epi_pico2w_seringue.Board.{Board}
use epi_pico2w_seringue.Buttons
use epi_pico2w_seringue.Motor
use epi_pico2w_seringue.Safety
use epi_pico2w_seringue.Safety.{Inputs}
use epi_pico2w_seringue.App.{App}
use epi_pico2w_seringue.App.Tick.{Period}
use epi_pico2w_seringue.App.Typed.{IsTypedCommand}

-- the commands of a period
abbrev pub BringsTyped : Period → Type 0
BringsTyped x = All IsTypedCommand x.commands
