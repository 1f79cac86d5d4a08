-- ===== src/CommandApi/Ascii/Grammar.antt =====
-- The command language of src/command_api.c: which commands the words of a line stand for.
use epi_pico2w_seringue.Prelude.{ℕ, ◌≡◌, ◌≢◌, false, List, [], ◌∷◌, map}
use epi_pico2w_seringue.Float.{Float, lef}
use epi_pico2w_seringue.CString.{bytes, lower}
use epi_pico2w_seringue.CommandApi.{Command, CommandKind, ConfigParam, no_command}
use epi_pico2w_seringue.CommandApi.Names.{parameter}
use epi_pico2w_seringue.CommandApi.Ascii.{plain, zero_f, minus_one}

abbrev pub dose_command : Float → Float → Float → Command
dose_command d s r = record no_command {
  kind = CommandKind.dose;
  distance_mm = d;
  speed_mm_s = s;
  retract_mm = r;
}

abbrev pub move_command : Float → Float → Command
move_command d s = record no_command {
  kind = CommandKind.move_relative;
  distance_mm = d;
  speed_mm_s = s;
}

abbrev pub unload_command : Float → Command
unload_command s = record no_command { kind = CommandKind.unload_syringe; speed_mm_s = s }

abbrev pub set_command : ConfigParam → Float → Command
set_command p v = record no_command { kind = CommandKind.set_config; parameter = p; value = v }

-- the words of a line, in capitals, and the command that they stand for
pub data Means (number : List ℕ → Float) : List (List ℕ) → Command → Type 0 where
  push : (ws : List (List ℕ)) → Means number (bytes "PUSH" ∷ ws) (plain CommandKind.push_start)
  pull : (ws : List (List ℕ)) → Means number (bytes "PULL" ∷ ws) (plain CommandKind.pull_start)
  stop : (ws : List (List ℕ)) → Means number (bytes "STOP" ∷ ws) (plain CommandKind.stop)
  set_zero : (ws : List (List ℕ)) → Means number (bytes "ZERO" ∷ ws) (plain CommandKind.set_zero)
  restart : (ws : List (List ℕ)) → Means number (bytes "RESET" ∷ ws) (plain CommandKind.reboot)
  bootsel : (ws : List (List ℕ)) → Means number (bytes "BOOTSEL" ∷ ws) (plain CommandKind.bootsel)
  reset : (ws : List (List ℕ)) → Means number (bytes "FAULTRESET" ∷ ws) (plain CommandKind.reset)
  flush :
      (ws : List (List ℕ)) → Means number (bytes "FLUSH" ∷ ws) (plain CommandKind.flush_statistics)
  dose : Means number (bytes "DOSE" ∷ []) (dose_command zero_f zero_f minus_one)
  dose_by :
      (d : List ℕ)
      → lef (number d) zero_f ≡ false
      → Means number (bytes "DOSE" ∷ d ∷ []) (dose_command (number d) zero_f minus_one)
  dose_at_speed :
      (d s : List ℕ)
      → lef (number d) zero_f ≡ false
      → Means number (bytes "DOSE" ∷ d ∷ s ∷ []) (dose_command (number d) (number s) minus_one)
  dose_and_retract :
      (d s r : List ℕ) (ws : List (List ℕ))
      → lef (number d) zero_f ≡ false
      → Means number (bytes "DOSE" ∷ d ∷ s ∷ r ∷ ws) (dose_command (number d) (number s) (number r))
  move : (d : List ℕ) → Means number (bytes "MOVE" ∷ d ∷ []) (move_command (number d) zero_f)
  move_at_speed :
      (d s : List ℕ) (ws : List (List ℕ))
      → Means number (bytes "MOVE" ∷ d ∷ s ∷ ws) (move_command (number d) (number s))
  unload : Means number (bytes "UNLOAD" ∷ []) (unload_command zero_f)
  unload_at_speed :
      (s : List ℕ) (ws : List (List ℕ))
      → Means number (bytes "UNLOAD" ∷ s ∷ ws) (unload_command (number s))
  calibration_start :
      (ws : List (List ℕ))
      → Means number (bytes "SGCAL" ∷ bytes "START" ∷ ws) (plain CommandKind.sg_cal_start)
  calibration_finish :
      (ws : List (List ℕ))
      → Means number (bytes "SGCAL" ∷ bytes "FINISH" ∷ ws) (plain CommandKind.sg_cal_finish)
  calibration_cancel :
      (ws : List (List ℕ))
      → Means number (bytes "SGCAL" ∷ bytes "CANCEL" ∷ ws) (plain CommandKind.sg_cal_cancel)
  set :
      (n v : List ℕ) (ws : List (List ℕ))
      → parameter (map lower n) ≢ ConfigParam.none
      → Means number (bytes "SET" ∷ n ∷ v ∷ ws) (set_command (parameter (map lower n)) (number v))
