-- ===== src/CommandApi/Json.antt =====
-- `command_parse_json` of src/command_api.c, with its helper `number`. `strtof` is the function of the C
-- library, at a string of which it reads the number at the beginning.
pub mod Kinds
pub mod Word
pub mod Named
pub mod Accepted
use epi_pico2w_seringue.Prelude.{
  ℕ, zero, suc, Bool, true, false, ◌||◌, Option, none, some, List, [], ◌∷◌, length, leb, ◌==◌,
  if◌then◌else◌,
}
use epi_pico2w_seringue.Float.{Float, fin}
use epi_pico2w_seringue.CString.{bytes, c_string, strstr, strchr}
use epi_pico2w_seringue.CommandApi.{Command, CommandKind, ConfigParam, no_command}
use epi_pico2w_seringue.CommandApi.Names.{parameter}

-- the table of `command_parse_json`
abbrev pub kinds : List (List ℕ × CommandKind)
kinds =
    (bytes "push_start", CommandKind.push_start)
    ∷ (bytes "push_stop", CommandKind.push_stop)
    ∷ (bytes "pull_start", CommandKind.pull_start)
    ∷ (bytes "pull_stop", CommandKind.pull_stop)
    ∷ (bytes "stop", CommandKind.stop)
    ∷ (bytes "set_trigger_dose", CommandKind.set_trigger_dose)
    ∷ (bytes "set_config", CommandKind.set_config)
    ∷ (bytes "flush_statistics", CommandKind.flush_statistics)
    ∷ (bytes "unload_syringe", CommandKind.unload_syringe)
    ∷ (bytes "dose", CommandKind.dose)
    ∷ (bytes "move_relative", CommandKind.move_relative)
    ∷ (bytes "set_zero", CommandKind.set_zero)
    ∷ (bytes "reboot", CommandKind.reboot)
    ∷ (bytes "reset", CommandKind.reset)
    ∷ (bytes "sg_calibrate_start", CommandKind.sg_cal_start)
    ∷ (bytes "sg_calibrate_finish", CommandKind.sg_cal_finish)
    ∷ (bytes "sg_calibrate_cancel", CommandKind.sg_cal_cancel)
    ∷ []

-- the loop over the table
unfoldable pub kind_in : List ℕ → List (List ℕ × CommandKind) → CommandKind
unfolding strstr
kind_in b [] = CommandKind.none
kind_in b ((n, k) ∷ ks) = let rest = kind_in b ks in elim (strstr b n) [ none ↦ rest | some _ ↦ k ]

-- behind the colon: `p?strtof(p+1,0):0`
number_behind : (List ℕ → Float) → Option (List ℕ) → Float
number_behind strtof (some (_ ∷ rest)) = strtof rest
number_behind strtof _ = fin false 0

number_from : (List ℕ → Float) → Option (List ℕ) → Float
unfolding number_behind
number_from strtof none = fin false 0
number_from strtof (some p) = number_behind strtof (strchr p b':')

-- `number`
unfoldable pub number : (List ℕ → Float) → List ℕ → List ℕ → Float
unfolding number_from
number strtof s k = number_from strtof (strstr s k)

-- `while(*++k&&(*k==' '||*k=='\"'))`, from the byte behind the colon on
unfoldable pub skip_quotes : List ℕ → List ℕ
skip_quotes [] = []
skip_quotes (c ∷ cs) = let rest = skip_quotes cs in if c == b' ' || c == b'"' then rest else c ∷ cs

-- the loop that fills `name`, which has room for `n` more bytes and the closing zero
unfoldable pub take_name : ℕ → List ℕ → List ℕ
take_name zero s = []
take_name (suc n) [] = []
take_name (suc n) (c ∷ cs) =
    let rest = take_name n cs in if c == b'"' || c == b',' then [] else c ∷ rest

-- `o->parameter`, from the place of "parameter" on; none where the code returns false
parameter_behind : Option (List ℕ) → ConfigParam
unfolding skip_quotes take_name parameter
parameter_behind (some (_ ∷ rest)) = parameter (take_name 39 (skip_quotes rest))
parameter_behind _ = ConfigParam.none

parameter_from : Option (List ℕ) → ConfigParam
unfolding parameter_behind
parameter_from none = ConfigParam.none
parameter_from (some k) = parameter_behind (strchr k b':')

-- the parameter of CMD_SET_CONFIG
unfoldable pub json_parameter : List ℕ → ConfigParam
unfolding parameter_from
json_parameter b = parameter_from (strstr b (bytes "\"parameter\""))

abbrev pub with_parameter : Command → ConfigParam → Option Command
with_parameter c ConfigParam.none = none
with_parameter c p = some (record c { parameter = p })

unfoldable pub finish_json : List ℕ → Command → Option Command
unfolding json_parameter
finish_json b c = elim c.kind [
  | CommandKind.none ↦ none
  | CommandKind.set_config ↦ with_parameter c (json_parameter b)
  | _ ↦ some c
]

-- `command_parse_json`: none for false
unfoldable pub parse_json : (List ℕ → Float) → List ℕ → Option Command
unfolding kind_in number finish_json c_string
parse_json strtof j =
    if length j == 0 || leb 512 (length j)
    then none
    else (let b = c_string j in
        finish_json b (record no_command {
          kind = kind_in b kinds;
          distance_mm = number strtof b (bytes "distance_mm");
          speed_mm_s = number strtof b (bytes "speed_mm_s");
          retract_mm = number strtof b (bytes "retract_mm");
          value = number strtof b (bytes "value");
        }))
