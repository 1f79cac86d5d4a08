-- ===== src/CommandApi/Ascii.antt =====
-- `command_parse_ascii` of src/command_api.c. The pointers that it tests are those of its callers and
-- are never null; what it leaves in `*out` when it fails is not read by any of them. `strtof` is the
-- function of the C library, at a string of which it reads the number at the beginning.
pub mod Grammar
pub mod Branches
pub mod Meaning
pub mod Lines
use epi_pico2w_seringue.Prelude.{
  ℕ, Bool, true, false, ◌&&◌, ◌||◌, Option, none, some, List, [], ◌∷◌, map, length, leb, ◌==◌,
  if◌then◌else◌,
}
use epi_pico2w_seringue.Float.{Float, fin, binary32, of_ℕ, neg, lef}
use epi_pico2w_seringue.CString.{bytes, c_string, upper, lower, same, strtok}
use epi_pico2w_seringue.CommandApi.{Command, CommandKind, ConfigParam, no_command}
use epi_pico2w_seringue.CommandApi.Names.{parameter}

-- a command with nothing but its kind
abbrev pub plain : CommandKind → Command
plain k = record no_command { kind = k }

abbrev given : Option (List ℕ) → Bool
given none = false
given (some _) = true

-- `v?strtof(v,NULL):d`
abbrev pub value_or : (List ℕ → Float) → Float → Option (List ℕ) → Float
value_or strtof d none = d
value_or strtof d (some v) = strtof v

abbrev pub zero_f : Float
zero_f = fin false 0

-- `-1.0f`
abbrev pub minus_one : Float
minus_one = neg (of_ℕ binary32 1)

-- DOSE, at the words that follow
unfoldable pub dose_at :
    (List ℕ → Float) → Option (List ℕ) → Option (List ℕ) → Option (List ℕ) → Option Command
unfolding lef
dose_at strtof v s r =
    let distance = value_or strtof zero_f v in
    if given v && lef distance zero_f
    then none
    else some (record no_command {
      kind = CommandKind.dose;
      distance_mm = distance;
      speed_mm_s = value_or strtof zero_f s;
      retract_mm = value_or strtof minus_one r;
    })

-- MOVE
unfoldable pub move_at : (List ℕ → Float) → Option (List ℕ) → Option (List ℕ) → Option Command
move_at strtof none s = none
move_at strtof (some v) s = some (record no_command {
  kind = CommandKind.move_relative;
  distance_mm = strtof v;
  speed_mm_s = value_or strtof zero_f s;
})

-- SGCAL
unfoldable pub sgcal_at : Option (List ℕ) → Option Command
unfolding same bytes
sgcal_at none = none
sgcal_at (some v) =
    if same v (bytes "START")
    then some (plain CommandKind.sg_cal_start)
    else if same v (bytes "FINISH")
    then some (plain CommandKind.sg_cal_finish)
    else if same v (bytes "CANCEL")
    then some (plain CommandKind.sg_cal_cancel)
    else none

-- `out->parameter==CFG_NONE?CMD_NONE:CMD_SET_CONFIG`
abbrev pub set_kind : ConfigParam → CommandKind
set_kind ConfigParam.none = CommandKind.none
set_kind _ = CommandKind.set_config

-- SET
unfoldable pub set_at : (List ℕ → Float) → Option (List ℕ) → Option (List ℕ) → Option Command
unfolding lower parameter
set_at strtof (some n) (some v) =
    let p = parameter (map lower n) in
    some (record no_command { kind = set_kind p; parameter = p; value = strtof v })
set_at strtof _ _ = none

-- UNLOAD
unfoldable pub unload_at : (List ℕ → Float) → Option (List ℕ) → Option Command
unload_at strtof v =
    some (record no_command {
      kind = CommandKind.unload_syringe;
      speed_mm_s = value_or strtof zero_f v;
    })

-- what a branch does with the next three words, as far as they are there
abbrev pub Branch : Type 0
Branch = Option (List ℕ) → Option (List ℕ) → Option (List ℕ) → Option Command

abbrev pub just : CommandKind → Branch
just k v s r = some (plain k)

-- the comparisons with the first word, in the order of the code, with their branches
unfoldable pub branches : (List ℕ → Float) → List (List ℕ × Branch)
unfolding bytes dose_at move_at unload_at sgcal_at set_at
branches strtof =
    (bytes "PUSH", just CommandKind.push_start)
    ∷ (bytes "PULL", just CommandKind.pull_start)
    ∷ (bytes "STOP", just CommandKind.stop)
    ∷ (bytes "ZERO", just CommandKind.set_zero)
    ∷ (bytes "RESET", just CommandKind.reboot)
    ∷ (bytes "BOOTSEL", just CommandKind.bootsel)
    ∷ (bytes "FAULTRESET", just CommandKind.reset)
    ∷ (bytes "FLUSH", just CommandKind.flush_statistics)
    ∷ (bytes "DOSE", dose_at strtof)
    ∷ (bytes "MOVE", λ v s r. move_at strtof v s)
    ∷ (bytes "UNLOAD", λ v s r. unload_at strtof v)
    ∷ (bytes "SGCAL", λ v s r. sgcal_at v)
    ∷ (bytes "SET", λ n v r. set_at strtof n v)
    ∷ []

-- the chain of `if(!strcmp(cmd,...))...else if...`; a command of kind none at its end
unfoldable pub choose :
    List ℕ
    → List (List ℕ × Branch)
    → Option (List ℕ)
    → Option (List ℕ)
    → Option (List ℕ)
    → Option Command
unfolding same
choose cmd [] v s r = some no_command
choose cmd ((n, f) ∷ bs) v s r =
    let rest = choose cmd bs v s r in if same cmd n then f v s r else rest

-- the branch of the first word; `save` is what `strtok_r` left behind that word
unfoldable pub verb : (List ℕ → Float) → List ℕ → List ℕ → Option Command
unfolding strtok branches choose
verb strtof cmd save =
    let (v, save1) = strtok save in
    let (s, save2) = strtok save1 in let (r, _) = strtok save2 in choose cmd (branches strtof) v s r

-- `return out->kind!=CMD_NONE`
unfoldable pub with_kind : Option Command → Option Command
with_kind none = none
with_kind (some c) = elim c.kind [ CommandKind.none ↦ none | _ ↦ some c ]

-- from the first call of `strtok_r` on
unfoldable pub parse_words : (List ℕ → Float) → Option (List ℕ) × List ℕ → Option Command
unfolding with_kind verb
parse_words strtof (none, save) = none
parse_words strtof (some cmd, save) = with_kind (verb strtof cmd save)

-- `command_parse_ascii`: none for false
unfoldable pub parse_ascii : (List ℕ → Float) → List ℕ → Option Command
unfolding parse_words strtok c_string upper
parse_ascii strtof line =
    if length line == 0 || leb 160 (length line)
    then none
    else parse_words strtof (strtok (c_string (map upper line)))
