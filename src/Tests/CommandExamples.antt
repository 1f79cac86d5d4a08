-- ===== src/Tests/CommandExamples.antt =====
-- The theorems on the command languages of src/command_api.c and on the queries at concrete inputs.
use epi_pico2w_seringue.Prelude.{
  ℕ, ◌≡◌, ◌≤◌, ◌<◌, ◌↔◌, ◌⊎◌, refl, List, [], ◌∷◌, map, length, All, none, some, arith,
}
use epi_pico2w_seringue.CString.{bytes, c_string, upper}
use epi_pico2w_seringue.CString.Words.{words}
use epi_pico2w_seringue.CommandApi.{CommandKind}
use epi_pico2w_seringue.CommandApi.Ascii.{parse_ascii, zero_f}
use epi_pico2w_seringue.CommandApi.Ascii.Grammar.{Means, move, move_command}
use epi_pico2w_seringue.CommandApi.Ascii.Meaning.{parse_ascii_iff}
use epi_pico2w_seringue.CommandApi.Ascii.Lines.{join, IsWord, parse_ascii-join}
use epi_pico2w_seringue.CommandApi.Json.{kinds, parse_json}
use epi_pico2w_seringue.CommandApi.Json.Kinds.{IsAbsent, IsFirst}
use epi_pico2w_seringue.CommandApi.Json.Named.{IsUnnamed}
use epi_pico2w_seringue.CommandApi.Json.Accepted.{parse_json_refuses_iff}
use epi_pico2w_seringue.Query.{format_query, cut, version_text}
use epi_pico2w_seringue.Query.Answers.{parse_ascii-format_query}
use epi_pico2w_seringue.Tests.Lines.{whole, zero_text, facts}

parse_ascii_iff_example :
    (parse_ascii whole (bytes "move 3") ≡ some (move_command (whole (bytes "3")) zero_f)) ↔ (
      (1 ≤ length (bytes "move 3"))
      × (length (bytes "move 3") ≤ 159)
      × Means whole
          (words (c_string (map upper (bytes "move 3"))))
          (move_command (whole (bytes "3")) zero_f))
parse_ascii_iff_example =
    parse_ascii_iff whole (bytes "move 3") (move_command (whole (bytes "3")) zero_f)

move_three : List (List ℕ)
move_three = bytes "MOVE" ∷ bytes "3" ∷ []

move_three-IsWord : All IsWord move_three
unfolding move_three bytes upper
move_three-IsWord = ground arith

parse_ascii-join_example :
    parse_ascii whole (join move_three) ≡ some (move_command (whole (bytes "3")) zero_f)
unfolding move_three join bytes
parse_ascii-join_example =
    parse_ascii-join whole move_three (move_command (whole (bytes "3")) zero_f) move_three-IsWord
      (move (bytes "3")) (omega arith) (omega arith)

-- a parameter that there is not
abbrev unknown : List ℕ
unknown = b'{' ∷ (bytes "\"set_config\",\"parameter\":\"colour\"}")

parse_json_refuses_iff_example : (parse_json whole unknown ≡ none) ↔ (
    (length unknown ≡ 0)
    ⊎ (511 < length unknown)
    ⊎ All (IsAbsent (c_string unknown)) kinds
    ⊎ IsFirst (c_string unknown) kinds CommandKind.set_config × IsUnnamed (c_string unknown))
parse_json_refuses_iff_example = parse_json_refuses_iff whole unknown

parse_ascii-format_query_example : parse_ascii whole (bytes "version") ≡ none
unfolding format_query c_string bytes
parse_ascii-format_query_example =
    parse_ascii-format_query zero_text facts 768 whole (bytes "version") (cut 768 version_text) refl
