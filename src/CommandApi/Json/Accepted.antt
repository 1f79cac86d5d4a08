-- ===== src/CommandApi/Json/Accepted.antt =====
-- Which texts `command_parse_json` of src/command_api.c accepts.
use epi_pico2w_seringue.Prelude.{
  ℕ, ◌≡◌, ◌≤◌, ◌<◌, ◌≢◌, ◌↔◌, ◌⊎◌, inl, inr, refl, sym, ap, subst, ◌∙◌, true, false, ◌||◌, none,
  some, List, length, All, leb, ◌==◌, Bool-cases, arith,
}
use epi_pico2w_seringue.Float.{Float}
use epi_pico2w_seringue.CString.{bytes, c_string}
use epi_pico2w_seringue.CommandApi.{Command, CommandKind, ConfigParam, no_command}
use epi_pico2w_seringue.CommandApi.Json.{
  kinds, kind_in, number, json_parameter, finish_json, parse_json,
}
use epi_pico2w_seringue.CommandApi.Json.Named.{IsUnnamed, json_parameter-none}
use epi_pico2w_seringue.CommandApi.Json.Kinds.{
  IsAbsent, IsFirst, kind_in-cases, kind_in-none, first-kind_in, none-IsAbsent, kinds-IsReal,
}

abbrev found : (List ℕ → Float) → List ℕ → Command
found strtof b = record no_command {
  kind = kind_in b kinds;
  distance_mm = number strtof b (bytes "distance_mm");
  speed_mm_s = number strtof b (bytes "speed_mm_s");
  retract_mm = number strtof b (bytes "retract_mm");
  value = number strtof b (bytes "value");
}

finish_json-none :
    (b : List ℕ) (c : Command)
    → (finish_json b c ≡ none) ↔ (
        (c.kind ≡ CommandKind.none)
        ⊎ (c.kind ≡ CommandKind.set_config) × (json_parameter b ≡ ConfigParam.none))
unfolding finish_json
finish_json-none b c = ground arith

finish_json-some :
    (b : List ℕ) (c d : Command)
    → finish_json b c ≡ some d
    → (d.kind ≡ c.kind)
      × (d.kind ≢ CommandKind.none)
      × (d.kind ≡ CommandKind.set_config → d.parameter ≢ ConfigParam.none)
unfolding finish_json
finish_json-some b c d h = ground arith

parse_json-bad :
    (strtof : List ℕ → Float) (j : List ℕ)
    → (length j == 0 || leb 512 (length j)) ≡ true
    → parse_json strtof j ≡ none
unfolding parse_json
parse_json-bad strtof j h = rw h refl

parse_json-good :
    (strtof : List ℕ → Float) (j : List ℕ)
    → (length j == 0 || leb 512 (length j)) ≡ false
    → parse_json strtof j ≡ finish_json (c_string j) (found strtof (c_string j))
unfolding parse_json
parse_json-good strtof j h = rw h refl

-- A text that is accepted has from 1 to 511 bytes. Its command is of the kind of the first entry of the
-- table whose name occurs in it, and if it is to set a parameter, it names one.
pub parse_json_accepts :
    (strtof : List ℕ → Float) (j : List ℕ) (c : Command)
    → parse_json strtof j ≡ some c
    → (1 ≤ length j)
      × (length j ≤ 511)
      × IsFirst (c_string j) kinds c.kind
      × (c.kind ≡ CommandKind.set_config → c.parameter ≢ ConfigParam.none)
parse_json_accepts strtof j c h = elim (Bool-cases (length j == 0 || leb 512 (length j))) [
  | inl bad ↦ let refused = parse_json-bad strtof j bad in absurd (ground arith)
  | inr good ↦
      let b = c_string j in
      let (is_kind, real, named) =
        finish_json-some b (found strtof b) c (sym (parse_json-good strtof j good) ∙ h) in
      elim (kind_in-cases b kinds) [
        | inl first ↦
            (ground arith, ground arith, subst (IsFirst b kinds) (sym is_kind) first, named)
        | inr (nothing, absent) ↦ absurd (real (is_kind ∙ nothing))
      ]
]

refuses :
    (strtof : List ℕ → Float) (b : List ℕ)
    → (finish_json b (found strtof b) ≡ none) ↔ (
        All (IsAbsent b) kinds
        ⊎ IsFirst b kinds CommandKind.set_config × (json_parameter b ≡ ConfigParam.none))
refuses strtof b =
    let of_kind = finish_json-none b (found strtof b) in
    (
      λ h. elim (of_kind.0 h) [
        | inl nothing ↦ inl (none-IsAbsent b kinds kinds-IsReal nothing)
        | inr (setting, unnamed) ↦ elim (kind_in-cases b kinds) [
          | inl first ↦ inr (subst (IsFirst b kinds) setting first, unnamed)
          | inr (_, absent) ↦ inl absent
        ]
      ],
      λ h. elim h [
        | inl absent ↦ of_kind.1 (inl (kind_in-none b kinds absent))
        | inr ((earlier, n, later, split, occurs, absent), unnamed) ↦ of_kind.1 (
            inr (
              ap (kind_in b) split
                  ∙ first-kind_in b earlier n CommandKind.set_config later occurs absent,
              unnamed,
            ))
      ],
    )

-- A text is refused exactly when it has no byte or more than 511, no name of the table occurs in it, or
-- the first one that does is set_config and the text names no parameter: the word behind the first
-- colon after the first key "parameter" is the name of no setting, or there is none.
pub parse_json_refuses_iff :
    (strtof : List ℕ → Float) (j : List ℕ)
    → (parse_json strtof j ≡ none) ↔ (
        (length j ≡ 0)
        ⊎ (511 < length j)
        ⊎ All (IsAbsent (c_string j)) kinds
        ⊎ IsFirst (c_string j) kinds CommandKind.set_config × IsUnnamed (c_string j))
parse_json_refuses_iff strtof j = elim (Bool-cases (length j == 0 || leb 512 (length j))) [
  | inl bad ↦ (
    λ h. elim (Bool-cases (length j == 0)) [
      | inl empty ↦ inl (ground arith)
      | inr full ↦ inr (inl (ground arith))
    ],
    λ h. parse_json-bad strtof j bad,
  )
  | inr good ↦
      let same_test = parse_json-good strtof j good in
      let inside = refuses strtof (c_string j) in
      let unnamed = json_parameter-none (c_string j) in
      (
        λ h. inr (
            inr (elim (inside.0 (sym same_test ∙ h)) [
              | inl absent ↦ inl absent
              | inr (first, missing) ↦ inr (first, unnamed.0 missing)
            ])),
        λ h. elim h [
          | inl empty ↦ absurd (ground arith)
          | inr (inl long) ↦ absurd (ground arith)
          | inr (inr (inl absent)) ↦ same_test ∙ inside.1 (inl absent)
          | inr (inr (inr (first, missing))) ↦ same_test ∙ inside.1 (inr (first, unnamed.1 missing))
        ],
      )
]
