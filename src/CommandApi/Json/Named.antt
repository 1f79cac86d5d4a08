-- ===== src/CommandApi/Json/Named.antt =====
-- Which parameter a JSON text names for `command_parse_json` of src/command_api.c, as a description of
-- the text.
use epi_pico2w_seringue.Prelude.{
  ℕ, ◌≡◌, ◌≢◌, ◌≤◌, ◌↔◌, ◌⊎◌, inl, inr, refl, sym, ap, subst, ◌∙◌, none, some, List, ◌∷◌, ◌++◌, map,
  length, Option-cases, arith,
}
use epi_pico2w_seringue.CString.{bytes, lower, strstr, strchr}
use epi_pico2w_seringue.CString.First.{strstr_first, first-strstr}
use epi_pico2w_seringue.CommandApi.Json.Word.{
  Follows, StartsNot, is_skipped, strchr-gap, strchr_finds, skip_quotes-append, skip_quotes_splits,
  take_name-append, take_name_splits,
}
use epi_pico2w_seringue.CommandApi.{ConfigParam}
use epi_pico2w_seringue.CommandApi.Names.{name, parameter, parameter_iff}
use epi_pico2w_seringue.CommandApi.Json.{
  skip_quotes, take_name, json_parameter, parameter_from, parameter_behind,
}

-- the key of the parameter
abbrev pub key : List ℕ
key = bytes "\"parameter\""

-- The text names the parameter: the word that follows the first occurrence of the key is the name of its
-- setting, in any letters.
pub record NamesParameter (b : List ℕ) (p : ConfigParam) : Type 0 where
  pub before : List ℕ
  pub after : List ℕ
  pub word : List ℕ
  pub split : b ≡ before ++ (key ++ after)
  pub first :
      (before' after' : List ℕ) → b ≡ before' ++ (key ++ after') → length before ≤ length before'
  pub follows : Follows after word
  pub real : p ≢ ConfigParam.none
  pub named : map lower word ≡ map lower (name p)

-- where the key occurs first, what follows it decides
json_parameter-Follows :
    (b t word : List ℕ)
    → strstr b key ≡ some (key ++ t)
    → Follows t word
    → json_parameter b ≡ parameter word
unfolding json_parameter parameter_from parameter_behind strchr bytes
json_parameter-Follows b t word found f =
    let colon : strchr t b':' ≡ some (b':' ∷ (f.skipped ++ (word ++ f.rest))) =
      ap (λ t. strchr t b':') f.split
      ∙ strchr-gap f.gap (f.skipped ++ (word ++ f.rest)) f.no_colon in
    rw
      (
        found,
        colon,
        skip_quotes-append f.skipped (word ++ f.rest) f.blank f.begins,
        take_name-append 39 word f.rest f.inside f.ends,
      )
      refl

NamesParameter-json_parameter :
    (b : List ℕ) (p : ConfigParam) → NamesParameter b p → json_parameter b ≡ p
NamesParameter-json_parameter b p h =
    let found : strstr b key ≡ some (key ++ h.after) =
      ap (λ s. strstr s key) h.split
      ∙ first-strstr h.before key h.after
          (λ before' after' e. h.first before' after' (h.split ∙ e)) in
    json_parameter-Follows b h.after h.word found h.follows
    ∙ (parameter_iff h.word p h.real).1 h.named

no_key : (b : List ℕ) → strstr b key ≡ none → json_parameter b ≡ ConfigParam.none
unfolding json_parameter parameter_from
no_key b h = rw h refl

no_colon_behind :
    (b t : List ℕ)
    → strstr b key ≡ some (key ++ t)
    → strchr t b':' ≡ none
    → json_parameter b ≡ ConfigParam.none
unfolding json_parameter parameter_from parameter_behind strchr bytes
no_colon_behind b t found missing = rw (found, missing) refl

-- behind a colon some word follows
some_word : (t u : List ℕ) → strchr t b':' ≡ some u → (word : List ℕ) × Follows t word
some_word t u h =
    let (gap, v, e, f, no_colon) = strchr_finds t u h in
    let (skipped, split, blank, begins) = skip_quotes_splits v in
    let s = skip_quotes v in
    let (rest, cut, inside, ends) = take_name_splits 39 s in
    (
      take_name 39 s,
      record {
        gap = gap;
        skipped = skipped;
        rest = rest;
        split = e ∙ ap (λ v. gap ++ (b':' ∷ v)) (split ∙ ap (λ s. skipped ++ s) cut);
        no_colon = no_colon;
        blank = blank;
        begins = subst (StartsNot is_skipped) cut begins;
        inside = inside;
        ends = ends;
      },
    )

json_parameter-NamesParameter :
    (b : List ℕ) (p : ConfigParam)
    → p ≢ ConfigParam.none
    → json_parameter b ≡ p
    → NamesParameter b p
json_parameter-NamesParameter b p real h = elim (Option-cases (strstr b key)) [
  | inl missing ↦ absurd (real (sym h ∙ no_key b missing))
  | inr (t, found) ↦
      let (before, after, start, split, least) = strstr_first b key t found in
      let at_key : strstr b key ≡ some (key ++ after) = found ∙ ap some start in
      elim (Option-cases (strchr after b':')) [
        | inl missing ↦ absurd (real (sym h ∙ no_colon_behind b after at_key missing))
        | inr (u, colon) ↦
            let (word, follows) = some_word after u colon in
            record {
              before = before;
              after = after;
              word = word;
              split = split ∙ ap (λ t. before ++ t) start;
              first = least;
              follows = follows;
              real = real;
              named =
                  (parameter_iff word p real).0
                    (sym (json_parameter-Follows b after word at_key follows) ∙ h);
            }
      ]
]

-- no parameter is named
abbrev pub IsUnnamed : List ℕ → Type 0
IsUnnamed b = (p : ConfigParam) → NamesParameter b p → ⊥

none_or : (p : ConfigParam) → (p ≡ ConfigParam.none) ⊎ (p ≢ ConfigParam.none)
none_or p = ground arith

-- The parser finds no parameter exactly where the text names none.
pub json_parameter-none : (b : List ℕ) → (json_parameter b ≡ ConfigParam.none) ↔ IsUnnamed b
json_parameter-none b = (
  λ h p names. names.real (sym (NamesParameter-json_parameter b p names) ∙ h),
  λ h. elim (none_or (json_parameter b)) [
    | inl e ↦ e
    | inr real ↦
        absurd (h (json_parameter b) (json_parameter-NamesParameter b (json_parameter b) real refl))
  ],
)
