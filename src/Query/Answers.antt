-- ===== src/Query/Answers.antt =====
-- The answers of `app_tasks_format_query` of src/app_tasks.c.
use epi_pico2w_seringue.Prelude.{
  ℕ, ◌-◌, ◌≡◌, ◌≤◌, ◌<◌, ◌⊎◌, inl, inr, refl, ap, subst, ◌∙◌, Bool, true, false, ◌||◌, none, some,
  List, [], ◌∷◌, map, length, length-append, length-take, ltb, leb, ◌==◌, if◌then◌else◌, Bool-cases,
  and-eq_true, ==_iff, arith,
}
use epi_pico2w_seringue.CString.{bytes, c_string, lower, upper, same, strtok}
use epi_pico2w_seringue.Float.{Float}
use epi_pico2w_seringue.CommandApi.Ascii.{
  parse_ascii, parse_words, with_kind, verb, branches, choose,
}
use epi_pico2w_seringue.Telemetry.{format_telemetry}
use epi_pico2w_seringue.Telemetry.Format.{format_telemetry-IsCut}
use epi_pico2w_seringue.Query.{
  same_letters, cut, version_text, help_text, config_text, Facts, status_text, format_query,
}

length-cut : (capacity : ℕ) (t : List ℕ) → 1 ≤ capacity → length (cut capacity t) < capacity
unfolding cut
length-cut capacity t h = omega (arith, length-take (capacity - 1) t)

length-status_text :
    (f : Facts) (capacity : ℕ) → 1 ≤ capacity → length (status_text f capacity) < capacity
unfolding status_text
length-status_text f capacity h =
    let shown = format_telemetry f.build f.radio capacity f.snapshot in
    let fits = format_telemetry-IsCut f.build f.radio capacity f.snapshot h in
    let room = fits.room in
    let closed = fits.closed in
    let left =
      length-cut (capacity - length shown.text) (bytes "\nOK\n")
        (omega (arith, fits.room, fits.closed)) in
    omega (
      arith,
      length-append shown.text (cut (capacity - length shown.text) (bytes "\nOK\n")),
      left,
      fits.room,
      fits.closed,
    )

-- the four answers
data IsAnswer (three_decimals : Float → List ℕ) (f : Facts) (capacity : ℕ)
    : List ℕ → List ℕ → Type 0 where
  version : IsAnswer three_decimals f capacity (bytes "VERSION") (cut capacity version_text)
  status : IsAnswer three_decimals f capacity (bytes "STATUS") (status_text f capacity)
  config :
      IsAnswer three_decimals f capacity
        (bytes "CONFIG")
        (cut capacity (config_text three_decimals f.config))
  help : IsAnswer three_decimals f capacity (bytes "HELP") (cut capacity help_text)

chain :
    (small v s c h : Bool) (a1 a2 a3 a4 t : List ℕ)
    → (if small
        then none
        else if v
        then some a1
        else if s
        then some a2
        else if c
        then some a3
        else if h
        then some a4
        else none)
      ≡ some t
    → (small ≡ false)
      × ((v ≡ true) × (a1 ≡ t)
          ⊎ (s ≡ true) × (a2 ≡ t)
          ⊎ (c ≡ true) × (a3 ≡ t)
          ⊎ (h ≡ true) × (a4 ≡ t))
chain small v s c h a1 a2 a3 a4 t e = ground arith

not_small : (n : ℕ) → ltb n 2 ≡ false → 2 ≤ n
not_small n h = ground arith

answered :
    (three_decimals : Float → List ℕ) (f : Facts) (capacity : ℕ) (command t : List ℕ)
    → format_query three_decimals f capacity command ≡ some t
    → (2 ≤ capacity)
      × ((w : List ℕ) × (same_letters command w ≡ true) × IsAnswer three_decimals f capacity w t)
unfolding format_query
answered three_decimals f capacity command t h =
    let (large, which) =
      chain (ltb capacity 2) (same_letters command (bytes "VERSION"))
        (same_letters command (bytes "STATUS")) (same_letters command (bytes "CONFIG"))
        (same_letters command (bytes "HELP")) (cut capacity version_text) (status_text f capacity)
        (cut capacity (config_text three_decimals f.config)) (cut capacity help_text) t h in
    (
      not_small capacity large,
      elim which [
        | inl (asked, e) ↦ (
          bytes "VERSION",
          asked,
          subst (IsAnswer three_decimals f capacity (bytes "VERSION")) e version,
        )
        | inr (inl (asked, e)) ↦ (
          bytes "STATUS",
          asked,
          subst (IsAnswer three_decimals f capacity (bytes "STATUS")) e status,
        )
        | inr (inr (inl (asked, e))) ↦ (
          bytes "CONFIG",
          asked,
          subst (IsAnswer three_decimals f capacity (bytes "CONFIG")) e config,
        )
        | inr (inr (inr (asked, e))) ↦
            (bytes "HELP", asked, subst (IsAnswer three_decimals f capacity (bytes "HELP")) e help)
      ],
    )

upper-lower : (a b : ℕ) → lower a ≡ lower b → upper a ≡ upper b
unfolding lower upper
upper-lower a b h = ground arith

same_letters-upper : (s t : List ℕ) → same_letters s t ≡ true → map upper s ≡ map upper t
unfolding same_letters same
same_letters-upper [] [] h = refl
same_letters-upper [] (b ∷ t) h = ground arith
same_letters-upper (a ∷ s) [] h = ground arith
same_letters-upper (a ∷ s) (b ∷ t) h =
    let (first, others) = and-eq_true (lower a == lower b) (same (map lower s) (map lower t)) h in
    rw (upper-lower a b ((==_iff (lower a) (lower b)).0 first), same_letters-upper s t others) refl

ends-upper : (c : ℕ) → (c == 0) ≡ true → (upper c == 0) ≡ true
unfolding upper
ends-upper c h = ground arith

goes_on-upper : (c : ℕ) → (c == 0) ≡ false → (upper c == 0) ≡ false
unfolding upper
goes_on-upper c h = ground arith

c_string-upper : (s : List ℕ) → c_string (map upper s) ≡ map upper (c_string s)
unfolding c_string
c_string-upper [] = refl
c_string-upper (c ∷ s) = elim (Bool-cases (c == 0)) [
  | inl zero_byte ↦
      let above : (upper c == 0) ≡ true = ends-upper c zero_byte in rw (zero_byte, above) refl
  | inr real ↦
      let above : (upper c == 0) ≡ false = goes_on-upper c real in
      rw (real, above, c_string-upper s) refl
]

not_a_command :
    (number : List ℕ → Float) (three_decimals : Float → List ℕ) (f : Facts) (capacity : ℕ)
    (w t : List ℕ)
    → IsAnswer three_decimals f capacity w t
    → parse_words number (strtok (map upper w)) ≡ none
unfolding parse_words strtok upper bytes with_kind verb branches choose same
not_a_command number three_decimals f capacity w t version = refl
not_a_command number three_decimals f capacity w t status = refl
not_a_command number three_decimals f capacity w t config = refl
not_a_command number three_decimals f capacity w t help = refl

IsAnswer-fits :
    (three_decimals : Float → List ℕ) (f : Facts) (capacity : ℕ) (w t : List ℕ)
    → 2 ≤ capacity
    → IsAnswer three_decimals f capacity w t
    → length t < capacity
IsAnswer-fits three_decimals f capacity w t h version =
    length-cut capacity version_text (omega arith)
IsAnswer-fits three_decimals f capacity w t h status = length-status_text f capacity (omega arith)
IsAnswer-fits three_decimals f capacity w t h config =
    length-cut capacity (config_text three_decimals f.config) (omega arith)
IsAnswer-fits three_decimals f capacity w t h help = length-cut capacity help_text (omega arith)

-- An answer fits in the buffer with its closing zero, for every text that the C library prints.
pub format_query-fits :
    (three_decimals : Float → List ℕ) (f : Facts) (capacity : ℕ) (command t : List ℕ)
    → format_query three_decimals f capacity command ≡ some t
    → length t < capacity
format_query-fits three_decimals f capacity command t h =
    let (large, (w, asked, answer)) = answered three_decimals f capacity command t h in
    IsAnswer-fits three_decimals f capacity w t large answer

-- A line that is answered as a query is no command: the two languages have no line in common.
pub parse_ascii-format_query :
    (three_decimals : Float → List ℕ) (f : Facts) (capacity : ℕ) (number : List ℕ → Float)
    (line t : List ℕ)
    → format_query three_decimals f capacity (c_string line) ≡ some t
    → parse_ascii number line ≡ none
unfolding parse_ascii
parse_ascii-format_query three_decimals f capacity number line t h =
    let (large, (w, asked, answer)) = answered three_decimals f capacity (c_string line) t h in
    let refused : parse_words number (strtok (c_string (map upper line))) ≡ none =
      ap (λ s. parse_words number (strtok s))
        (c_string-upper line ∙ same_letters-upper (c_string line) w asked)
      ∙ not_a_command number three_decimals f capacity w t answer in
    elim (Bool-cases (length line == 0 || leb 160 (length line))) [
      | inl bad ↦ rw bad refl
      | inr good ↦ rw good refused
    ]
