-- ===== src/Telemetry/Format.antt =====
-- `format_telemetry` of src/app_tasks.c against a list of what the text consists of.
use epi_pico2w_seringue.Prelude.{
  ℕ, suc, ◌+◌, ◌/◌, ◌%◌, ◌<◌, ◌≤◌, ◌≡◌, refl, ap, ◌∙◌, Bool, true, false, List, [], ◌∷◌, ◌++◌,
  arith, ltb, if◌then◌else◌, Bool-cases, inl, inr,
}
use mathlib.Core.List.{append_assoc}
use epi_pico2w_seringue.Float.{Float, binary32, of_ℕ, ltf}
use epi_pico2w_seringue.AppState
use epi_pico2w_seringue.Flash.{Build}
use epi_pico2w_seringue.App.{TelemetrySnapshot}
use epi_pico2w_seringue.CString.{bytes}
use epi_pico2w_seringue.Telemetry.{
  Buffer, append_text, digits, downwards, append_uint, scaled, append_fixed3, load_code, truth,
  Radio, append_radio, format_telemetry,
}
use epi_pico2w_seringue.Telemetry.Text.{IsCut, append_text-append, append_text-IsCut}

-- the decimal digits of a number, highest first
abbrev pub decimal_text : ℕ → List ℕ
decimal_text v = downwards (digits 10 v)

-- three digits, with leading zeros
abbrev pub three_digits : ℕ → List ℕ
three_digits f = (48 + f / 100) ∷ (48 + f / 10 % 10) ∷ (48 + f % 10) ∷ []

-- a part of the text: bytes, a number, or a number with three decimals
pub data Piece : Type 0 where
  text : List ℕ → Piece
  uint : ℕ → Piece
  fixed3 : Float → Piece

-- the sign, the whole number, the point, and three decimals of the number of thousandths
unfoldable pub piece_text : Piece → List ℕ
piece_text (text t) = t
piece_text (uint v) = decimal_text v
piece_text (fixed3 x) =
    (if ltf x (of_ℕ binary32 0) then bytes "-" else [])
    ++ decimal_text (scaled x / 1000)
    ++ bytes "."
    ++ three_digits (scaled x % 1000)

append_piece : Piece → Buffer → Buffer
append_piece (text t) o = append_text t o
append_piece (uint v) o = append_uint v o
append_piece (fixed3 x) o = append_fixed3 x o

digits-last : (n v : ℕ) → v < 10 → digits (suc n) v ≡ (48 + v % 10) ∷ []
unfolding digits
digits-last n v h = ground arith

digits-more : (n v : ℕ) → 10 ≤ v → digits (suc n) v ≡ (48 + v % 10) ∷ digits n (v / 10)
unfolding digits
digits-more n v h = ground arith

padded :
    (f : ℕ)
    → f < 1000
    → (if ltb f 100 then bytes "0" else [])
        ++ (if ltb f 10 then bytes "0" else [])
        ++ decimal_text f
      ≡ three_digits f
unfolding downwards bytes
padded f h = elim (Bool-cases (ltb f 10)) [
  | inl one ↦
      let small : ltb f 100 ≡ true = ground arith in
      rw (one, small, digits-last 9 f (ground arith)) (ground arith)
  | inr more ↦ elim (Bool-cases (ltb f 100)) [
    | inl two ↦
        rw (more, two, digits-more 9 f (ground arith), digits-last 8 (f / 10) (ground arith))
          (ground arith)
    | inr three ↦
        rw
          (
            more,
            three,
            digits-more 9 f (ground arith),
            digits-more 8 (f / 10) (ground arith),
            digits-last 7 (f / 10 / 10) (ground arith),
          )
          (ground arith)
  ]
]

abbrev when : Bool → List ℕ → List ℕ
when t z = if t then z else []

append_text-when :
    (t : Bool) (z : List ℕ) (o : Buffer)
    → (if t then append_text z o else o) ≡ append_text (when t z) o
unfolding append_text
append_text-when true z o = refl
append_text-when false z o = refl

six_parts :
    (m q p h t d : List ℕ) (o : Buffer)
    → append_text d
        (append_text t (append_text h (append_text p (append_text q (append_text m o)))))
      ≡ append_text (m ++ q ++ p ++ (h ++ t ++ d)) o
six_parts m q p h t d o = simp (append_text-append, append_assoc)

-- the body of `append_fixed3` at any texts and conditions
fixed3_parts :
    (n h t : Bool) (m q p z d : List ℕ) (o : Buffer)
    → let signed = if n then append_text m o else o in
      let pointed = append_text p (append_text q signed) in
      let hundreds = if h then append_text z pointed else pointed in
      append_text d (if t then append_text z hundreds else hundreds)
      ≡ append_text (when n m ++ q ++ p ++ (when h z ++ when t z ++ d)) o
fixed3_parts n h t m q p z d o =
    let signed = append_text (when n m) o in
    let pointed = append_text p (append_text q signed) in
    rw
      (
        append_text-when n m o,
        append_text-when h z pointed,
        append_text-when t z (append_text (when h z) pointed),
      )
      (six_parts (when n m) q p (when h z) (when t z) d o)

append_piece_lem : (p : Piece) (o : Buffer) → append_piece p o ≡ append_text (piece_text p) o
unfolding append_piece piece_text append_uint append_fixed3
append_piece_lem (text t) o = refl
append_piece_lem (uint v) o = refl
append_piece_lem (fixed3 x) o =
    let f = scaled x % 1000 in
    let negative = ltf x (of_ℕ binary32 0) in
    let whole = decimal_text (scaled x / 1000) in
    fixed3_parts negative (ltb f 100) (ltb f 10) (bytes "-") whole (bytes ".") (bytes "0")
      (decimal_text f) o
    ∙ ap (λ d. append_text (when negative (bytes "-") ++ whole ++ bytes "." ++ d) o)
        (padded f (omega arith))

append_pieces : List Piece → Buffer → Buffer
append_pieces [] o = o
append_pieces (p ∷ ps) o = append_pieces ps (append_piece p o)

-- the text of a list of parts
unfoldable pub text_of : List Piece → List ℕ
text_of [] = []
text_of (p ∷ ps) = piece_text p ++ text_of ps

append_pieces_lem : (ps : List Piece) (o : Buffer) → append_pieces ps o ≡ append_text (text_of ps) o
unfolding append_pieces text_of append_text
append_pieces_lem [] o = refl
append_pieces_lem (p ∷ ps) o =
    rw (append_piece_lem p o, append_pieces_lem ps (append_text (piece_text p) o))
      (append_text-append (piece_text p) (text_of ps) o)

abbrev pub radio_pieces : Radio → List Piece
radio_pieces r =
    text (bytes ",\"radio_ready\":")
    ∷ text (truth r.ready)
    ∷ text (bytes ",\"ble_operational\":")
    ∷ text (truth r.operational)
    ∷ text (bytes ",\"ble_adv_status\":")
    ∷ uint r.advertising_status
    ∷ []

-- what the text consists of, in order
unfoldable pub telemetry : Build → Radio → TelemetrySnapshot → List Piece
telemetry build r s =
    text (bytes "{\"state\":\"")
      ∷ text (bytes (AppState.name s.state))
      ∷ text (bytes "\",\"position_mm\":")
      ∷ fixed3 s.position_mm
      ∷ text (bytes ",\"remaining_course_mm\":")
      ∷ fixed3 s.remaining_mm
      ∷ text (bytes ",\"used_course_mm\":")
      ∷ fixed3 s.used_mm
      ∷ text (bytes ",\"activation_count\":")
      ∷ uint s.activation_count
      ∷ text (bytes ",\"unload_result\":\"")
      ∷ text (bytes s.unload_result)
      ∷ text (bytes "\",\"sg_result\":")
      ∷ uint s.sg_result
      ∷ text (bytes ",\"load\":")
      ∷ uint (load_code s.load)
      ∷ text (bytes ",\"sg_calibrating\":")
      ∷ text (truth s.sg_calibrating)
      ∷ text (bytes ",\"sg_samples\":")
      ∷ uint s.sg_samples
      ∷ text (bytes ",\"trigger_dose_mm\":")
      ∷ fixed3 s.trigger_dose_mm
      ∷ text (bytes ",\"radio_available\":")
      ∷ text (truth build.has_radio)
      ∷ (if build.has_radio then radio_pieces r else [])
    ++ text (bytes ",\"fault\":") ∷ uint s.fault ∷ text (bytes "}") ∷ []

format_pieces :
    (build : Build) (r : Radio) (capacity : ℕ) (s : TelemetrySnapshot)
    → format_telemetry build r capacity s
      ≡ append_pieces (telemetry build r s) (record { text = []; left = capacity })
unfolding format_telemetry telemetry append_radio append_pieces append_piece
format_pieces build r capacity s = elim (Bool-cases build.has_radio) [
  | inl y ↦ rw y refl
  | inr n ↦ rw n refl
]

-- What is written into a buffer of at least one byte is the whole text of the listed parts, or, where
-- it does not fit together with a closing zero, the longest beginning of it that does.
pub format_telemetry-IsCut :
    (build : Build) (r : Radio) (capacity : ℕ) (s : TelemetrySnapshot)
    → 1 ≤ capacity
    → IsCut capacity (text_of (telemetry build r s)) (format_telemetry build r capacity s)
format_telemetry-IsCut build r capacity s h =
    rw (format_pieces build r capacity s, append_pieces_lem (telemetry build r s) _)
      (append_text-IsCut capacity (text_of (telemetry build r s)) []
        (record { text = []; left = capacity })
        (record { rest = []; split = refl; room = omega arith; closed = h; cut = inr refl }))
