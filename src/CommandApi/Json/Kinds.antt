-- ===== src/CommandApi/Json/Kinds.antt =====
-- The first name of the table of `command_parse_json` (src/command_api.c) that occurs in a text.
use epi_pico2w_seringue.Prelude.{
  ℕ, ◌≡◌, ◌≢◌, ◌⊎◌, inl, inr, refl, sym, ap, ◌∙◌, none, some, List, [], ◌∷◌, ◌++◌, All,
  Option-cases, arith,
}
use epi_pico2w_seringue.CString.{strstr}
use epi_pico2w_seringue.CString.Search.{Occurs, strstr_finds, strstr_misses}
use epi_pico2w_seringue.CommandApi.{CommandKind}
use epi_pico2w_seringue.CommandApi.Json.{kinds, kind_in}

abbrev pub IsAbsent : List ℕ → List ℕ × CommandKind → Type 0
IsAbsent b (n, k) = Occurs n b → ⊥

-- the kind of the first entry of the table whose name occurs
abbrev pub IsFirst : List ℕ → List (List ℕ × CommandKind) → CommandKind → Type 0
IsFirst b ks k =
    (earlier : List (List ℕ × CommandKind)) × (n : List ℕ) × (later : List (List ℕ × CommandKind))
    × (ks ≡ earlier ++ ((n, k) ∷ later))
    × Occurs n b
    × All (IsAbsent b) earlier

kind_in-here :
    (b n t : List ℕ) (k : CommandKind) (ks : List (List ℕ × CommandKind))
    → strstr b n ≡ some t
    → kind_in b ((n, k) ∷ ks) ≡ k
unfolding kind_in
kind_in-here b n t k ks h = ground arith

kind_in-later :
    (b n : List ℕ) (k : CommandKind) (ks : List (List ℕ × CommandKind))
    → strstr b n ≡ none
    → kind_in b ((n, k) ∷ ks) ≡ kind_in b ks
unfolding kind_in
kind_in-later b n k ks h = ground arith

-- either the first name that occurs decides, or none does
pub kind_in-cases :
    (b : List ℕ) (ks : List (List ℕ × CommandKind))
    → IsFirst b ks (kind_in b ks) ⊎ ((kind_in b ks ≡ CommandKind.none) × All (IsAbsent b) ks)
unfolding kind_in
kind_in-cases b [] = inr (refl, tt)
kind_in-cases b ((n, k) ∷ ks) = elim (Option-cases (strstr b n)) [
  | inr (t, found) ↦
      rw (kind_in-here b n t k ks found) (inl ([], n, ks, refl, strstr_finds b n t found, tt))
  | inl missing ↦ rw (kind_in-later b n k ks missing) (elim (kind_in-cases b ks) [
    | inl (earlier, m, later, split, occurs, absent) ↦ inl (
      (n, k) ∷ earlier,
      m,
      later,
      ap ((n, k) ∷◌) split,
      occurs,
      (strstr_misses b n missing, absent),
    )
    | inr (nothing, absent) ↦ inr (nothing, (strstr_misses b n missing, absent))
  ])
]

found_at : (b n : List ℕ) → Occurs n b → (t : List ℕ) × (strstr b n ≡ some t)
found_at b n occurs = elim (Option-cases (strstr b n)) [
  | inr at ↦ at
  | inl missing ↦ absurd (strstr_misses b n missing occurs)
]

not_found : (b n : List ℕ) → (Occurs n b → ⊥) → strstr b n ≡ none
not_found b n absent = elim (Option-cases (strstr b n)) [
  | inl missing ↦ missing
  | inr (t, at) ↦ absurd (absent (strstr_finds b n t at))
]

pub kind_in-none :
    (b : List ℕ) (ks : List (List ℕ × CommandKind))
    → All (IsAbsent b) ks
    → kind_in b ks ≡ CommandKind.none
unfolding kind_in
kind_in-none b [] h = refl
kind_in-none b ((n, k) ∷ ks) (h, hs) =
    kind_in-later b n k ks (not_found b n h) ∙ kind_in-none b ks hs

pub first-kind_in :
    (b : List ℕ) (earlier : List (List ℕ × CommandKind)) (n : List ℕ) (k : CommandKind)
    (later : List (List ℕ × CommandKind))
    → Occurs n b
    → All (IsAbsent b) earlier
    → kind_in b (earlier ++ ((n, k) ∷ later)) ≡ k
first-kind_in b [] n k later occurs h =
    let (t, at) = found_at b n occurs in kind_in-here b n t k later at
first-kind_in b ((m, l) ∷ earlier) n k later occurs (h, hs) =
    kind_in-later b m l (earlier ++ ((n, k) ∷ later)) (not_found b m h)
    ∙ first-kind_in b earlier n k later occurs hs

abbrev IsReal : List ℕ × CommandKind → Type 0
IsReal (n, k) = k ≢ CommandKind.none

pub none-IsAbsent :
    (b : List ℕ) (ks : List (List ℕ × CommandKind))
    → All IsReal ks
    → kind_in b ks ≡ CommandKind.none
    → All (IsAbsent b) ks
none-IsAbsent b [] rs h = tt
none-IsAbsent b ((n, k) ∷ ks) (r, rs) h = elim (Option-cases (strstr b n)) [
  | inr (t, at) ↦ absurd (r (sym (kind_in-here b n t k ks at) ∙ h))
  | inl missing ↦
      (strstr_misses b n missing, none-IsAbsent b ks rs (sym (kind_in-later b n k ks missing) ∙ h))
]

pub kinds-IsReal : All IsReal kinds
kinds-IsReal = ground arith
