-- ===== src/CString.antt =====
-- The functions of the C library on strings that src/command_api.c and src/app_tasks.c use, in the C
-- locale. A string is the list of its bytes in front of the closing zero.
pub mod Words
pub mod Search
pub mod First
use Prim.Native.String
use Prim.Native.String.{String}
use Prim.Native.Char.{code}
use epi_pico2w_seringue.Prelude.{
  ℕ, ◌+◌, ◌-◌, Bool, true, false, ◌&&◌, ◌||◌, Option, none, some, List, [], ◌∷◌, leb, ◌==◌,
  if◌then◌else◌,
}

-- the bytes of a text of ASCII characters
unfoldable pub bytes : String → List ℕ
bytes String.[] = []
bytes (String.◌∷◌ c s) = code c ∷ bytes s

-- the string that a buffer holds: what stands before its first zero
unfoldable pub c_string : List ℕ → List ℕ
c_string [] = []
c_string (c ∷ cs) = let rest = c_string cs in if c == 0 then [] else c ∷ rest

-- `toupper`, `tolower`
unfoldable pub upper : ℕ → ℕ
upper c = if leb b'a' c && leb c b'z' then c - 32 else c

unfoldable pub lower : ℕ → ℕ
lower c = if leb b'A' c && leb c b'Z' then c + 32 else c

-- `strcmp(a,b)==0`
unfoldable pub same : List ℕ → List ℕ → Bool
same [] [] = true
same (a ∷ s) (b ∷ t) = a == b && same s t
same _ _ = false

-- the delimiters " \t"
abbrev pub is_blank : ℕ → Bool
is_blank c = c == b' ' || c == b'\t'

-- the parts of `strtok_r(s," \t",&save)`: the delimiters in front, the token, and what `save` then
-- points to, behind the delimiter that the token ends at
unfoldable pub skip_blanks : List ℕ → List ℕ
skip_blanks [] = []
skip_blanks (c ∷ cs) = let rest = skip_blanks cs in if is_blank c then rest else c ∷ cs

unfoldable pub token : List ℕ → List ℕ
token [] = []
token (c ∷ cs) = let rest = token cs in if is_blank c then [] else c ∷ rest

unfoldable pub after_token : List ℕ → List ℕ
after_token [] = []
after_token (c ∷ cs) = let rest = after_token cs in if is_blank c then cs else rest

cut_token : List ℕ → Option (List ℕ) × List ℕ
cut_token [] = (none, [])
cut_token (c ∷ cs) = (some (token (c ∷ cs)), after_token (c ∷ cs))

-- `strtok_r`: the token, if there is one, and `save`
unfoldable pub strtok : List ℕ → Option (List ℕ) × List ℕ
unfolding cut_token skip_blanks token after_token
strtok s = cut_token (skip_blanks s)

-- `k` stands at the beginning
unfoldable pub starts_with : List ℕ → List ℕ → Bool
starts_with s [] = true
starts_with [] (_ ∷ _) = false
starts_with (c ∷ s) (d ∷ k) = c == d && starts_with s k

-- `strstr(s,k)`: the string from the first occurrence on
unfoldable pub strstr : List ℕ → List ℕ → Option (List ℕ)
unfolding starts_with
strstr [] k = if starts_with [] k then some [] else none
strstr (c ∷ s) k = let rest = strstr s k in if starts_with (c ∷ s) k then some (c ∷ s) else rest

-- `strchr(s,c)` at a `c` other than zero
unfoldable pub strchr : List ℕ → ℕ → Option (List ℕ)
strchr [] d = none
strchr (c ∷ s) d = let rest = strchr s d in if c == d then some (c ∷ s) else rest
