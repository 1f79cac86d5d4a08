-- ===== src/Flash/Writes.antt =====
-- Which bytes of the flash the SDK's erase and program calls change, and where the stores of
-- include/storage_layout.h, src/config_store.c and src/statistics.c lie.
use epi_pico2w_seringue.Prelude.{
  ℕ, ◌+◌, ◌<◌, ◌≡◌, ◌∙◌, ap, refl, Bool, true, false, ◌&&◌, List, [], ◌∷◌, leb, ltb, length,
}
use epi_pico2w_seringue.Flash.Bytes.{byte_in}
use epi_pico2w_seringue.Board.{
  Act, flash_attempt, flash_range_erase, flash_range_program, Board, M, Grant, granted, late,
  refused, granted_run, flash_safe_execute,
}

-- the byte at an offset is among those that the call changes
unfoldable pub touches : Act → ℕ → Bool
touches (flash_range_erase o n) at = leb o at && ltb at (o + n)
touches (flash_range_program o page) at = leb o at && ltb at (o + length page)
touches _ at = false

-- What the SDK says of the flash: only the bytes in the range of an erase or program call change.
pub record IsFlash (b : Board) : Type 0 where
  pub keeps :
      (a : Act) (log : List Act) (at : ℕ)
      → touches a at ≡ false
      → b.flash (a ∷ log) at ≡ b.flash log at

-- What the data sheet says of the flash: an erased byte reads as 0xff, and programming such a byte
-- gives it the value of the page.
pub record IsNor (b : Board) : Type 0 where
  pub erases :
      (o n : ℕ) (log : List Act) (at : ℕ)
      → touches (flash_range_erase o n) at ≡ true
      → b.flash (flash_range_erase o n ∷ log) at ≡ 255
  pub programs :
      (o : ℕ) (page : List ℕ) (log : List Act) (i : ℕ)
      → i < length page
      → b.flash log (o + i) ≡ 255
      → b.flash (flash_range_program o page ∷ log) (o + i) ≡ byte_in page i

-- no call of the list changes the byte
abbrev pub Spares : List Act → ℕ → Type 0
Spares [] at = Unit
Spares (a ∷ acts) at = (touches a at ≡ false) × Spares acts at

-- the calls on top of a log, newest first
abbrev pub atop : List Act → List Act → List Act
atop [] log = log
atop (a ∷ acts) log = a ∷ atop acts log

pub Spares-keeps :
    (b : Board) (acts log : List Act) (at : ℕ)
    → IsFlash b
    → Spares acts at
    → b.flash (atop acts log) at ≡ b.flash log at
Spares-keeps b [] log at h spares = refl
Spares-keeps b (a ∷ acts) log at h spares =
    h.keeps a (atop acts log) at spares.0 ∙ Spares-keeps b acts log at h spares.1

granted_run-keeps :
    (b : Board) (f : M Unit) (acts : List Act) (g : Grant) (log : List Act) (at : ℕ)
    → IsFlash b
    → ((log : List Act) → f (record b { log = log }) ≡ (tt, record b { log = atop acts log }))
    → Spares acts at
    → let b' = (granted_run g f (record b { log = log })).1 in b'.flash b'.log at ≡ b.flash log at
unfolding granted_run
granted_run-keeps b f acts granted log at h calls spares =
    rw (calls log) (Spares-keeps b acts log at h spares)
granted_run-keeps b f acts late log at h calls spares =
    rw (calls log) (Spares-keeps b acts log at h spares)
granted_run-keeps b f acts refused log at h calls spares = refl

-- An operation that a caller hands to `flash_safe_execute` leaves a byte alone if its calls do,
-- however the attempt goes.
pub flash_safe_execute-keeps :
    (b : Board) (f : M Unit) (acts : List Act) (at : ℕ)
    → IsFlash b
    → ((log : List Act) → f (record b { log = log }) ≡ (tt, record b { log = atop acts log }))
    → Spares acts at
    → let b' = (flash_safe_execute f b).1 in b'.flash b'.log at ≡ b.flash b.log at
unfolding flash_safe_execute touches
flash_safe_execute-keeps b f acts at h calls spares =
    let asked : List Act = flash_attempt ∷ b.log in
    let first : b.flash asked at ≡ b.flash b.log at = h.keeps flash_attempt b.log at refl in
    granted_run-keeps b f acts (b.grant asked) asked at h calls spares ∙ first

granted_run-granted :
    (b : Board) (f : M Unit) (acts : List Act) (g : Grant) (log : List Act)
    → ((log : List Act) → f (record b { log = log }) ≡ (tt, record b { log = atop acts log }))
    → (granted_run g f (record b { log = log })).0 ≡ true
    → (granted_run g f (record b { log = log })).1 ≡ record b { log = atop acts log }
unfolding granted_run
granted_run-granted b f acts granted log calls ok = ap (λ r. r.1) (calls log)
granted_run-granted b f acts late log calls ok = cc
granted_run-granted b f acts refused log calls ok = cc

-- Where the attempt is reported as good, the operation's calls were made.
pub flash_safe_execute-granted :
    (b : Board) (f : M Unit) (acts : List Act)
    → ((log : List Act) → f (record b { log = log }) ≡ (tt, record b { log = atop acts log }))
    → (flash_safe_execute f b).0 ≡ true
    → (flash_safe_execute f b).1 ≡ record b { log = atop acts (flash_attempt ∷ b.log) }
unfolding flash_safe_execute
flash_safe_execute-granted b f acts calls ok =
    let asked : List Act = flash_attempt ∷ b.log in
    granted_run-granted b f acts (b.grant asked) asked calls ok

-- The calls are made where every attempt is granted.
pub flash_safe_execute-ok :
    (b : Board) (f : M Unit)
    → ((log : List Act) → b.grant log ≡ granted)
    → ((flash_safe_execute f b).0 ≡ true)
unfolding flash_safe_execute granted_run
flash_safe_execute-ok b f all = rw (all (flash_attempt ∷ b.log)) refl
