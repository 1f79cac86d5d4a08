-- ===== src/App/Quiet.antt =====
-- Operations of src/app_tasks.c that give the driver no order to move.
pub mod Driver
pub mod Fault
pub mod Periods
use epi_pico2w_seringue.Prelude.{
  ℕ, ◌≡◌, refl, Bool, true, false, not, ◌&&◌, ◌||◌, List, [], ◌∷◌, ◌==◌, if◌then◌else◌, Bool-cases,
  inl, inr, arith,
}
use epi_pico2w_seringue.Board.{
  Frame, Act, spi_exchange, Board, M, ◌>>=◌, pure, and_then, perform, Grant, granted, late, refused,
  flash_safe_execute, flash_attempt,
}
use epi_pico2w_seringue.Tmc5130.{rx_word}
use epi_pico2w_seringue.Tmc5130.Frames.{address, is_write}
use epi_pico2w_seringue.Tmc5130.Reg.{vmax, rampmode, xactual, xtarget}

-- a datagram that can set the motor going: a speed that is not 0, a mode, or a position
unfoldable pub drives : Frame → Bool
unfolding rx_word
drives f =
    is_write f
    && (address f == rampmode
        || address f == xactual
        || address f == xtarget
        || (address f == vmax && not (rx_word f == 0)))

abbrev pub IsHarmless : Act → Type 0
IsHarmless (spi_exchange f) = drives f ≡ false
IsHarmless _ = Unit

-- the second log is the first with harmless actions added
pub data Grows (l : List Act) : List Act → Type 0 where
  same : Grows l l
  more : {a : Act} {m : List Act} → IsHarmless a → Grows l m → Grows l (a ∷ m)

pub Grows-trans : {l m n : List Act} → Grows l m → Grows m n → Grows l n
Grows-trans g same = g
Grows-trans g (more h k) = more h (Grows-trans g k)

-- From every board, the operation only adds harmless actions.
pub record Quiet {A : Type 0} (m : M A) : Type 0 where
  pub at : (b : Board) → Grows b.log (m b).1.log

module _ {A : Type 0} where
  pub Quiet-pure : (a : A) → Quiet (pure a)
  Quiet-pure a = record { at = λ b. same }

  pub Quiet-if :
      (t : Bool) (m n : M A)
      → (t ≡ true → Quiet m)
      → (t ≡ false → Quiet n)
      → Quiet (if t then m else n)
  Quiet-if true m n h k = h refl
  Quiet-if false m n h k = k refl

pub Quiet-bind :
    {A B : Type 0} (m : M A) (f : A → M B) → Quiet m → ((a : A) → Quiet (f a)) → Quiet (m >>= f)
Quiet-bind m f h k = record { at = λ b. let (a, b') = m b in Grows-trans (h.at b) ((k a).at b') }

pub Quiet-and_then : (m n : M Bool) → Quiet m → Quiet n → Quiet (and_then m n)
Quiet-and_then m n h k =
    Quiet-bind m _ h (λ t. Quiet-if t n (pure false) (λ e. k) (λ e. Quiet-pure false))

pub Quiet-perform : (a : Act) → IsHarmless a → Quiet (perform a)
unfolding perform
Quiet-perform a h = record { at = λ b. more h same }
