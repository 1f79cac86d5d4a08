-- ===== src/StatusLed.antt =====
-- src/status_led.c and include/status_led.h: the blinking of the board's LED, and `led_task` of
-- src/app_tasks.c.
pub mod Blink
use epi_pico2w_seringue.Prelude.{
  ℕ, Bool, true, false, not, List, [], ◌∷◌, ◌+◌, leb, if◌then◌else◌, sub32, u32,
}
use epi_pico2w_seringue.Board.{led_init, led_put, M, ◌>>=◌, ◌>>◌, pure, perform}

-- the static variables
pub record Led : Type 0 where
  pub available : Bool
  pub level : Bool
  pub changed_ms : ℕ

abbrev pub at_start : Led
at_start = record { available = false; level = false; changed_ms = 0 }

-- `set_led`, through the radio's pin or the processor's: the build's `has_radio` decides
unfoldable pub set_led : Bool → M (Unit {0})
unfolding perform
set_led on = perform (led_put on)

-- `status_led_init`, with the build's DISPENSER_HAS_RADIO
unfoldable pub init : Bool → Led → Bool → M Led
unfolding set_led
init has_radio l ready = do
  if has_radio then pure tt else perform led_init
  if ready then set_led false else pure tt
  pure (record l { available = ready })

-- `status_led_update`
unfoldable pub update : Led → ℕ → Bool → Bool → M Led
unfolding set_led
update l now connected moving =
    let interval = if connected then 100 else 500 in
    let flipped = record l { changed_ms = now; level = not l.level } in
    if not l.available
    then pure l
    else if moving
    then (if not l.level
        then (do set_led true; pure (record l { level = true; changed_ms = now }))
        else pure (record l { changed_ms = now }))
    else if leb interval (sub32 now l.changed_ms)
    then (do set_led flipped.level; pure flipped)
    else pure l

-- the rounds of `led_task`, one each 25 ms from a time on, at the values of `radio_connected` and
-- `motor_moving` that they find
unfoldable pub led_task : Led → ℕ → List (Bool × Bool) → M Led
led_task l now [] = pure l
led_task l now ((connected, moving) ∷ flags) =
    update l now connected moving >>= λ l'. led_task l' (u32 (now + 25)) flags
