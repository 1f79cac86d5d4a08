-- ===== src/Boot/Radio.antt =====
-- The LED of a board with a radio, which hangs on the radio's chip, in src/status_led.c.
use epi_pico2w_seringue.Prelude.{
  ℕ, ◌+◌, ◌≡◌, refl, Bool, true, false, List, [], ◌∷◌, ◌==◌, if◌then◌else◌, u32, Bool-cases, inl,
  inr,
}
use epi_pico2w_seringue.Board.{Board, led_put, perform}
use epi_pico2w_seringue.Flash.{Build}
use epi_pico2w_seringue.StatusLed
use epi_pico2w_seringue.StatusLed.{Led, update, set_led, led_task}
use epi_pico2w_seringue.BleService
use epi_pico2w_seringue.BleService.{Service}
use epi_pico2w_seringue.App.Start.{start, bring_up}
use epi_pico2w_seringue.Boot.{radio_init}

update-unavailable :
    (l : Led) (now : ℕ) (connected moving : Bool) (b : Board)
    → l.available ≡ false
    → update l now connected moving b ≡ (l, b)
unfolding update
update-unavailable l now connected moving b off = rw off refl

led_task-unavailable :
    (l : Led) (now : ℕ) (fs : List (Bool × Bool)) (b : Board)
    → l.available ≡ false
    → led_task l now fs b ≡ (l, b)
unfolding led_task
led_task-unavailable l now [] b off = refl
led_task-unavailable l now ((connected, moving) ∷ fs) b off =
    rw (update-unavailable l now connected moving b off)
      (led_task-unavailable l (u32 (now + 25)) fs b off)

start-led :
    (build : Build) (b : Board) → build.has_radio ≡ true → (start build b).0.1 ≡ StatusLed.at_start
unfolding start bring_up StatusLed.init
start-led build b radio = rw radio refl

-- what `radio_init_task` comes to, from the LED of the start
abbrev pub radio_up : ℕ → List ℕ → Service → Board → (Bool × Service × Led) × Board
radio_up refused id s b =
    if refused == 0
    then (
      (true, (BleService.init 0 id s).1, record StatusLed.at_start { available = true }),
      record b { log = led_put false ∷ b.log },
    )
    else ((false, s, StatusLed.at_start), b)

radio_init-at_start :
    (refused : ℕ) (id : List ℕ) (s : Service) (b : Board)
    → radio_init refused id s StatusLed.at_start b ≡ radio_up refused id s b
unfolding radio_init BleService.init StatusLed.init set_led perform
radio_init-at_start refused id s b = elim (Bool-cases (refused == 0)) [
  | inl up ↦ rw up refl
  | inr down ↦ rw down refl
]

-- On a board with a radio nothing is done to the LED, whose pin belongs to the radio's chip, until the
-- radio has come up: in the state that the start leaves, `led_task` makes no call at all, and a setup
-- of the radio that fails leaves the LED, the service and the board as they are. One that
-- succeeds makes the LED available and turns it off.
pub radio_init-led :
    (build : Build) (b b' : Board) (now refused : ℕ) (fs : List (Bool × Bool)) (id : List ℕ)
    (s : Service)
    → build.has_radio ≡ true
    → let l = (start build b).0.1 in
      (led_task l now fs b' ≡ (l, b')) × (radio_init refused id s l b' ≡ radio_up refused id s b')
radio_init-led build b b' now refused fs id s radio =
    rw (start-led build b radio)
      (led_task-unavailable StatusLed.at_start now fs b' refl, radio_init-at_start refused id s b')
