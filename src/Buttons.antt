-- ===== src/Buttons.antt =====
-- src/buttons.c and include/buttons.h: the three contacts and their debouncing.
pub mod Debounce
use epi_pico2w_seringue.Prelude.{ℕ, Bool, false, not, ◌&&◌, xor, leb, if◌then◌else◌, sub32}
use epi_pico2w_seringue.Board.{pin_init, pin_pull_up, pin_input, M, ◌>>=◌, ◌>>◌, perform}

-- `BUTTON_DEBOUNCE_MS` and the pins of include/board_config.h
abbrev pub button_debounce_ms : ℕ
button_debounce_ms = 30

abbrev pub pin_sw_dose : ℕ
pin_sw_dose = 13

abbrev pub pin_sw_push : ℕ
pin_sw_push = 14

abbrev pub pin_sw_pull : ℕ
pin_sw_pull = 15

-- `db_t`
pub record Debounced : Type 0 where
  pub stable : Bool
  pub sample : Bool
  pub changed : ℕ

-- `debounce`: the button afterwards; its `stable` is the result
unfoldable pub debounce : Debounced → Bool → ℕ → Debounced
unfolding xor
debounce button sample now =
    let noted =
      if xor sample button.sample
      then record button { sample = sample; changed = now }
      else button in
    if xor sample noted.stable && leb button_debounce_ms (sub32 now noted.changed)
    then record noted { stable = sample }
    else noted

-- the three static buttons
pub record Buttons : Type 0 where
  pub push_button : Debounced
  pub pull_button : Debounced
  pub dose_button : Debounced

abbrev pub released : Debounced
released = record { stable = false; sample = false; changed = 0 }

abbrev pub at_start : Buttons
at_start = record { push_button = released; pull_button = released; dose_button = released }

-- `button_state_t`
pub record ButtonState : Type 0 where
  pub push : Bool
  pub pull : Bool
  pub dose : Bool
  pub conflict : Bool

-- the levels that `gpio_get` reads
pub record Levels : Type 0 where
  pub push_level : Bool
  pub pull_level : Bool
  pub dose_level : Bool

-- `buttons_update`; the contacts are active low
unfoldable pub update : Buttons → Levels → ℕ → Buttons × ButtonState
unfolding debounce
update b levels now =
    let push = debounce b.push_button (not levels.push_level) now in
    let pull = debounce b.pull_button (not levels.pull_level) now in
    let dose = debounce b.dose_button (not levels.dose_level) now in
    (
      record { push_button = push; pull_button = pull; dose_button = dose },
      record {
        push = push.stable;
        pull = pull.stable;
        dose = dose.stable;
        conflict = push.stable && pull.stable;
      },
    )

input_pull_up : ℕ → M (Unit {0})
unfolding perform
input_pull_up pin = do perform (pin_init pin); perform (pin_input pin); perform (pin_pull_up pin)

-- `buttons_init`
unfoldable pub init : M (Unit {0})
unfolding input_pull_up
init = do input_pull_up pin_sw_push; input_pull_up pin_sw_pull; input_pull_up pin_sw_dose
