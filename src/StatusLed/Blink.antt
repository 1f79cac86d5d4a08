-- ===== src/StatusLed/Blink.antt =====
-- How src/status_led.c lets the LED blink in the rounds of `led_task` of src/app_tasks.c.
use epi_pico2w_seringue.Prelude.{
  ℕ, zero, suc, ◌+◌, ◌-◌, ◌*◌, ◌<◌, ◌≤◌, ◌≡◌, refl, ap, ◌∙◌, Bool, true, false, not, List, [], ◌∷◌,
  ◌++◌, arith, u32, sub32, leb, if◌then◌else◌, length, le→leb,
}
use epi_pico2w_seringue.Board.{Act, Board, led_put, perform}
use epi_pico2w_seringue.StatusLed.{Led, update, set_led, led_task}

-- the time between two changes, and the number of rounds that it takes
abbrev pub interval : Bool → ℕ
interval connected = if connected then 100 else 500

abbrev pub rounds : Bool → ℕ
rounds connected = if connected then 4 else 20

-- as many rounds at rest, with or without a connection
abbrev pub at_rest : Bool → ℕ → List (Bool × Bool)
at_rest connected zero = []
at_rest connected (suc n) = (connected, false) ∷ at_rest connected n

at_rest-add : (c : Bool) (m n : ℕ) → at_rest c (m + n) ≡ at_rest c m ++ at_rest c n
at_rest-add c zero n = let none_more : 0 + n ≡ n = omega arith in rw none_more refl
at_rest-add c (suc m) n =
    let next : suc m + n ≡ suc (m + n) = omega arith in
    rw next (ap (λ l. (c, false) ∷ l) (at_rest-add c m n))

-- a level that has changed so many times
abbrev pub changed : ℕ → Bool → Bool
changed zero level = level
changed (suc q) level = changed q (not level)

-- what the LED shows after a log of calls, the newest first
abbrev pub shown : List Act → Bool
shown [] = false
shown (led_put on ∷ log) = on
shown (_ ∷ log) = shown log

elapsed : (t d : ℕ) → t < 4294967296 → d < 4294967296 → sub32 (u32 (t + d)) t ≡ d
elapsed t d ht hd = omega arith

interval-le : (c : Bool) → interval c ≤ 500
interval-le true = omega arith
interval-le false = omega arith

not-leb : (a b : ℕ) → b < a → leb a b ≡ false
not-leb a b h = ground arith

led_task-append :
    (l : Led) (now : ℕ) (fs gs : List (Bool × Bool)) (b : Board)
    → now < 4294967296
    → let (l', b') = led_task l now fs b in
      led_task l now (fs ++ gs) b ≡ led_task l' (u32 (now + 25 * length fs)) gs b'
unfolding led_task
led_task-append l now [] gs b fits =
    let same : u32 (now + 25 * 0) ≡ now = omega arith in rw same refl
led_task-append l now ((connected, moving) ∷ fs) gs b fits =
    let (l', b') = update l now connected moving b in
    let later : u32 (u32 (now + 25) + 25 * length fs) ≡ u32 (now + 25 * suc (length fs)) =
      omega arith in
    led_task-append l' (u32 (now + 25)) fs gs b' (omega arith) ∙ rw later

length-at_rest : (c : Bool) (n : ℕ) → length (at_rest c n) ≡ n
length-at_rest c zero = refl
length-at_rest c (suc n) = ap suc (length-at_rest c n)

module _ (c : Bool) where
  -- Before the interval is over nothing happens.
  update-early :
      (l : Led) (d : ℕ) (b : Board)
      → l.available ≡ true
      → l.changed_ms < 4294967296
      → d < interval c
      → update l (u32 (l.changed_ms + d)) c false b ≡ (l, b)
  unfolding update
  update-early l d b on fits early =
      let ready : not l.available ≡ false = ap not on in
      let wait : leb (interval c) (sub32 (u32 (l.changed_ms + d)) l.changed_ms) ≡ false =
        rw (elapsed l.changed_ms d fits (omega (arith, interval-le c)))
          (not-leb (interval c) d early) in
      rw (ready, wait)

  -- At its end the level changes.
  update-due :
      (l : Led) (b : Board)
      → l.available ≡ true
      → l.changed_ms < 4294967296
      → let now = u32 (l.changed_ms + interval c) in
        update l now c false b ≡ (
          record l { level = not l.level; changed_ms = now },
          record b { log = led_put (not l.level) ∷ b.log },
        )
  unfolding update set_led perform
  update-due l b on fits =
      let ready : not l.available ≡ false = ap not on in
      let due : leb (interval c) (sub32 (u32 (l.changed_ms + interval c)) l.changed_ms) ≡ true =
        rw (elapsed l.changed_ms (interval c) fits (omega (arith, interval-le c)))
          (le→leb (interval c) (interval c) (omega arith)) in
      rw (ready, due)

  -- Rounds before the end of the interval leave the LED as it is.
  led_task-early :
      (l : Led) (d n : ℕ) (b : Board)
      → l.available ≡ true
      → l.changed_ms < 4294967296
      → d + 25 * n < interval c + 25
      → led_task l (u32 (l.changed_ms + d)) (at_rest c n) b ≡ (l, b)
  unfolding led_task
  led_task-early l d zero b on fits early = refl
  led_task-early l d (suc n) b on fits early =
      let later : u32 (u32 (l.changed_ms + d) + 25) ≡ u32 (l.changed_ms + (d + 25)) = omega arith in
      rw (update-early l d b on fits (omega arith), later)
        (led_task-early l (d + 25) n b on fits (omega arith))

  last_round :
      (fs : List (Bool × Bool))
      → at_rest c (rounds c) ++ fs ≡ at_rest c (rounds c - 1) ++ ((c, false) ∷ fs)
  last_round fs = last c fs
    where
      last :
          (c : Bool) (fs : List (Bool × Bool))
          → at_rest c (rounds c) ++ fs ≡ at_rest c (rounds c - 1) ++ ((c, false) ∷ fs)
      last true fs = refl
      last false fs = refl

  rounds-pos : 1 ≤ rounds c
  rounds-pos = some_rounds c
    where
      some_rounds : (c : Bool) → 1 ≤ rounds c
      some_rounds true = omega arith
      some_rounds false = omega arith

  first_round :
      (l : Led) (now : ℕ) (fs : List (Bool × Bool)) (b : Board)
      → led_task l now ((c, false) ∷ fs) b
        ≡ led_task (update l now c false b).0 (u32 (now + 25)) fs (update l now c false b).1
  unfolding led_task
  first_round l now fs b = refl

  interval-rounds : interval c ≡ 25 * rounds c
  interval-rounds = product c
    where
      product : (c : Bool) → interval c ≡ 25 * rounds c
      product true = refl
      product false = refl

  -- The rounds of one interval change the level once, at the end.
  led_task-interval :
      (l : Led) (fs : List (Bool × Bool)) (b : Board)
      → l.available ≡ true
      → l.changed_ms < 4294967296
      → let now = u32 (l.changed_ms + interval c) in
        led_task l (u32 (l.changed_ms + 25)) (at_rest c (rounds c) ++ fs) b
        ≡ led_task
            (record l { level = not l.level; changed_ms = now })
            (u32 (now + 25))
            fs
            (record b { log = led_put (not l.level) ∷ b.log })
  led_task-interval l fs b on fits =
      let quiet = at_rest c (rounds c - 1) in
      let quarter = u32 (l.changed_ms + 25) in
      let now = u32 (l.changed_ms + interval c) in
      let some_rounds : 1 ≤ rounds c = rounds-pos in
      let waited : led_task l quarter quiet b ≡ (l, b) =
        led_task-early l 25 (rounds c - 1) b on fits (omega (arith, interval-rounds)) in
      let last_time : u32 (quarter + 25 * length quiet) ≡ now =
        omega (arith, length-at_rest c (rounds c - 1), interval-rounds) in
      ap (λ gs. led_task l quarter gs b) (last_round fs)
      ∙ led_task-append l quarter quiet ((c, false) ∷ fs) b (omega arith)
      ∙ ap (λ r. led_task r.0 (u32 (quarter + 25 * length quiet)) ((c, false) ∷ fs) r.1) waited
      ∙ ap (λ t. led_task l t ((c, false) ∷ fs) b) last_time
      ∙ first_round l now fs b
      ∙ ap (λ r. led_task r.0 (u32 (now + 25)) fs r.1) (update-due l b on fits)

  -- At rest the LED blinks: from a change on, in rounds of 25 ms, it changes after each interval, of
  -- 100 ms with a connection and 500 ms without, and at no other time, also across a wrap of the clock;
  -- and the level is what the pin was last given.
  pub led_task-blinks :
      (q r : ℕ) (l : Led) (b : Board)
      → r < rounds c
      → l.available ≡ true
      → l.changed_ms < 4294967296
      → shown b.log ≡ l.level
      → let (l', b') = led_task l (u32 (l.changed_ms + 25)) (at_rest c (q * rounds c + r)) b in
        (l' ≡ record l {
          level = changed q l.level;
          changed_ms = u32 (l.changed_ms + q * interval c);
        })
        × (shown b'.log ≡ changed q l.level)
  led_task-blinks zero r l b hr on fits lit =
      let count : 0 * rounds c + r ≡ r = omega arith in
      let same : u32 (l.changed_ms + 0 * interval c) ≡ l.changed_ms = omega arith in
      let still = led_task-early l 25 r b on fits (omega (arith, interval-rounds)) in
      rw (count, same, still) (refl, lit)
  led_task-blinks (suc q) r l b hr on fits lit =
      let now = u32 (l.changed_ms + interval c) in
      let l' : Led = record l { level = not l.level; changed_ms = now } in
      let b' : Board = record b { log = led_put (not l.level) ∷ b.log } in
      let count : suc q * rounds c + r ≡ rounds c + (q * rounds c + r) = omega arith in
      let later : u32 (now + q * interval c) ≡ u32 (l.changed_ms + suc q * interval c) =
        omega arith in
      let rest = led_task-blinks q r l' b' hr on (omega arith) refl in
      rw
        (
          count,
          at_rest-add c (rounds c) (q * rounds c + r),
          led_task-interval l (at_rest c (q * rounds c + r)) b on fits,
          ← later,
        )
        rest
