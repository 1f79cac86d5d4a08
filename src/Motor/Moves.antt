-- ===== src/Motor/Moves.antt =====
-- Where `motor_move_relative` of src/motor_control.c sends the axis.
use epi_pico2w_seringue.Prelude.{
  ℕ, suc, ◌+◌, ◌-◌, ◌%◌, ◌<◌, ◌≡◌, ◌⊎◌, refl, ap, subst, ◌∙◌, Bool, true, false, not, List, [], ◌∷◌,
  ◌==◌, leb, ◌≤◌, Bool-cases, inl, inr, arith,
}
use epi_pico2w_seringue.Prelude.Int.{ℤ, pos, negsuc, ◌+ℤ◌, sub_ℕ}
use epi_pico2w_seringue.Board.{Act, Board}
use epi_pico2w_seringue.Float.{Float}
use epi_pico2w_seringue.Tmc5130.{tx_frame, read, position, word_of}
use epi_pico2w_seringue.Tmc5130.Frames.{framed, during, IsPipelined}
use epi_pico2w_seringue.Tmc5130.Reg.{xactual, vmax, rampmode, xtarget}
use epi_pico2w_seringue.Tmc5130.Writes.{Setting, Sends, writes, writes-Sends}
use epi_pico2w_seringue.Motor.{MotorConfig, vel, mm_to_microsteps, signed32, move_relative}

word_of-sub_ℕ :
    (a b : ℕ)
    → word_of (sub_ℕ a b) < 4294967296 × ((word_of (sub_ℕ a b) + b) % 4294967296 ≡ a % 4294967296)
unfolding word_of
word_of-sub_ℕ a b = elim (Bool-cases (leb b a)) [
  | inl under ↦ rw under (ground arith)
  | inr over ↦ rw over (ground arith)
]

signed32-small : (x : ℕ) → x < 2147483648 → signed32 x ≡ pos x
unfolding signed32
signed32-small x h = ground arith

signed32-large : (x : ℕ) → 2147483648 ≤ x → signed32 x ≡ negsuc (4294967295 - x)
unfolding signed32
signed32-large x h = ground arith

split_at : (x : ℕ) → (x < 2147483648) ⊎ (2147483648 ≤ x)
split_at x = ground arith

-- The 32-bit target is the sum of the words, with wrap-around.
word_of-add :
    (x : ℕ) (n : ℤ) → x < 4294967296 → word_of (signed32 x +ℤ n) ≡ (x + word_of n) % 4294967296
unfolding ◌+ℤ◌ word_of
word_of-add x (pos n) h = elim (split_at x) [
  | inl small ↦ rw (signed32-small x small) (omega (arith, word_of-sub_ℕ (x + n) 0))
  | inr large ↦
      rw (signed32-large x large) (omega (arith, word_of-sub_ℕ (0 + n) (suc (4294967295 - x) + 0)))
]
word_of-add x (negsuc n) h = elim (split_at x) [
  | inl small ↦ rw (signed32-small x small) (omega (arith, word_of-sub_ℕ (x + 0) (0 + suc n)))
  | inr large ↦
      rw (signed32-large x large)
        (omega (arith, word_of-sub_ℕ (0 + 0) (suc (4294967295 - x) + suc n)))
]

-- the read of the position, and what the driver's chip holds then
abbrev asked : List Act → List Act
asked log = framed (tx_frame xactual 0 false) log

module _ (content : List Act → ℕ → ℕ) (b : Board) where
  abbrev pub position_word : ℕ
  position_word = content (asked b.log) xactual

  -- the answer to the read is valid
  abbrev pub is_valid : Bool
  is_valid = not ((b.answer (during (tx_frame xactual 0 false) (asked b.log))).b0 == 0xff)

  abbrev pub read_board : Board
  read_board = record b { log = asked (asked b.log) }

  -- the writes of a motion
  abbrev pub motion : MotorConfig → Float → Float → List Setting
  motion cfg mm speed =
      (vmax, vel cfg speed)
      ∷ (rampmode, 0)
      ∷ (xtarget, (position_word + word_of (mm_to_microsteps cfg mm)) % 4294967296)
      ∷ []

  -- On a chip that answers one datagram late and whose registers have 32 bits, a motion by a distance
  -- reads the position. If the answer is valid, it writes the speed, the positioning mode and as the
  -- target the position plus the distance, with the wrap-around of 32 bits, in this order with nothing
  -- between; it makes all the writes and returns true if the chip accepts each, and ends with the first
  -- that is refused and returns false if not. If the answer is not valid, it writes nothing and returns
  -- false.
  pub move_relative-Sends :
      (cfg : MotorConfig) (mm speed : Float)
      → IsPipelined content b
      → position_word < 4294967296
      → ((is_valid ≡ false) × (move_relative cfg mm speed b ≡ (false, read_board)))
        ⊎ ((is_valid ≡ true)
            × Sends (motion cfg mm speed) read_board (move_relative cfg mm speed b))
  unfolding move_relative read position writes
  move_relative-Sends cfg mm speed pipelined fits =
      let n = mm_to_microsteps cfg mm in
      let found : (read xactual b).0.value ≡ position_word =
        pipelined.answers xactual (tx_frame xactual 0 false) b.log (omega arith) in
      let target : word_of (signed32 (read xactual b).0.value +ℤ n)
          ≡ (position_word + word_of n) % 4294967296 =
        ap (λ x. word_of (signed32 x +ℤ n)) found ∙ word_of-add position_word n fits in
      let to : ℕ → List Setting = λ w. (rampmode, 0) ∷ (xtarget, w) ∷ [] in
      let word = word_of (signed32 (read xactual b).0.value +ℤ n) in
      let out = writes (vmax, vel cfg speed) (to word) read_board in
      let sent : Sends ((vmax, vel cfg speed) ∷ to word) read_board out =
        writes-Sends (vmax, vel cfg speed) (to word) read_board in
      elim (Bool-cases is_valid) [
        | inl good ↦
            let goes : Sends (motion cfg mm speed) read_board out =
              subst (λ w. Sends ((vmax, vel cfg speed) ∷ to w) read_board out) target sent in
            inr (good, rw good goes)
        | inr bad ↦ inl (bad, rw bad refl)
      ]
