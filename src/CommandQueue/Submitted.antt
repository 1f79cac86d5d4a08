-- ===== src/CommandQueue/Submitted.antt =====
-- What `submit_command` and `communication_task` of src/app_tasks.c leave in the queue.
use epi_pico2w_seringue.Prelude.{
  ℕ, zero, suc, ◌≡◌, ◌<◌, refl, sym, ap, ◌∙◌, Bool, true, false, List, [], ◌∷◌, ◌++◌, length,
  if◌then◌else◌, Bool-cases, inl, inr, arith, ltb,
}
use epi_pico2w_seringue.CommandApi.{Command}
use epi_pico2w_seringue.BleService.{Service, take_command, is_stop}
use epi_pico2w_seringue.CommandQueue.{
  QueueOps, IsQueue, queue_length, submit_command, submit_taken, drain, communicate,
}

-- the same on the list of waiting commands: a stop replaces them all, another command is the last
unfoldable pub submitted : Command → List Command → Bool × List Command
submitted c cs =
    if is_stop c.kind
    then (true, c ∷ [])
    else if ltb (length cs) queue_length
    then (true, cs ++ c ∷ [])
    else (false, cs)

module _ {Q : Type 0} (ops : QueueOps Q) (laws : IsQueue ops) where
  -- the result of an operation on the queue, as one on the list
  abbrev seen : Bool × Q → Bool × List Command
  seen (accepted, q) = (accepted, ops.waiting q)

  stop_seen : (c : Command) (q : Q) → seen (ops.send_to_front c (ops.reset q)) ≡ (true, c ∷ [])
  stop_seen c q =
      let empty = laws.reset_empties q in
      let room : length (ops.waiting (ops.reset q)) < queue_length = rw empty (omega arith) in
      let (accepted, waits) = laws.front c (ops.reset q) room in rw (accepted, waits, empty) refl

  -- Submitting a command does to the queue what the list says: a stop is always accepted and is then
  -- the only command, another one is put at the end if there is room, and is refused if not.
  pub submit_command_lem :
      (c : Command) (q : Q)
      → ((submit_command ops c q).0, ops.waiting (submit_command ops c q).1)
        ≡ submitted c (ops.waiting q)
  unfolding submit_command submitted
  submit_command_lem c q = elim (Bool-cases (is_stop c.kind)) [
    | inl stop ↦ rw stop (stop_seen c q)
    | inr no_stop ↦ elim (Bool-cases (ltb (length (ops.waiting q)) queue_length)) [
      | inl room ↦
          let (accepted, waits) = laws.back c q (ground arith) in
          rw (no_stop, room, accepted, waits) refl
      | inr none_left ↦
          let (refused, waits) = laws.full c q (ground arith) in
          rw (no_stop, none_left, refused, waits) refl
    ]
  ]

  -- the loop takes at most one command
  drain-idle :
      (n : ℕ) (ready : Bool) (s : Service) (q : Q)
      → s.has_command ≡ false
      → drain ops n ready s q ≡ (s, q)
  unfolding drain submit_taken take_command
  drain-idle zero ready s q h = refl
  drain-idle (suc n) true s q h = simp h
  drain-idle (suc n) false s q h = refl

  drain-taken :
      (n : ℕ) (s : Service) (q : Q)
      → s.has_command ≡ true
      → drain ops (suc n) true s q
        ≡ (record s { has_command = false }, (submit_command ops s.pending q).1)
  unfolding drain submit_taken take_command
  drain-taken n s q h =
      rw h (
        drain-idle n true (record s { has_command = false }) (submit_command ops s.pending q).1
          refl)

  -- Two rounds of the loop of the communication task are enough: however many more are allowed, it ends
  -- in the same state.
  pub drain-enough :
      (n : ℕ) (ready : Bool) (s : Service) (q : Q)
      → drain ops (suc (suc n)) ready s q ≡ drain ops 2 ready s q
  unfolding drain
  drain-enough n false s q = refl
  drain-enough n true s q = elim (Bool-cases s.has_command) [
    | inl waits ↦ drain-taken (suc n) s q waits ∙ sym (drain-taken 1 s q waits)
    | inr none_left ↦
        drain-idle (suc (suc n)) true s q none_left ∙ sym (drain-idle 2 true s q none_left)
  ]

  -- With a command in the service, a round of the communication task submits it to the queue and leaves
  -- none in the service.
  pub communicate-submits :
      (s : Service) (q : Q)
      → s.has_command ≡ true
      → let (s', q', radio_connected) = communicate ops true s q in
        (ops.waiting q' ≡ (submitted s.pending (ops.waiting q)).1) × (s'.has_command ≡ false)
  unfolding communicate
  communicate-submits s q waits =
      let taken = drain-taken 1 s q waits in
      (
        ap (λ (r : Service × Q). ops.waiting r.1) taken
            ∙ ap (λ (r : Bool × List Command). r.1) (submit_command_lem s.pending q),
        ap (λ (r : Service × Q). r.0.has_command) taken,
      )
