-- ===== src/EmergencyStop.antt =====
-- A stop from its source to the motor task: over USB and at the end of a BLE connection, through the
-- queue, to `execute` (src/app_tasks.c, src/ble_service.c, src/command_api.c).
use epi_pico2w_seringue.Prelude.{
  ℕ, ◌≡◌, ◌≤◌, ◌⊎◌, inl, inr, refl, sym, ap, subst, ◌∙◌, Bool, true, false, none, some, Option,
  ◌&&◌, if◌then◌else◌, List, [], ◌∷◌, ◌++◌, map, length, All, ◌==◌, Bool-cases, Option-cases,
  ==_iff, arith,
}
use epi_pico2w_seringue.Prelude.Int.{pos}
use epi_pico2w_seringue.AppState
use epi_pico2w_seringue.AppState.{is_fault}
use epi_pico2w_seringue.Board.{Act, Board, spi_exchange}
use epi_pico2w_seringue.Motor
use epi_pico2w_seringue.Tmc5130
use epi_pico2w_seringue.Tmc5130.{rx_word}
use epi_pico2w_seringue.Tmc5130.Frames.{address, is_write}
use epi_pico2w_seringue.Tmc5130.Reg.{vmax}
use epi_pico2w_seringue.BleService.{Service, packet_handler, disconnection_complete, is_stop}
use epi_pico2w_seringue.BleService.Run.{Input, run}
use epi_pico2w_seringue.BleService.Stop.{IsOther, run-HasStop}
use epi_pico2w_seringue.CString.{bytes, c_string, upper}
use epi_pico2w_seringue.CString.Words.{words, words-token, first_word}
use epi_pico2w_seringue.CommandApi.{Command, CommandKind}
use epi_pico2w_seringue.CommandApi.Ascii.{plain, parse_ascii}
use epi_pico2w_seringue.CommandApi.Ascii.Grammar
use epi_pico2w_seringue.CommandApi.Ascii.Grammar.{Means}
use epi_pico2w_seringue.CommandApi.Ascii.Meaning.{parse_ascii_iff}
use epi_pico2w_seringue.CommandApi.Json.{parse_json}
use epi_pico2w_seringue.CommandQueue.{QueueOps, IsQueue, communicate}
use epi_pico2w_seringue.CommandQueue.Submitted.{submitted, submit_command_lem, communicate-submits}
use epi_pico2w_seringue.Flash.{Build}
use epi_pico2w_seringue.Float.{Float}
use epi_pico2w_seringue.Query.{Facts, format_query}
use epi_pico2w_seringue.Query.Answers.{parse_ascii-format_query}
use epi_pico2w_seringue.UsbReader.{Parsers, Reader, is_json, feeds}
use epi_pico2w_seringue.UsbReader.Lines.{IsText, feeds-line, run_line-queue}
use epi_pico2w_seringue.App.{App, dispatch, stop_motion}
use epi_pico2w_seringue.App.Execute.{execute, execute_kind}
use epi_pico2w_seringue.App.Tick.{execute_all}

-- the speed that the driver was last sent
abbrev pub last_speed : List Act → Option ℕ
last_speed [] = none
last_speed (spi_exchange f ∷ log) =
    if is_write f && address f == vmax then some (rx_word f) else last_speed log
last_speed (_ ∷ log) = last_speed log

-- the driver's speed is set to 0, the direction is reset, and the machine stops or is in the fault state
abbrev pub IsHalted : App × Board → Type 0
IsHalted (s, b) =
    (last_speed b.log ≡ some 0)
    × (s.direction ≡ pos 0)
    × ((s.machine.state ≡ AppState.stopping) ⊎ (s.machine.state ≡ AppState.fault))

stop-last_speed : (b : Board) → last_speed (Motor.stop b).1.log ≡ some 0
unfolding Motor.stop Tmc5130.stop Tmc5130.write rx_word
stop-last_speed b = refl

stop_motion-state :
    (s : App) (b : Board)
    → let t = (stop_motion s b).0 in
      (t.direction ≡ pos 0)
      × ((t.machine.state ≡ AppState.stopping) ⊎ (t.machine.state ≡ AppState.fault))
unfolding stop_motion dispatch AppState.dispatch
stop_motion-state s b = ground arith

stop_motion-IsHalted : (s : App) (b : Board) → IsHalted (stop_motion s b)
unfolding stop_motion
stop_motion-IsHalted s b = (stop-last_speed b, (stop_motion-state s b).0, (stop_motion-state s b).1)

execute_all-IsHalted :
    (build : Build) (s : App) (now : ℕ) (c : Command) (b : Board)
    → c.kind ≡ CommandKind.stop
    → IsHalted (execute_all build s now (c ∷ []) b)
unfolding execute_all execute execute_kind
execute_all-IsHalted build s now c b h =
    subst (λ k. IsHalted (execute_kind build s c now k b)) (sym h) (stop_motion-IsHalted s b)

submitted-stop :
    (c : Command) (cs : List Command) → c.kind ≡ CommandKind.stop → submitted c cs ≡ (true, c ∷ [])
unfolding submitted
submitted-stop c cs h = let stops : is_stop c.kind ≡ true = ap is_stop h in rw stops refl

brace_first :
    (line : List ℕ) (ws : List (List ℕ))
    → words (c_string (map upper (b'{' ∷ line))) ≡ bytes "STOP" ∷ ws
    → ⊥
unfolding c_string upper first_word bytes
brace_first line ws h =
    let rest = c_string (map upper line) in
    let first = ap first_word (sym (words-token b'{' rest refl) ∙ h) in ground arith

-- a line whose first word is STOP does not begin as a JSON text
is_json-stop :
    (line : List ℕ) (ws : List (List ℕ))
    → words (c_string (map upper line)) ≡ bytes "STOP" ∷ ws
    → is_json line ≡ false
unfolding is_json
is_json-stop [] ws h = refl
is_json-stop (c ∷ line) ws h = elim (Bool-cases (c == b'{')) [
  | inr no_brace ↦ no_brace
  | inl brace ↦ absurd (
      brace_first line ws (
        subst (λ c. words (c_string (map upper (c ∷ line))) ≡ bytes "STOP" ∷ ws)
          ((==_iff c b'{').0 brace) h))
]

-- the functions that the reader calls in the firmware
abbrev pub firmware : (List ℕ → Float) → (Float → List ℕ) → Facts → Parsers
firmware strtof three_decimals facts = record {
  answer = format_query three_decimals facts 768;
  parse_json = parse_json strtof;
  parse_ascii = parse_ascii strtof;
}

not_a_query :
    (strtof : List ℕ → Float) (three_decimals : Float → List ℕ) (facts : Facts) (line : List ℕ)
    (c : Command)
    → parse_ascii strtof line ≡ some c
    → format_query three_decimals facts 768 (c_string line) ≡ none
not_a_query strtof three_decimals facts line c h =
    elim (Option-cases (format_query three_decimals facts 768 (c_string line))) [
      | inl nothing ↦ nothing
      | inr (t, answer) ↦
          let refused = parse_ascii-format_query three_decimals facts 768 strtof line t answer in
          absurd (ground arith)
    ]

module _ {Q : Type 0} (ops : QueueOps Q) (laws : IsQueue ops) where
  -- When a BLE connection ends, whatever callbacks follow before the communication task comes around,
  -- after the motor task has executed the commands that it then finds, the last speed that the driver
  -- was sent is 0, the direction is reset, and the machine is stopping or in the fault state.
  pub disconnected-IsHalted :
      (is : List Input) (v : Service) (q : Q) (build : Build) (s : App) (now : ℕ) (b : Board)
      → All IsOther is
      → let (v', q', radio_connected) =
          communicate ops true (run is (packet_handler disconnection_complete v)) q in
        IsHalted (execute_all build s now (ops.waiting q') b)
  unfolding packet_handler
  disconnected-IsHalted is v q build s now b others =
      let v1 = run is (packet_handler disconnection_complete v) in
      let (waits, stop) =
        run-HasStop is (packet_handler disconnection_complete v) others (refl, refl) in
      let only =
        (communicate-submits ops laws v1 q waits).0
        ∙ ap (λ (r : Bool × List Command). r.1) (submitted-stop v1.pending (ops.waiting q) stop) in
      subst (λ cs. IsHalted (execute_all build s now cs b)) (sym only)
        (execute_all-IsHalted build s now v1.pending b stop)

  -- Over USB, between two lines: a line of 1 to 159 bytes whose first word is STOP, in any letters,
  -- makes a stop the only command in the queue, whatever was in it, and after the motor task has
  -- executed it the last speed that the driver was sent is 0, the direction is reset, and the machine is
  -- stopping or in the fault state.
  pub typed-IsHalted :
      (strtof : List ℕ → Float) (three_decimals : Float → List ℕ) (facts : Facts) (r : Reader Q)
      (line : List ℕ) (ws : List (List ℕ)) (build : Build) (s : App) (now : ℕ) (b : Board)
      → r.line ≡ []
      → All IsText line
      → 1 ≤ length line
      → length line ≤ 159
      → words (c_string (map upper line)) ≡ bytes "STOP" ∷ ws
      → let r' = feeds ops (firmware strtof three_decimals facts) (line ++ b'\n' ∷ []) r in
        (ops.waiting r'.queue ≡ plain CommandKind.stop ∷ [])
        × IsHalted (execute_all build s now (ops.waiting r'.queue) b)
  typed-IsHalted strtof three_decimals facts r line ws build s now b start text few many stop =
      let parsers = firmware strtof three_decimals facts in
      let c = plain CommandKind.stop in
      let full : Reader Q = record r { line = line } in
      let meant = subst (λ v. Means strtof v c) (sym stop) (Grammar.stop ws) in
      let parsed = (parse_ascii_iff strtof line c).1 (few, many, meant) in
      let no_query = not_a_query strtof three_decimals facts line c parsed in
      let queued = run_line-queue ops parsers c full no_query (is_json-stop line ws stop) parsed in
      let only =
        ap Reader.queue (feeds-line ops parsers line r start text few (omega (arith, many)))
        ∙ queued in
      let waits =
        ap ops.waiting only
        ∙ ap (λ (r : Bool × List Command). r.1) (submit_command_lem ops laws c r.queue)
        ∙ ap (λ (r : Bool × List Command). r.1) (submitted-stop c (ops.waiting r.queue) refl) in
      (
        waits,
        subst (λ cs. IsHalted (execute_all build s now cs b)) (sym waits)
            (execute_all-IsHalted build s now c b refl),
      )
