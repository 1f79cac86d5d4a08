-- ===== src/CommandQueue.antt =====
-- The command queue of src/app_tasks.c: `submit_command` and `communication_task`. The queue is
-- FreeRTOS's: its functions are an interface, with what its documentation says as laws.
pub mod Submitted
use epi_pico2w_seringue.Prelude.{
  ℕ, zero, suc, ◌≡◌, ◌≤◌, ◌<◌, Bool, true, false, ◌&&◌, Option, none, some, List, [], ◌∷◌, ◌++◌,
  length, if◌then◌else◌,
}
use epi_pico2w_seringue.CommandApi.{Command, CommandKind}
use epi_pico2w_seringue.BleService.{Service, take_command, connected, is_stop}

-- `COMMAND_QUEUE_LENGTH`
abbrev pub queue_length : ℕ
queue_length = 8

-- `xQueueReset`, `xQueueSendToFront` and `xQueueSendToBack` without waiting, where true is pdTRUE;
-- `waiting`: the commands in the order in which `xQueueReceive` takes them
pub record QueueOps (Q : Type 0) : Type 0 where
  pub reset : Q → Q
  pub send_to_front : Command → Q → Bool × Q
  pub send_to_back : Command → Q → Bool × Q
  pub waiting : Q → List Command

-- A queue of `queue_length` places: a reset empties it; sending succeeds if there is room, and then
-- adds the command at the front or at the back, and fails and changes nothing if there is none.
pub record IsQueue {Q : Type 0} (ops : QueueOps Q) : Type 0 where
  pub reset_empties : (q : Q) → ops.waiting (ops.reset q) ≡ []
  pub front :
      (c : Command) (q : Q)
      → length (ops.waiting q) < queue_length
      → ((ops.send_to_front c q).0 ≡ true)
        × (ops.waiting (ops.send_to_front c q).1 ≡ c ∷ ops.waiting q)
  pub back :
      (c : Command) (q : Q)
      → length (ops.waiting q) < queue_length
      → ((ops.send_to_back c q).0 ≡ true)
        × (ops.waiting (ops.send_to_back c q).1 ≡ ops.waiting q ++ c ∷ [])
  pub full :
      (c : Command) (q : Q)
      → queue_length ≤ length (ops.waiting q)
      → ((ops.send_to_back c q).0 ≡ false) × (ops.waiting (ops.send_to_back c q).1 ≡ ops.waiting q)

module _ {Q : Type 0} (ops : QueueOps Q) where
  -- `submit_command`
  unfoldable pub submit_command : Command → Q → Bool × Q
  submit_command c q =
      if is_stop c.kind then ops.send_to_front c (ops.reset q) else ops.send_to_back c q

  submit_taken : Option Command × Service → Q → Option (Service × Q)
  unfolding submit_command
  submit_taken (none, s) q = none
  submit_taken (some c, s) q = some (s, (submit_command c q).1)

  -- `while(radio_ready&&ble_service_take_command(&command))submit_command(&command)`, at most `n` times
  unfoldable pub drain : ℕ → Bool → Service → Q → Service × Q
  unfolding submit_taken take_command
  drain zero radio_ready s q = (s, q)
  drain (suc n) radio_ready s q =
      if radio_ready
      then elim (submit_taken (take_command s) q) [
        | none ↦ (s, q)
        | some (s', q') ↦ drain n radio_ready s' q'
      ]
      else (s, q)

  -- the body of the loop of `communication_task` with a radio: the service, the queue, `radio_connected`
  unfoldable pub communicate : Bool → Service → Q → Service × Q × Bool
  unfolding drain connected
  communicate radio_ready s q =
      let (s', q') = drain 2 radio_ready s q in (s', q', radio_ready && connected s')
