-- ===== src/Boot.antt =====
-- src/main.c, and in src/app_tasks.c the end of `app_tasks_start` and `radio_init_task`: from the reset
-- to the running tasks. FreeRTOS is a log of calls, each with an arbitrary answer.
pub mod Created
pub mod Priorities
pub mod Radio
use epi_pico2w_seringue.Prelude.{ℕ, ◌*◌, Bool, true, false, ◌||◌, List, [], ◌∷◌, if◌then◌else◌}
use epi_pico2w_seringue.Board.{Board, M}
use epi_pico2w_seringue.Flash.{Build}
use epi_pico2w_seringue.StatusLed
use epi_pico2w_seringue.StatusLed.{Led}
use epi_pico2w_seringue.BleService
use epi_pico2w_seringue.BleService.{Service}
use epi_pico2w_seringue.CommandQueue.{queue_length}
use epi_pico2w_seringue.App.{App}
use epi_pico2w_seringue.App.Start.{start}

-- the functions that become tasks
pub data Entry : Type 0 where
  radio_init_task motor_task communication_task usb_command_task telemetry_task led_task : Entry

-- the arguments of `xTaskCreate`: the depth of the stack is in words
pub record Task : Type 0 where
  pub entry : Entry
  pub stack_depth : ℕ
  pub priority : ℕ

-- the calls of the SDK and of FreeRTOS on the way
pub data Call : Type 0 where
  stdio_init_all : Call
  queue_create : ℕ → Call
  task_create : Task → Call
  start_scheduler : Call
  disable_interrupts : Call
  panic : Call

-- What FreeRTOS does at a call: it succeeds, it returns a failure, or its heap has no room and it calls
-- `vApplicationMallocFailedHook`. A start of the scheduler that succeeds does not come back.
pub data Answer : Type 0 where
  passed failed no_memory : Answer

-- `log`: newest first; `answer`: how the last call of a log goes
pub record Kernel : Type 0 where
  pub log : List Call
  pub answer : List Call → Answer

-- a call of C comes back with a value, or it never does
pub data Outcome (A : Type 0) : Type 0 where
  returned : A → Outcome A
  stopped : Outcome A

abbrev pub K : Type 0 → Type 0
K A = Kernel → Outcome A × Kernel

-- what follows a call: nothing, if it does not come back
unfoldable pub resume : {A B : Type 0} → (A → K B) → Outcome A × Kernel → Outcome B × Kernel
resume f (returned a, k) = f a k
resume f (stopped, k) = (stopped, k)

infixl 5 ◌>>=◌ ◌>>◌
abbrev ◌>>=◌ : {A B : Type 0} → K A → (A → K B) → K B
◌>>=◌ m f k = resume f (m k)

abbrev ◌>>◌ : {B : Type 0} → K (Unit {0}) → K B → K B
m >> n = m >>= λ _. n

abbrev pub pure : {A : Type 0} → A → K A
pure a k = (returned a, k)

-- an endless loop, and everything else that does not come back
abbrev pub halt : {A : Type 0} → K A
halt k = (stopped, k)

unfoldable pub perform : Call → K (Unit {0})
perform c k = (returned tt, record k { log = c ∷ k.log })

-- `vApplicationMallocFailedHook`, and so `vApplicationStackOverflowHook`
unfoldable pub malloc_failed_hook : {A : Type 0} → K A
unfolding resume perform
malloc_failed_hook = do perform disable_interrupts; halt

unfoldable pub answered : Answer → K Bool
unfolding malloc_failed_hook
answered passed = pure true
answered failed = pure false
answered no_memory = malloc_failed_hook

-- a call of FreeRTOS that can fail
unfoldable pub ask : Call → K Bool
unfolding answered
ask c k = let log' = c ∷ k.log in answered (k.answer log') (record k { log = log' })

-- `configASSERT` on a call, by NDEBUG: the call is made either way, and without NDEBUG a result that
-- is false does not get past it
unfoldable pub config_assert : Bool → K Bool → K (Unit {0})
unfolding resume
config_assert ndebug m = do ok ← m; if ndebug || ok then pure tt else halt

-- `configMAX_PRIORITIES` and `configTOTAL_HEAP_SIZE`
abbrev pub max_priorities : ℕ
max_priorities = 32

abbrev pub total_heap_size : ℕ
total_heap_size = 128 * 1024

-- the calls of `xTaskCreate` behind the queue, in order
abbrev pub radio_task : Task
radio_task = record { entry = radio_init_task; stack_depth = 2048; priority = 7 }

abbrev pub later_tasks : List Task
later_tasks =
    record { entry = communication_task; stack_depth = 768; priority = 4 }
    ∷ record { entry = usb_command_task; stack_depth = 768; priority = 4 }
    ∷ record { entry = telemetry_task; stack_depth = 1024; priority = 2 }
    ∷ record { entry = led_task; stack_depth = 384; priority = 1 }
    ∷ []

abbrev pub tasks : List Task
tasks = record { entry = motor_task; stack_depth = 1024; priority = 6 } ∷ later_tasks

unfoldable pub create_all : Bool → List Task → K (Unit {0})
unfolding ask config_assert
create_all ndebug [] = pure tt
create_all ndebug (t ∷ ts) = do config_assert ndebug (ask (task_create t)); create_all ndebug ts

-- the end of `app_tasks_start`: NULL for the queue is false
unfoldable pub create_tasks : Build → Bool → K (Unit {0})
unfolding create_all
create_tasks build ndebug = do
  config_assert ndebug (ask (queue_create queue_length))
  if build.has_radio then config_assert ndebug (ask (task_create radio_task)) else pure tt
  create_all ndebug tasks

-- `main`: when it comes back, the scheduler is running, and the tasks find this state
unfoldable pub main : Build → Bool → Board → K ((App × Led) × Board)
unfolding create_tasks start
main build ndebug board = do
  perform stdio_init_all
  let (found, board') = start build board
  create_tasks build ndebug
  running ← ask start_scheduler
  if running then pure (found, board') else (do perform panic; halt)

-- `radio_init_task`, at the result of `cyw43_arch_init` and the board's number: `radio_ready`, the
-- service and the LED. It deletes itself at the end.
unfoldable pub radio_init : ℕ → List ℕ → Service → Led → M (Bool × Service × Led)
unfolding BleService.init StatusLed.init
radio_init refused id s l b =
    let (radio_ready, s') = BleService.init refused id s in
    let (l', b') = StatusLed.init true l radio_ready b in ((radio_ready, s', l'), b')
