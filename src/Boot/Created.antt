-- ===== src/Boot/Created.antt =====
-- Which tasks the scheduler finds when `main` of src/main.c starts it.
use epi_pico2w_seringue.Prelude.{
  ◌≡◌, ◌≢◌, ◌⊎◌, inl, inr, refl, ◌∙◌, arith, Bool, true, false, ◌&&◌, List, [], ◌∷◌, ◌++◌,
  Bool-cases, if◌then◌else◌,
}
use epi_pico2w_seringue.Board.{Board}
use epi_pico2w_seringue.Flash.{Build}
use epi_pico2w_seringue.App.Start.{start}
use epi_pico2w_seringue.CommandQueue.{queue_length}
use epi_pico2w_seringue.Boot.{
  Task, Call, stdio_init_all, queue_create, task_create, start_scheduler, Answer, passed, failed,
  no_memory, Kernel, Outcome, returned, stopped, K, resume, perform, answered, ask, config_assert,
  radio_task, tasks, create_all, create_tasks, main, malloc_failed_hook, pure, halt, panic,
}

-- What the checks of the boot rely on: NDEBUG is off, or FreeRTOS reports no failure but to
-- `vApplicationMallocFailedHook`, as `configUSE_MALLOC_FAILED_HOOK` of include/FreeRTOSConfig.h asks.
abbrev pub IsChecked : Bool → Kernel → Type 0
IsChecked ndebug k = (ndebug ≡ false) ⊎ ((log : List Call) → k.answer log ≢ failed)

abbrev pub is_passed : Answer → Bool
is_passed passed = true
is_passed failed = false
is_passed no_memory = false

-- calls in order, on top of a log
abbrev pub logged : List Call → List Call → List Call
logged [] log = log
logged (c ∷ cs) log = logged cs (c ∷ log)

-- all of them pass
abbrev pub all_pass : (List Call → Answer) → List Call → List Call → Bool
all_pass answer [] log = true
all_pass answer (c ∷ cs) log = is_passed (answer (c ∷ log)) && all_pass answer cs (c ∷ log)

-- a step does what all its calls ask for if they pass, and never comes back if one does not
abbrev Succeeds : {A : Type 0} → A → List Call → K A → Kernel → Type 0
Succeeds a cs m k =
    ((all_pass k.answer cs k.log ≡ true) × (m k ≡ (returned a, record k { log = logged cs k.log })))
    ⊎ ((all_pass k.answer cs k.log ≡ false) × ((m k).0 ≡ stopped))

config_assert-Succeeds :
    (ndebug : Bool) (c : Call) (k : Kernel)
    → IsChecked ndebug k
    → Succeeds tt (c ∷ []) (config_assert ndebug (ask c)) k
unfolding config_assert ask answered resume malloc_failed_hook perform
config_assert-Succeeds ndebug c k h = at_answer ndebug h (k.answer (c ∷ k.log)) refl
  where
    at_answer :
        (n : Bool)
        → IsChecked n k
        → (a : Answer) → k.answer (c ∷ k.log) ≡ a
        → Succeeds tt (c ∷ []) (config_assert n (ask c)) k
    at_answer true h passed e = inl (rw e refl, rw e refl)
    at_answer false h passed e = inl (rw e refl, rw e refl)
    at_answer n (inl off) failed e = inr (rw e refl, rw (e, off) refl)
    at_answer n (inr never) failed e = absurd (never (c ∷ k.log) e)
    at_answer n h no_memory e = inr (rw e refl, rw e refl)

resume-stopped :
    {A B : Type 0} (f : A → K B) (r : Outcome A × Kernel) → r.0 ≡ stopped → (resume f r).0 ≡ stopped
unfolding resume
resume-stopped f (returned a, k) h = cc
resume-stopped f (stopped, k) h = refl

-- one step in front of others
then-Succeeds :
    {A B : Type 0} (a : A) (b : B) (c : Call) (cs : List Call) (m : K A) (f : A → K B) (k : Kernel)
    → Succeeds a (c ∷ []) m k
    → Succeeds b cs (f a) (record k { log = c ∷ k.log })
    → Succeeds b (c ∷ cs) (λ k. resume f (m k)) k
unfolding resume
then-Succeeds a b c cs m f k (inr (fails, ends)) second =
    let bad : is_passed (k.answer (c ∷ k.log)) ≡ false = ground arith in
    inr (rw bad refl, resume-stopped f (m k) ends)
then-Succeeds a b c cs m f k (inl (passes, goes)) second =
    let good : is_passed (k.answer (c ∷ k.log)) ≡ true = ground arith in rw (good, goes) second

-- the calls that create tasks
abbrev pub task_calls : List Task → List Call
task_calls [] = []
task_calls (t ∷ ts) = task_create t ∷ task_calls ts

create_all-Succeeds :
    (ndebug : Bool) (ts : List Task) (k : Kernel)
    → IsChecked ndebug k
    → Succeeds tt (task_calls ts) (create_all ndebug ts) k
unfolding create_all
create_all-Succeeds ndebug [] k h = inl (refl, refl)
create_all-Succeeds ndebug (t ∷ ts) k h =
    then-Succeeds tt tt (task_create t) (task_calls ts) (config_assert ndebug (ask (task_create t)))
      (λ _. create_all ndebug ts) k (config_assert-Succeeds ndebug (task_create t) k h)
      (create_all-Succeeds ndebug ts (record k { log = task_create t ∷ k.log }) h)

-- the tasks of a build, in the order in which they are created
abbrev pub tasks_of : Build → List Task
tasks_of build = if build.has_radio then radio_task ∷ tasks else tasks

abbrev queue : Call
queue = queue_create queue_length

create_tasks-Succeeds :
    (build : Build) (ndebug : Bool) (k : Kernel)
    → IsChecked ndebug k
    → Succeeds tt (queue ∷ task_calls (tasks_of build)) (create_tasks build ndebug) k
unfolding create_tasks resume
create_tasks-Succeeds build ndebug k h = elim (Bool-cases build.has_radio) [
  | inl radio ↦ rw radio (
      then-Succeeds tt tt queue (task_calls (radio_task ∷ tasks)) (config_assert ndebug (ask queue))
        (λ _ k.
          resume (λ _. create_all ndebug tasks)
            (config_assert ndebug (ask (task_create radio_task)) k))
        k (config_assert-Succeeds ndebug queue k h)
        (create_all-Succeeds ndebug (radio_task ∷ tasks) (record k { log = queue ∷ k.log }) h))
  | inr none ↦ rw none (
      then-Succeeds tt tt queue (task_calls tasks) (config_assert ndebug (ask queue))
        (λ _. create_all ndebug tasks) k (config_assert-Succeeds ndebug queue k h)
        (create_all-Succeeds ndebug tasks (record k { log = queue ∷ k.log }) h))
]

all_pass-append :
    (answer : List Call → Answer) (cs ds log : List Call)
    → all_pass answer (cs ++ ds) log
      ≡ (all_pass answer cs log && all_pass answer ds (logged cs log))
all_pass-append answer [] ds log = refl
all_pass-append answer (c ∷ cs) ds log = elim (Bool-cases (is_passed (answer (c ∷ log)))) [
  | inl good ↦ rw good (all_pass-append answer cs ds (c ∷ log))
  | inr bad ↦ rw bad refl
]

logged-append : (cs ds log : List Call) → logged (cs ++ ds) log ≡ logged ds (logged cs log)
logged-append [] ds log = refl
logged-append (c ∷ cs) ds log = logged-append cs ds (c ∷ log)

-- steps behind steps
append-Succeeds :
    {A B : Type 0} (a : A) (b : B) (cs ds : List Call) (m : K A) (f : A → K B) (k : Kernel)
    → Succeeds a cs m k
    → Succeeds b ds (f a) (record k { log = logged cs k.log })
    → Succeeds b (cs ++ ds) (λ k. resume f (m k)) k
unfolding resume
append-Succeeds a b cs ds m f k (inr (fails, ends)) second =
    inr (all_pass-append k.answer cs ds k.log ∙ rw fails refl, resume-stopped f (m k) ends)
append-Succeeds a b cs ds m f k (inl (passes, goes)) (inl (pass, go)) = inl (
  all_pass-append k.answer cs ds k.log ∙ rw (passes, pass),
  rw (goes, logged-append cs ds k.log) go,
)
append-Succeeds a b cs ds m f k (inl (passes, goes)) (inr (fails, ends)) =
    inr (all_pass-append k.answer cs ds k.log ∙ rw (passes, fails), rw goes ends)

-- the end of `main`
abbrev finish : {A : Type 0} → A → Bool → K A
finish a running = if running then pure a else (λ k. resume (λ _. halt) (perform panic k))

finish-Succeeds :
    {A : Type 0} (a : A) (k : Kernel)
    → Succeeds a (start_scheduler ∷ []) (λ k. resume (finish a) (ask start_scheduler k)) k
unfolding ask answered resume malloc_failed_hook perform
finish-Succeeds a k = at_answer (k.answer (start_scheduler ∷ k.log)) refl
  where
    at_answer :
        (x : Answer)
        → k.answer (start_scheduler ∷ k.log) ≡ x
        → Succeeds a (start_scheduler ∷ []) (λ k. resume (finish a) (ask start_scheduler k)) k
    at_answer passed e = inl (rw e refl, rw e refl)
    at_answer failed e = inr (rw e refl, rw e refl)
    at_answer no_memory e = inr (rw e refl, rw e refl)

-- what `main` asks FreeRTOS for, in order
abbrev pub boot_calls : Build → List Call
boot_calls build = queue_create queue_length ∷ (task_calls (tasks_of build) ++ start_scheduler ∷ [])

-- The scheduler runs with the state that `app_tasks_start` has set up, the queue and every task of the
-- build, created in order, exactly if FreeRTOS passes all the calls; if one does not pass, nothing runs.
-- NDEBUG is off, or every failure to create something is reported to `vApplicationMallocFailedHook`.
pub main-runs_all :
    (build : Build) (ndebug : Bool) (board : Board) (k : Kernel)
    → IsChecked ndebug k
    → let log = stdio_init_all ∷ k.log in
      ((all_pass k.answer (boot_calls build) log ≡ true)
        × (main build ndebug board k
            ≡ (returned (start build board), record k { log = logged (boot_calls build) log })))
      ⊎ ((all_pass k.answer (boot_calls build) log ≡ false)
          × ((main build ndebug board k).0 ≡ stopped))
unfolding main resume perform
main-runs_all build ndebug board k h =
    let k' : Kernel = record k { log = stdio_init_all ∷ k.log } in
    let calls = queue ∷ task_calls (tasks_of build) in
    append-Succeeds tt (start build board) calls (start_scheduler ∷ []) (create_tasks build ndebug)
      (λ _ k. resume (finish (start build board)) (ask start_scheduler k)) k'
      (create_tasks-Succeeds build ndebug k' h)
      (finish-Succeeds (start build board) (record k' { log = logged calls k'.log }))
