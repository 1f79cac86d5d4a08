-- ===== src/Boot/Priorities.antt =====
-- The priorities and the stacks of the tasks of src/app_tasks.c, against include/FreeRTOSConfig.h.
use epi_pico2w_seringue.Prelude.{
  ℕ, ◌+◌, ◌*◌, ◌<◌, ◌≤◌, ◌≡◌, ◌⊎◌, inl, inr, refl, arith, List, [], ◌∷◌, All, Bool-cases,
}
use epi_pico2w_seringue.Flash.{Build}
use epi_pico2w_seringue.Boot.{
  radio_init_task, motor_task, Task, max_priorities, total_heap_size, later_tasks, tasks,
}
use epi_pico2w_seringue.Boot.Created.{tasks_of}

-- the bytes of the stacks of some tasks
abbrev pub stack_bytes : List Task → ℕ
stack_bytes [] = 0
stack_bytes (t ∷ ts) = t.stack_depth * 4 + stack_bytes ts

-- a priority that FreeRTOS has, and one below that of the motor task but for the radio's setup, which
-- ends, and the motor task itself
abbrev IsBehindMotor : Task → Type 0
IsBehindMotor t =
    (t.priority < max_priorities)
    × ((t.entry ≡ radio_init_task) ⊎ (t.entry ≡ motor_task) ⊎ (t.priority < 6))

low-IsBehindMotor : (ts : List Task) → All (λ t. t.priority < 6) ts → All IsBehindMotor ts
low-IsBehindMotor [] h = tt
low-IsBehindMotor (t ∷ ts) (h, hs) = ((omega arith, inr (inr h)), low-IsBehindMotor ts hs)

tasks-IsBehindMotor : All IsBehindMotor tasks
tasks-IsBehindMotor = (
  (omega arith, inr (inl refl)),
  low-IsBehindMotor later_tasks (omega arith, (omega arith, (omega arith, (omega arith, tt)))),
)

-- In every build the motor task preempts all others once the radio is set up, and the stacks fit in a
-- fifth of the heap.
tasks_of-IsBehindMotor :
    (build : Build)
    → All IsBehindMotor (tasks_of build) × (5 * stack_bytes (tasks_of build) ≤ total_heap_size)
tasks_of-IsBehindMotor build = elim (Bool-cases build.has_radio) [
  | inl radio ↦ rw radio (((omega arith, inl refl), tasks-IsBehindMotor), omega arith)
  | inr none ↦ rw none (tasks-IsBehindMotor, omega arith)
]
