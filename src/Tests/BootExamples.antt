-- ===== src/Tests/BootExamples.antt =====
-- The theorems on src/main.c and on the setup of the radio at concrete inputs.
use epi_pico2w_seringue.Prelude.{
  ◌≡◌, ◌≢◌, refl, ◌⊎◌, inr, true, false, [], ◌∷◌, List, ltb, length, if◌then◌else◌, arith,
}
use epi_pico2w_seringue.Boot.{
  Kernel, passed, failed, no_memory, returned, stopped, stdio_init_all, main, radio_init, Call,
}
use epi_pico2w_seringue.Boot.Created.{all_pass, logged, boot_calls, main-runs_all}
use epi_pico2w_seringue.Boot.Radio.{radio_up, radio_init-led}
use epi_pico2w_seringue.BleService
use epi_pico2w_seringue.App.Start.{start}
use epi_pico2w_seringue.StatusLed.{led_task}
use epi_pico2w_seringue.Tests.Data.{pico2w, silent}

-- a heap with room for everything but the last task
abbrev full_heap : Kernel
full_heap = record { log = []; answer = λ log. if ltb 7 (length log) then no_memory else passed }

full_heap-reports : (log : List Call) → full_heap.answer log ≢ failed
full_heap-reports log e = ground arith

main-runs_all_example :
    let log = stdio_init_all ∷ [] in
    ((all_pass full_heap.answer (boot_calls pico2w) log ≡ true)
      × (main pico2w true (silent 0) full_heap ≡ (
        returned (start pico2w (silent 0)),
        record full_heap { log = logged (boot_calls pico2w) log },
      )))
    ⊎ ((all_pass full_heap.answer (boot_calls pico2w) log ≡ false)
        × ((main pico2w true (silent 0) full_heap).0 ≡ stopped))
main-runs_all_example = main-runs_all pico2w true (silent 0) full_heap (inr full_heap-reports)

radio_init-led_example :
    let l = (start pico2w (silent 0)).0.1 in
    (led_task l 25 ((false, true) ∷ []) (silent 1) ≡ (l, silent 1))
    × (radio_init 7 [] BleService.initial l (silent 1)
        ≡ radio_up 7 [] BleService.initial (silent 1))
radio_init-led_example =
    radio_init-led pico2w (silent 0) (silent 1) 25 7 ((false, true) ∷ []) [] BleService.initial refl
