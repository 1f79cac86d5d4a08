-- ===== src/Query/Status.antt =====
-- The answer to STATUS of `app_tasks_format_query` (src/app_tasks.c), with the buffers of its callers.
use epi_pico2w_seringue.Prelude.{
  ℕ, ◌-◌, ◌≡◌, ◌≤◌, refl, ap, true, some, List, ◌++◌, map, length, take-all, arith,
}
use epi_pico2w_seringue.CString.{bytes, lower, same}
use epi_pico2w_seringue.CString.Search.{same_sound}
use epi_pico2w_seringue.Float.{Float}
use epi_pico2w_seringue.Telemetry.Format.{telemetry, text_of}
use epi_pico2w_seringue.Telemetry.Room.{format_telemetry-whole, length-telemetry}
use epi_pico2w_seringue.Query.{same_letters, cut, Facts, status_text, format_query}

-- the answer up to its end
abbrev pub status_answer : Facts → List ℕ
status_answer f = text_of (telemetry f.build f.radio f.snapshot) ++ bytes "\nOK\n"

status_text-whole :
    (f : Facts) → length (bytes f.snapshot.unload_result) ≤ 12 → status_text f 768 ≡ status_answer f
unfolding status_text cut bytes
status_text-whole f h =
    let shown = format_telemetry-whole f.build f.radio 768 f.snapshot h (omega arith) in
    let size = length-telemetry f.build f.radio f.snapshot h in
    let text = text_of (telemetry f.build f.radio f.snapshot) in
    rw shown
      (ap (text ++◌) (take-all (768 - length text - 1) (bytes "\nOK\n") (omega (arith, size))))

-- A STATUS, in any letters, is answered over USB and over BLE with the whole telemetry and an OK, with a
-- result of the last unloading of at most 12 bytes, as all of them are.
pub format_query-status :
    (three_decimals : Float → List ℕ) (f : Facts) (command : List ℕ)
    → same_letters command (bytes "STATUS") ≡ true
    → length (bytes f.snapshot.unload_result) ≤ 12
    → format_query three_decimals f 768 command ≡ some (status_answer f)
unfolding format_query same_letters bytes lower same
format_query-status three_decimals f command asked h =
    let letters = same_sound (map lower command) (map lower (bytes "STATUS")) asked in
    rw (letters, status_text-whole f h) refl
