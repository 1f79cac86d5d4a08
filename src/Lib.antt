-- ===== src/Lib.antt =====
-- The firmware of the paste dispenser (a syringe pusher on a Raspberry Pi Pico 2 or Pico 2 W): the motor
-- task and everything below it, and the tasks that bring it commands over USB and BLE.
--
-- How the parts interact. `motor_task` (src/app_tasks.c) runs every 5 ms: it debounces the contacts,
-- executes the commands that wait in the queue, moves the state machine (src/app_state.c) on the edges
-- of the contacts and on the answers of the stepper driver (src/motor_control.c on src/tmc5130.c), and
-- has the supervisor (src/safety.c) judge the driver's status, which may end in the fault state. The
-- settings (src/device_config.c, src/config_store.c) and the counter of activations (src/statistics.c)
-- live in flash. Commands come as lines over USB (`usb_command_task`) and over BLE (src/ble_service.c), are
-- parsed (src/command_api.c) and put in a queue; lines that are queries are answered with a text.
--
-- Files, with the code that they model:
--   AppState        src/app_state.c; AppState/Graph its transition diagram, AppState/Runs sequences of
--                   events
--   Safety          src/safety.c; Safety/Latch, Safety/Run, Safety/Stall its proofs
--   DeviceConfig    src/device_config.c; DeviceConfig/Valid
--   Calibration     src/stallguard_calibration.c; Calibration/Average
--   Buttons         src/buttons.c; Buttons/Debounce
--   StatusLed       src/status_led.c, and `led_task` of src/app_tasks.c; StatusLed/Blink
--   TmcCurrent      src/tmc_current.c; TmcCurrent/Nearest every validated current, by computation
--   Tmc5130         src/tmc5130.c, include/tmc5130.h; Tmc5130/Layout the register bit-fields,
--                   Tmc5130/Defaults the constants, Tmc5130/Reg the addresses, Tmc5130/Fields,
--                   Tmc5130/Frames, Tmc5130/Writes and Tmc5130/Setup the proofs
--   Motor           src/motor_control.c; Motor/Moves what a motion writes to the driver
--   Crc, Flash      the checksum of src/config_store.c and src/statistics.c, include/storage_layout.h;
--                   Crc/Width the bound of the checksum, Flash/Writes which bytes the SDK's calls change,
--                   Flash/Bytes numbers from bytes and back
--   ConfigStore     src/config_store.c; ConfigStore/Newest which sector is written, ConfigStore/Bytes
--                   and ConfigStore/Page the layout in flash, ConfigStore/RoundTrip,
--                   ConfigStore/Reset and ConfigStore/Typed
--   Statistics      src/statistics.c; Statistics/Newest, Statistics/Runs, Statistics/Pages the layout of a
--                   page, Statistics/Scan the loops of `statistics_init`, Statistics/Stored what the
--                   flash holds, Statistics/Advance, Statistics/Recovery and Statistics/Restart
--   CString         the functions of the C library on strings; CString/Words `strtok_r` as the words of a
--                   string, CString/Search and CString/First `strstr`
--   CommandApi      src/command_api.c, include/command_api.h: CommandApi/Names the names of the
--                   settings, CommandApi/Ascii `command_parse_ascii` with CommandApi/Ascii/Grammar the
--                   command language, CommandApi/Ascii/Branches, CommandApi/Ascii/Meaning and
--                   CommandApi/Ascii/Lines,
--                   CommandApi/Json `command_parse_json` with CommandApi/Json/Kinds,
--                   CommandApi/Json/Word, CommandApi/Json/Named and CommandApi/Json/Accepted
--   Query           `app_tasks_format_query` of src/app_tasks.c; Query/Answers, Query/Status
--   CommandQueue    `submit_command` and `communication_task`; CommandQueue/Submitted
--   UsbReader       `usb_command_task`; UsbReader/Lines
--   BleService      src/ble_service.c; BleService/Run sequences of callbacks, BleService/Firmware what it
--                   calls in the other files; BleService/Receive, BleService/Transmit, BleService/Bounds,
--                   BleService/Lines, BleService/Sent and BleService/Stop the proofs; BleService/Advertise
--                   what is advertised
--   EmergencyStop   a stop from USB or from the end of a BLE connection to the motor task
--   App             src/app_tasks.c: the static variables and the helpers; App/Settings
--                   `apply_config_value`, App/Execute `execute`, App/Motion the branch of the loop of
--                   `motor_task` with no conflict, App/Tick the whole body of the loop, App/Start
--                   `app_tasks_start`; App/Accepted, App/Calibrated, App/Consistent,
--                   App/Readings, App/Dose, App/Persisted, App/Typed and App/Quiet the proofs
--   Boot            src/main.c, the end of `app_tasks_start` and `radio_init_task` of src/app_tasks.c, and
--                   `configASSERT` of include/FreeRTOSConfig.h; Boot/Created the tasks that run,
--                   Boot/Priorities their priorities and stacks, Boot/Radio the LED of a board with a
--                   radio
--   Telemetry       the telemetry text of src/app_tasks.c; Telemetry/Text, Telemetry/Format and
--                   Telemetry/Room its proofs
--   Board           the calls of the Pico SDK
--   Float           `float` and `double`; Float/Bits their bytes, Float/Bits/RoundTrip that the bytes of
--                   a value of binary32 give it back
--   Prelude         tests, words of fixed width, integers and lists shared by all files
--   Tests           the assertions of tests/test_main.c on these parts, and the theorems at concrete
--                   inputs
--
-- How the code is represented. A struct is a record, an enum a data type, a function of the C code a
-- function of the same name without its module's prefix. The static variables of src/app_tasks.c and of
-- the files it calls are the record `App`. An operation on the hardware is a function from a `Board` to
-- a result and a `Board`: the board holds the log of all calls of the SDK, and what the devices answer
-- is an arbitrary function of that log. So a theorem about every board is one about every behaviour of
-- the driver chip, of the flash and of `flash_safe_execute`, unless a hypothesis says more: `IsFlash`
-- (erasing and programming change only the bytes in their range), `IsNor` (an erased byte reads as 0xff,
-- and programming gives it its value), `IsWorking` (both, and every attempt is granted) and
-- `IsPipelined` (the chip's data come one datagram late).
--
-- Numbers. Integers are natural numbers with the wrap-around of their width written out; int32_t and
-- int8_t values are integers. `float` and `double` are numbers with the IEEE rounding of binary32 and
-- binary64, to nearest and ties to even, computed exactly: no contraction of a product and a sum is
-- assumed. A cast of a number out of range to an integer, which C leaves undefined, saturates as the
-- conversion instruction of the target does. The length of a number in bits is found with fuel: twice the
-- number of bits of the largest finite magnitude, which no quotient that is rounded exceeds. The padding
-- bytes of the saved settings are 0, as the `memset` of the defaults leaves them.
--
-- Strings are lists of bytes without the closing zero. Three things of other projects are parameters:
-- `strtof` and the text of "%.3f" of the C library, about which nothing is assumed, and the queue of
-- FreeRTOS, with its documented laws (`IsQueue`). The functions of BTstack are calls of a log in
-- `Service`, but for the helper that answers a read, which is a parameter of `read_cb`. The callbacks run
-- one after the other; only `take_around` lets them come between two statements of another task. The
-- loop that takes commands from the BLE service has fuel 2: it takes at most one, since nothing else
-- writes one meanwhile. The calls of FreeRTOS that create the queue and the tasks are in the log of
-- `Kernel`, each with an arbitrary answer; `IsChecked` says when no failure goes unseen.
--
-- Not modelled: `vApplicationIdleHook` of src/main.c, which does nothing, and the other settings of
-- FreeRTOS and BTstack. For the motor task the queue is the list of commands that a period finds, and
-- its period and the clock are free. A call that restarts the microcontroller is a call of the log after which the code
-- goes on.
pub mod App
pub mod AppState
pub mod BleService
pub mod Board
pub mod Boot
pub mod Buttons
pub mod CString
pub mod Calibration
pub mod CommandApi
pub mod CommandQueue
pub mod ConfigStore
pub mod Crc
pub mod DeviceConfig
pub mod EmergencyStop
pub mod Flash
pub mod Float
pub mod Motor
pub mod Prelude
pub mod Query
pub mod Safety
pub mod Statistics
pub mod StatusLed
pub mod Telemetry
pub mod Tests
pub mod Tmc5130
pub mod TmcCurrent
pub mod UsbReader
