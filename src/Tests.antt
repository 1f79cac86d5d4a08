-- ===== src/Tests.antt =====
-- Checks of the definitions at the inputs of tests/test_main.c, and the witnesses of the theorems.
mod BootExamples
mod FlashExamples
mod Host
mod Data
mod AppExamples
mod SafetyExamples
mod DriverExamples
mod SettingsExamples
mod TelemetryExamples
mod Lines
mod CommandHost
mod CommandExamples
mod BleExamples
mod StopExamples
