-- ===== src/App/Quiet/Driver.antt =====
-- The driver and flash operations that are quiet: reads, and writes of registers that move nothing.
use epi_pico2w_seringue.Prelude.{
  ℕ, ◌≡◌, refl, Bool, true, false, if◌then◌else◌, ◌||◌, List, ◌∷◌, Bool-cases, inl, inr,
}
use epi_pico2w_seringue.Prelude.Int.{ℤ, pos, negsuc, ltb_ℤ}
use epi_pico2w_seringue.Board.{
  Board, M, pure, Grant, granted, late, refused, flash_safe_execute, flash_attempt, granted_run,
}
use epi_pico2w_seringue.ConfigStore
use epi_pico2w_seringue.DeviceConfig.{DeviceConfig, validate}
use epi_pico2w_seringue.Flash.{Build}
use epi_pico2w_seringue.Motor
use epi_pico2w_seringue.Statistics
use epi_pico2w_seringue.Tmc5130
use epi_pico2w_seringue.Tmc5130.{tx_frame, rx_word}
use epi_pico2w_seringue.Tmc5130.Reg
use epi_pico2w_seringue.App.Quiet.{
  drives, same, more, Grows-trans, Quiet, Quiet-pure, Quiet-if, Quiet-bind, Quiet-and_then,
  Quiet-perform,
}

-- a register write that drives nothing
Quiet-write : (r v : ℕ) → drives (tx_frame r v true) ≡ false → Quiet (Tmc5130.write r v)
unfolding Tmc5130.write
Quiet-write r v h = record { at = λ b. more tt (more h (more tt same)) }

-- a read of any register below 128
Quiet-read : (r : ℕ) → drives (tx_frame r 0 false) ≡ false → Quiet (Tmc5130.read r)
unfolding Tmc5130.read
Quiet-read r h = record { at = λ b. more tt (more h (more tt (more tt (more h (more tt same))))) }

pub Quiet-stop : Quiet Motor.stop
unfolding Motor.stop Tmc5130.stop drives tx_frame
Quiet-stop = Quiet-write Reg.vmax 0 refl

pub Quiet-configure_stallguard : (on : Bool) (t : ℤ) → Quiet (Motor.configure_stallguard on t)
unfolding Motor.configure_stallguard Tmc5130.configure_stallguard drives tx_frame
Quiet-configure_stallguard false t =
    Quiet-and_then (Tmc5130.write Reg.tcoolthrs _) (Tmc5130.write Reg.coolconf _)
      (Quiet-write Reg.tcoolthrs _ refl) (Quiet-write Reg.coolconf _ refl)
Quiet-configure_stallguard true t =
    Quiet-if (ltb_ℤ t (negsuc 63) || ltb_ℤ (pos 63) t) (pure false) _ (λ e. Quiet-pure false)
      (λ e.
        Quiet-and_then (Tmc5130.write Reg.coolconf _) (Tmc5130.write Reg.tcoolthrs _)
          (Quiet-write Reg.coolconf _ refl) (Quiet-write Reg.tcoolthrs _ refl))

pub Quiet-position_steps : Quiet Motor.position_steps
unfolding Motor.position_steps drives tx_frame
Quiet-position_steps =
    Quiet-bind (Tmc5130.read Reg.xactual) _ (Quiet-read Reg.xactual refl)
      (λ a. Quiet-pure (Motor.signed32 a.value))

granted_run-lem : (g : Grant) (m : M Unit) → Quiet m → Quiet (granted_run g m)
unfolding granted_run
granted_run-lem granted m h = Quiet-bind m (λ _. pure true) h (λ _. Quiet-pure true)
granted_run-lem late m h = Quiet-bind m (λ _. pure false) h (λ _. Quiet-pure false)
granted_run-lem refused m h = Quiet-pure false

-- An attempt to write the flash is as quiet as what it runs.
pub Quiet-flash : (m : M Unit) → Quiet m → Quiet (flash_safe_execute m)
unfolding flash_safe_execute
Quiet-flash m h = record {
  at = λ b.
      let asked : Board = record b { log = flash_attempt ∷ b.log } in
      Grows-trans (more tt same) ((granted_run-lem (b.grant asked.log) m h).at asked);
}

pub Quiet-factory_reset : (build : Build) → Quiet (ConfigStore.factory_reset build)
unfolding ConfigStore.factory_reset
Quiet-factory_reset build = Quiet-flash _ (Quiet-perform _ tt)

pub Quiet-statistics_reset :
    (build : Build) (st : Statistics.Statistics) → Quiet (Statistics.factory_reset build st)
unfolding Statistics.factory_reset
Quiet-statistics_reset build st =
    Quiet-bind (flash_safe_execute _) _ (Quiet-flash _ (Quiet-perform _ tt))
      (λ ok. Quiet-pure (ok, (if ok then Statistics.cleared else st)))

Quiet-config_write : (offset : ℕ) (page : List ℕ) → Quiet (ConfigStore.do_write offset page)
unfolding ConfigStore.do_write
Quiet-config_write offset page = record { at = λ b. more tt (more tt same) }

pub Quiet-save : (build : Build) (c : DeviceConfig) → Quiet (ConfigStore.save build c)
unfolding ConfigStore.save
Quiet-save build c = record {
  at = λ b. elim (Bool-cases (validate c)) [
    | inl y ↦ rw y ((Quiet-flash _ (Quiet-config_write _ _)).at b)
    | inr n ↦ rw n same
  ];
}
