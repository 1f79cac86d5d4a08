-- ===== src/App/Accepted.antt =====
-- What `apply_config_value` of src/app_tasks.c accepts.
use epi_pico2w_seringue.Prelude.{
  ◌≡◌, refl, ◌⊎◌, inl, inr, true, false, not, ◌||◌, Option, none, some, arith, Bool-cases, ap, sym,
  subst, ◌∙◌,
}
use epi_pico2w_seringue.Board.{Board}
use epi_pico2w_seringue.CommandApi.{ConfigParam}
use epi_pico2w_seringue.ConfigStore
use epi_pico2w_seringue.DeviceConfig.{
  DeviceConfig, validate, bad_mechanics, bad_stallguard, currents_ok, motion_ok, travel_ok,
}
use epi_pico2w_seringue.Flash.{Build}
use epi_pico2w_seringue.Float.{Float}
use epi_pico2w_seringue.Motor.{config_valid}
use epi_pico2w_seringue.App.{App}
use epi_pico2w_seringue.App.Readings.{Sets}
use epi_pico2w_seringue.App.Readings.Set.{SetIfAny, with_value-Sets, Sets-stamp}
use epi_pico2w_seringue.App.Settings.{
  motor_config_of, refused, with_value, adopt, apply_config_value,
}

-- the settings with a new sequence number and checksum, as saving gives them
abbrev pub restamped : DeviceConfig → DeviceConfig → DeviceConfig
restamped stored c = record c { sequence = stored.sequence; crc = stored.crc }

-- The settings of `t` are those of `s` with the one parameter at that number, the state is otherwise
-- the same, and the settings pass both validations.
pub record IsAccepted (p : ConfigParam) (x : Float) (s t : App) : Type 0 where
  pub set : Sets p x s.config t.config
  pub state : t ≡ record s { config = t.config }
  pub valid : validate t.config ≡ true
  pub motor_valid : config_valid (motor_config_of t.config) ≡ true

pub validate-restamped : (d c : DeviceConfig) → validate c ≡ true → validate (restamped d c) ≡ true
unfolding validate bad_mechanics bad_stallguard currents_ok motion_ok travel_ok
validate-restamped d c h = h

pub save-restamped :
    (build : Build) (c : DeviceConfig) (b : Board)
    → validate c ≡ true
    → (ConfigStore.save build c b).0.1 ≡ restamped (ConfigStore.save build c b).0.1 c
unfolding ConfigStore.save
save-restamped build c b h = rw h refl

-- the same of the end of the function, at any settings `o`
record IsAdopted (o : Option DeviceConfig) (s t : App) : Type 0 where
  next : DeviceConfig
  changed : o ≡ some next
  state : t ≡ record s { config = restamped t.config next }
  valid : validate t.config ≡ true
  motor_valid : config_valid (motor_config_of t.config) ≡ true

adopt-IsAdopted :
    (build : Build) (s : App) (o : Option DeviceConfig) (b : Board)
    → let ((ok, t), b') = adopt build s o b in
      ((ok ≡ true) × IsAdopted o s t) ⊎ ((ok ≡ false) × (t ≡ s))
unfolding adopt motor_config_of
adopt-IsAdopted build s none b = inr (refl, refl)
adopt-IsAdopted build s (some next) b =
    elim (Bool-cases (not (validate next) || not (config_valid (motor_config_of next)))) [
      | inl bad ↦ rw bad (inr (refl, refl))
      | inr good ↦
          let v : validate next ≡ true = ground arith in
          let m : config_valid (motor_config_of next) ≡ true = ground arith in
          let stored = (ConfigStore.save build next b).0.1 in
          let stamp : stored ≡ restamped stored next = save-restamped build next b v in
          elim (Bool-cases (ConfigStore.save build next b).0.0) [
            | inl yes' ↦
                rw (good, yes')
                  (inl (
                    refl,
                    record {
                      next = next;
                      changed = refl;
                      state = ap (λ c. record s { config = c }) stamp;
                      valid = rw stamp (validate-restamped stored next v);
                      motor_valid = rw stamp m;
                    },
                  ))
            | inr no' ↦ rw (good, no') (inr (refl, refl))
          ]
    ]

-- A setting that is adopted from the `switch` is accepted.
adopted-IsAccepted :
    (p : ConfigParam) (x : Float) (s t : App)
    → refused p x ≡ false
    → IsAdopted (with_value p x s.config) s t
    → IsAccepted p x s t
adopted-IsAccepted p x s t inside a =
    let set : Sets p x s.config a.next =
      subst (SetIfAny p x s.config) a.changed (with_value-Sets p x s.config inside) in
    let config : t.config ≡ restamped t.config a.next = ap App.config a.state in
    record {
      set =
          subst (Sets p x s.config) (sym config)
            (Sets-stamp p x s.config a.next t.config.sequence t.config.crc set);
      state = a.state ∙ ap (λ c. record s { config = c }) (sym config);
      valid = a.valid;
      motor_valid = a.motor_valid;
    }

-- A setting is accepted only with settings that pass both validations, and then its parameter reads as
-- exactly the number that was given, so that no cast has lost anything, and every other parameter and
-- the rest of the settings as before, but for the sequence number and the checksum, and nothing else of
-- the state changes; otherwise nothing of the state changes.
pub apply_config_value-IsAccepted :
    (build : Build) (s : App) (p : ConfigParam) (x : Float) (b : Board)
    → let ((ok, t), b') = apply_config_value build s p x b in
      ((ok ≡ true) × IsAccepted p x s t) ⊎ ((ok ≡ false) × (t ≡ s))
unfolding apply_config_value
apply_config_value-IsAccepted build s p x b = elim (Bool-cases (refused p x)) [
  | inl out ↦ rw out (inr (refl, refl))
  | inr inside ↦ rw inside (elim (adopt-IsAdopted build s (with_value p x s.config) b) [
    | inl a ↦ inl (a.0, adopted-IsAccepted p x s _ inside a.1)
    | inr r ↦ inr r
  ])
]
