-- ===== src/Recovery/Servo.antt =====
-- The separation and deployment servos of the recovery board (fw-recovery-board/app/src/servo.rs) and
-- their tasks (fw-recovery-board/app/src/actuator_control.rs). Floats are a parameter.
pub mod Targets
mod Examples
use asteria_firmware.Prelude.{
  ℕ, Bool, true, false, List, [], ◌∷◌, Option, none, some, if◌then◌else◌,
}

-- What the servos use of `f32`; `tenths n` is the literal n / 10.
pub record ServoFloat : Type 1 where
  pub Carrier : Type 0
  pub tenths : ℕ → Carrier
  pub lt : Carrier → Carrier → Bool
  pub add : Carrier → Carrier → Carrier
  pub sub : Carrier → Carrier → Carrier
  pub mul : Carrier → Carrier → Carrier
  pub div : Carrier → Carrier → Carrier
  pub of_u32 : ℕ → Carrier
  pub to_u32 : Carrier → ℕ

pub data ServoError : Type 0 where
  invalid_angle not_enabled : ServoError

-- The variants of the external `ActuatorStatus` that the servos name.
pub data ActuatorStatus : Type 0 where
  power_on connected not_connected : ActuatorStatus

-- `Servo`: `running` tells whether its PWM channel is enabled, `duties` holds the duty cycles that were
-- set, the latest first, `actuator_presence` is the level of the input.
pub record Servo : Type 0 where
  pub running : Bool
  pub duties : List ℕ
  pub max_duty : ℕ
  pub actuator_presence : Bool
  pub active : Bool

pub record RecoveryActuator : Type 0 where
  pub act1 : Servo
  pub act2 : Servo
  pub act_pwr : Bool
  pub active : Bool

-- `Servo::new`, with what its channel and its input are in.
unfoldable pub new_servo : Bool → List ℕ → ℕ → Bool → Servo
new_servo running duties max_duty level = record {
  running = running;
  duties = duties;
  max_duty = max_duty;
  actuator_presence = level;
  active = false;
}

-- `RecoveryActuator::new`, with the level of the supply pin.
unfoldable pub new_actuator : Servo → Servo → Bool → RecoveryActuator
new_actuator act1 act2 act_pwr = record {
  act1 = act1;
  act2 = act2;
  act_pwr = act_pwr;
  active = false;
}

abbrev pub enable : Servo → Servo
enable s = record s { running = true; active = true }

abbrev pub disable : Servo → Servo
disable s = record s { running = false; active = false }

abbrev pub presence : Bool → ActuatorStatus
presence true = connected
presence false = not_connected

-- `Servo::get_actuator_status`.
unfoldable pub servo_status : Servo → ActuatorStatus
servo_status s = presence s.actuator_presence

unfoldable pub activate_servo : RecoveryActuator → RecoveryActuator
activate_servo a = record a {
  act1 = enable a.act1;
  act2 = enable a.act2;
  act_pwr = true;
  active = true;
}

unfoldable pub deactivate_servo : RecoveryActuator → RecoveryActuator
deactivate_servo a = record a {
  act1 = disable a.act1;
  act2 = disable a.act2;
  act_pwr = false;
  active = false;
}

unfoldable pub get_actuator_status : RecoveryActuator → ActuatorStatus × ActuatorStatus
get_actuator_status a =
    if a.active then (power_on, power_on) else (servo_status a.act1, servo_status a.act2)

-- `SEP_DEPL_FREQ`, in Hertz.
abbrev sep_depl_freq : ℕ
sep_depl_freq = 333

pub data ServoTargetState : Type 0 where
  powered_off powered_on actuated : ServoTargetState

-- `ServoTargetState::powered`.
unfoldable pub powered : Bool → ServoTargetState
powered true = powered_on
powered false = powered_off

module _ (f : ServoFloat) where
  -- The duty cycle for an angle, as `set_angle` computes it.
  unfoldable pub duty_of : ℕ → f.Carrier → ℕ
  duty_of max_duty angle =
      let period_ms = f.div (f.tenths 10000) (f.of_u32 sep_depl_freq) in
      let min_duty = f.mul (f.div (f.tenths 5) period_ms) (f.of_u32 max_duty) in
      let max_duty' = f.mul (f.div (f.tenths 25) period_ms) (f.of_u32 max_duty) in
      f.to_u32 (f.add min_duty (f.mul (f.div angle (f.tenths 1800)) (f.sub max_duty' min_duty)))

  -- `Servo::set_angle`, with its error.
  unfoldable pub set_servo_angle : f.Carrier → Servo → Option ServoError × Servo
  set_servo_angle angle s =
      if s.active
      then (if f.lt (f.tenths 1800) angle
          then (some invalid_angle, s)
          else (none, record s { duties = duty_of s.max_duty angle ∷ s.duties }))
      else (some not_enabled, s)

  -- `r1.and(r2)`.
  abbrev pub first_error : Option ServoError → Option ServoError → Option ServoError
  first_error none r2 = r2
  first_error (some e) r2 = some e

  -- `RecoveryActuator::set_angle`.
  unfoldable pub set_angle : f.Carrier → RecoveryActuator → Option ServoError × RecoveryActuator
  set_angle angle a =
      let r1 = set_servo_angle angle a.act1 in
      let r2 = set_servo_angle angle a.act2 in
      (first_error r1.0 r2.0, record a { act1 = r1.1; act2 = r2.1 })

  abbrev pub separation_initial_angle : f.Carrier
  separation_initial_angle = f.tenths 1750

  abbrev pub separation_servo_angle : f.Carrier
  separation_servo_angle = f.tenths 50

  abbrev pub deployment_initial_angle : f.Carrier
  deployment_initial_angle = f.tenths 1450

  abbrev pub deployment_servo_angle : f.Carrier
  deployment_servo_angle = f.tenths 350

-- A task's servos, what it last sent to its `occurred` watch and to its status watch.
pub record ServoTask : Type 0 where
  pub servos : RecoveryActuator
  pub occurred : Option Bool
  pub statuses : Option (ActuatorStatus × ActuatorStatus)

-- What a turn of the loop meets: the target that came in within a second, and the levels of the two
-- inputs when they are read.
pub record Turn : Type 0 where
  pub target : Option ServoTargetState
  pub presence1 : Bool
  pub presence2 : Bool

abbrev pub with_presence : Turn → RecoveryActuator → RecoveryActuator
with_presence n a = record a {
  act1 = record a.act1 { actuator_presence = n.presence1 };
  act2 = record a.act2 { actuator_presence = n.presence2 };
}

-- The end of a turn: the inputs are read for the status.
unfoldable pub report_status : Turn → ServoTask → ServoTask
report_status n t =
    let seen = with_presence n t.servos in
    record t { servos = seen; statuses = some (get_actuator_status seen) }

module _ (f : ServoFloat) where
  -- The match on the target in `separation_task`.
  unfoldable pub separate : Option ServoTargetState → ServoTask → ServoTask
  separate none t = t
  separate (some powered_off) t = record t { servos = deactivate_servo t.servos }
  separate (some powered_on) t = record t {
    servos = (set_angle f (separation_initial_angle f) (activate_servo t.servos)).1;
  }
  separate (some actuated) t = record t {
    servos = (set_angle f (separation_servo_angle f) (activate_servo t.servos)).1;
    occurred = some true;
  }

  -- The match on the target in `deployment_task`: behind an actuation, 30 seconds later, the servos go
  -- back to the initial angle.
  unfoldable pub deploy : Option ServoTargetState → ServoTask → ServoTask
  deploy none t = t
  deploy (some powered_off) t = record t { servos = deactivate_servo t.servos }
  deploy (some powered_on) t = record t {
    servos = (set_angle f (deployment_initial_angle f) (activate_servo t.servos)).1;
  }
  deploy (some actuated) t = record t {
    servos =
        (set_angle f (deployment_initial_angle f)
          (set_angle f (deployment_servo_angle f) (activate_servo t.servos)).1).1;
    occurred = some true;
  }

  unfoldable pub separation_turn : Turn → ServoTask → ServoTask
  separation_turn n t = report_status n (separate n.target t)

  unfoldable pub deployment_turn : Turn → ServoTask → ServoTask
  deployment_turn n t = report_status n (deploy n.target t)

-- A task, turn after turn.
abbrev pub turns : (Turn → ServoTask → ServoTask) → List Turn → ServoTask → ServoTask
turns step [] t = t
turns step (n ∷ rest) t = turns step rest (step n t)
