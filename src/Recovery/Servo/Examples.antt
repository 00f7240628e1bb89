-- ===== src/Recovery/Servo/Examples.antt =====
-- Concrete runs of the separation and deployment tasks, with whole tenths for the floats.
use asteria_firmware.Prelude.{
  ℕ, ◌+◌, ◌-◌, ◌*◌, ◌/◌, ◌≤◌, ◌≡◌, refl, arith, true, false, [], ◌∷◌, none, some, ltb,
}
use asteria_firmware.Recovery.Servo.{
  ServoFloat, Servo, powered_on, actuated, powered_off, ServoTask, Turn, turns, separation_turn,
}
use asteria_firmware.Recovery.Servo.Targets.{Shows, separation_angles, separation_turns-Shows}

abbrev tenths_only : ServoFloat
tenths_only = record {
  Carrier = ℕ;
  tenths = λ n. n;
  lt = ltb;
  add = λ a b. a + b;
  sub = λ a b. a - b;
  mul = λ a b. a * b / 10;
  div = λ a b. a * 10 / b;
  of_u32 = λ n. n * 10;
  to_u32 = λ a. a / 10;
}

in_range_lem : (n : ℕ) → n ≤ 1800 → ltb 1800 n ≡ false
in_range_lem n h = ground arith

abbrev resting : Servo
resting = record {
  running = false;
  duties = [];
  max_duty = 5000;
  actuator_presence = true;
  active = false;
}

abbrev at_start : ServoTask
at_start = record {
  servos = record { act1 = resting; act2 = resting; act_pwr = false; active = false };
  occurred = none;
  statuses = none;
}

abbrev arming : Turn
arming = record { target = some powered_on; presence1 = true; presence2 = true }

abbrev acting : Turn
acting = record { target = some actuated; presence1 = true; presence2 = false }

abbrev idle : Turn
idle = record { target = none; presence1 = true; presence2 = true }

separation_turns-Shows_example :
    Shows tenths_only
      (separation_angles tenths_only)
      actuated
      (turns (separation_turn tenths_only) (arming ∷ acting ∷ idle ∷ []) at_start).servos
    × ((turns (separation_turn tenths_only) (arming ∷ acting ∷ idle ∷ []) at_start).occurred
        ≡ some true)
separation_turns-Shows_example =
    separation_turns-Shows tenths_only in_range_lem (arming ∷ acting ∷ idle ∷ []) powered_off
      at_start ((refl, refl, refl, refl, refl, refl), ([], refl), ([], refl))
