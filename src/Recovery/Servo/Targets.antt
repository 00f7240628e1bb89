-- ===== src/Recovery/Servo/Targets.antt =====
-- The servos follow the target that came in last.
use asteria_firmware.Prelude.{
  ℕ, ◌≤◌, ◌≡◌, refl, arith, Bool, true, false, List, [], ◌∷◌, ◌++◌, map, Option, none, some,
  if◌then◌else◌, ap, ap₂,
}
use asteria_firmware.Recovery.Servo.{
  ServoFloat, Servo, RecoveryActuator, new_servo, new_actuator, activate_servo, deactivate_servo,
  duty_of, set_servo_angle, set_angle, ServoTargetState, powered_off, powered_on, actuated,
  ServoTask, Turn, report_status, separate, deploy, separation_turn, deployment_turn, turns,
  separation_initial_angle, separation_servo_angle, deployment_initial_angle,
  deployment_servo_angle,
}

-- The supply, the channels and the flags agree.
abbrev pub IsPowered : Bool → RecoveryActuator → Type 0
IsPowered on a =
    (a.act_pwr ≡ on)
    × (a.active ≡ on)
    × (a.act1.running ≡ on)
    × (a.act1.active ≡ on)
    × (a.act2.running ≡ on)
    × (a.act2.active ≡ on)

abbrev pub is_on : ServoTargetState → Bool
is_on powered_off = false
is_on powered_on = true
is_on actuated = true

abbrev pub latest : ServoTargetState → Option ServoTargetState → ServoTargetState
latest held none = held
latest held (some t) = t

-- The target that holds after the turns.
abbrev pub last_target : ServoTargetState → List Turn → ServoTargetState
last_target held [] = held
last_target held (n ∷ rest) = last_target (latest held n.target) rest

abbrev pub is_actuation : Option ServoTargetState → Bool
is_actuation (some actuated) = true
is_actuation (some powered_on) = false
is_actuation (some powered_off) = false
is_actuation none = false

-- What the `occurred` watch shows after the turns.
abbrev pub occurrence : Option Bool → List Turn → Option Bool
occurrence before [] = before
occurrence before (n ∷ rest) = occurrence (if is_actuation n.target then some true else before) rest

module _ (f : ServoFloat) where
  -- The servo was last moved to the angles, the latest first.
  abbrev pub MovedTo : List f.Carrier → Servo → Type 0
  MovedTo angles s = (before : List ℕ) × (s.duties ≡ map (duty_of f s.max_duty) angles ++ before)

  -- The last angles that each target asks for.
  abbrev pub separation_angles : ServoTargetState → List f.Carrier
  separation_angles powered_off = []
  separation_angles powered_on = separation_initial_angle f ∷ []
  separation_angles actuated = separation_servo_angle f ∷ []

  abbrev pub deployment_angles : ServoTargetState → List f.Carrier
  deployment_angles powered_off = []
  deployment_angles powered_on = deployment_initial_angle f ∷ []
  deployment_angles actuated = deployment_initial_angle f ∷ deployment_servo_angle f ∷ []

  abbrev pub Shows :
      (ServoTargetState → List f.Carrier) → ServoTargetState → RecoveryActuator → Type 0
  Shows angles target a =
      IsPowered (is_on target) a × MovedTo (angles target) a.act1 × MovedTo (angles target) a.act2

  -- New servos whose supply and channels are off show the target that is off.
  pub new_actuator-Shows :
      (duties1 duties2 : List ℕ) (max1 max2 : ℕ) (level1 level2 : Bool)
      → Shows separation_angles powered_off (
          new_actuator
            (new_servo false duties1 max1 level1)
            (new_servo false duties2 max2 level2)
            false)
  unfolding new_actuator new_servo
  new_actuator-Shows duties1 duties2 max1 max2 level1 level2 =
      ((refl, refl, refl, refl, refl, refl), (duties1, refl), (duties2, refl))

  moved : f.Carrier → Servo → Servo
  moved angle s = record s { duties = duty_of f s.max_duty angle ∷ s.duties }

  both_moved : f.Carrier → RecoveryActuator → RecoveryActuator
  both_moved angle a = record a { act1 = moved angle a.act1; act2 = moved angle a.act2 }

  set_servo_angle-active :
      (angle : f.Carrier) (s : Servo)
      → s.active ≡ true
      → f.lt (f.tenths 1800) angle ≡ false
      → set_servo_angle f angle s ≡ (none, moved angle s)
  unfolding set_servo_angle moved
  set_servo_angle-active angle s on fits = rw (on, fits) refl

  set_angle-active :
      (angle : f.Carrier) (a : RecoveryActuator)
      → a.act1.active ≡ true
      → a.act2.active ≡ true
      → f.lt (f.tenths 1800) angle ≡ false
      → (set_angle f angle a).1 ≡ both_moved angle a
  unfolding set_angle both_moved
  set_angle-active angle a on1 on2 fits =
      ap₂ (λ s t. record a { act1 = s; act2 = t })
        (ap (λ r. r.1) (set_servo_angle-active angle a.act1 on1 fits))
        (ap (λ r. r.1) (set_servo_angle-active angle a.act2 on2 fits))

  module _ (in_range : (n : ℕ) → n ≤ 1800 → f.lt (f.tenths 1800) (f.tenths n) ≡ false) where
    separate-Shows :
        (held : ServoTargetState) (target : Option ServoTargetState) (t : ServoTask)
        → Shows separation_angles held t.servos
        → Shows separation_angles (latest held target) (separate f target t).servos
    unfolding separate activate_servo deactivate_servo both_moved moved
    separate-Shows held none t h = h
    separate-Shows held (some powered_off) t h = (
      (refl, refl, refl, refl, refl, refl),
      (t.servos.act1.duties, refl),
      (t.servos.act2.duties, refl),
    )
    separate-Shows held (some powered_on) t h =
        rw
          (set_angle-active (separation_initial_angle f) (activate_servo t.servos) refl refl
            (in_range 1750 (omega arith)))
          (
            (refl, refl, refl, refl, refl, refl),
            (t.servos.act1.duties, refl),
            (t.servos.act2.duties, refl),
          )
    separate-Shows held (some actuated) t h =
        rw
          (set_angle-active (separation_servo_angle f) (activate_servo t.servos) refl refl
            (in_range 50 (omega arith)))
          (
            (refl, refl, refl, refl, refl, refl),
            (t.servos.act1.duties, refl),
            (t.servos.act2.duties, refl),
          )

    deploy-Shows :
        (held : ServoTargetState) (target : Option ServoTargetState) (t : ServoTask)
        → Shows deployment_angles held t.servos
        → Shows deployment_angles (latest held target) (deploy f target t).servos
    unfolding deploy activate_servo deactivate_servo both_moved moved
    deploy-Shows held none t h = h
    deploy-Shows held (some powered_off) t h = (
      (refl, refl, refl, refl, refl, refl),
      (t.servos.act1.duties, refl),
      (t.servos.act2.duties, refl),
    )
    deploy-Shows held (some powered_on) t h =
        rw
          (set_angle-active (deployment_initial_angle f) (activate_servo t.servos) refl refl
            (in_range 1450 (omega arith)))
          (
            (refl, refl, refl, refl, refl, refl),
            (t.servos.act1.duties, refl),
            (t.servos.act2.duties, refl),
          )
    deploy-Shows held (some actuated) t h =
        rw
          (
            set_angle-active (deployment_servo_angle f) (activate_servo t.servos) refl refl
                (in_range 350 (omega arith)),
            set_angle-active (deployment_initial_angle f)
                (both_moved (deployment_servo_angle f) (activate_servo t.servos)) refl refl
                (in_range 1450 (omega arith)),
          )
          (
            (refl, refl, refl, refl, refl, refl),
            (t.servos.act1.duties, refl),
            (t.servos.act2.duties, refl),
          )

    separate-occurred :
        (target : Option ServoTargetState) (t : ServoTask)
        → (separate f target t).occurred ≡ (if is_actuation target then some true else t.occurred)
    unfolding separate
    separate-occurred none t = refl
    separate-occurred (some powered_off) t = refl
    separate-occurred (some powered_on) t = refl
    separate-occurred (some actuated) t = refl

    deploy-occurred :
        (target : Option ServoTargetState) (t : ServoTask)
        → (deploy f target t).occurred ≡ (if is_actuation target then some true else t.occurred)
    unfolding deploy
    deploy-occurred none t = refl
    deploy-occurred (some powered_off) t = refl
    deploy-occurred (some powered_on) t = refl
    deploy-occurred (some actuated) t = refl

    -- After any turns of the separation task, the servos are powered if and only if the last target
    -- asks for it, their last angle is the one it asks for, and the separation is flagged as occurred
    -- if and only if it was before or a target asked for it.
    pub separation_turns-Shows :
        (ns : List Turn) (held : ServoTargetState) (t : ServoTask)
        → Shows separation_angles held t.servos
        → Shows separation_angles (last_target held ns) (turns (separation_turn f) ns t).servos
          × ((turns (separation_turn f) ns t).occurred ≡ occurrence t.occurred ns)
    unfolding separation_turn report_status
    separation_turns-Shows [] held t h = (h, refl)
    separation_turns-Shows (n ∷ rest) held t h = rw (← separate-occurred n.target t) (
        separation_turns-Shows rest (latest held n.target) (separation_turn f n t)
          (separate-Shows held n.target t h))

    -- After any turns of the deployment task, the servos are powered if and only if the last target
    -- asks for it, and their last angles are those it asks for: behind an actuation, first the
    -- deployment angle and then the initial one. The deployment is flagged as occurred if and only if
    -- it was before or a target asked for it.
    deployment_turns-Shows :
        (ns : List Turn) (held : ServoTargetState) (t : ServoTask)
        → Shows deployment_angles held t.servos
        → Shows deployment_angles (last_target held ns) (turns (deployment_turn f) ns t).servos
          × ((turns (deployment_turn f) ns t).occurred ≡ occurrence t.occurred ns)
    unfolding deployment_turn report_status
    deployment_turns-Shows [] held t h = (h, refl)
    deployment_turns-Shows (n ∷ rest) held t h = rw (← deploy-occurred n.target t) (
        deployment_turns-Shows rest (latest held n.target) (deployment_turn f n t)
          (deploy-Shows held n.target t h))
