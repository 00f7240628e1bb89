-- ===== src/Lox/Valve/Started.antt =====
-- The flags behind the start of the valve.
use asteria_firmware.Prelude.{ℕ, ◌≡◌, refl, ◌∙◌}
use asteria_firmware.Bits.Single.{bit}
use asteria_firmware.Epos4.Motor
use asteria_firmware.Epos4.Motor.{set_ppm_profile, set_ppm_mode}
use asteria_firmware.Lox.Status.{set_status, clear_status, initializing, ready}
use asteria_firmware.Lox.Task.{Board, Outcome, returned, failed, waiting, behind, with_status}
use asteria_firmware.Lox.Valve.{
  wait_for_motor_ready, note_failure, wait_or_note, init_lox_valve_motor, conclude_start,
  start_valve,
}
use asteria_firmware.Lox.Valve.Flags.{
  set_status-other, set_status-same, clear_status-other, clear_status-same, IsApart, KeepsBit,
  >>-KeepsBit, find_and_calibrate_home-KeepsBit,
}
use asteria_firmware.Lox.Valve.Ready.{
  IsCalm, wait_for_motor_ready-IsCalm, wait_for_motor_ready-KeepsBit, operation-KeepsBit,
}

-- The start is over: it is flagged as such, and as ready if and only if the start returned. The flag
-- for a failed initialisation is as it was before, on every branch.
unfoldable pub IsFlagged : {E : Type 0} → ℕ → Outcome E (Unit {0}) → Type 0
IsFlagged s (returned a b) =
    (bit 0 b.status ≡ 0) × ((bit 1 b.status ≡ 1) × (bit 2 b.status ≡ bit 2 s))
IsFlagged s (failed e b) =
    (bit 0 b.status ≡ 0) × ((bit 1 b.status ≡ bit 1 s) × (bit 2 b.status ≡ bit 2 s))
IsFlagged s (waiting b) =
    (bit 0 b.status ≡ 1) × ((bit 1 b.status ≡ bit 1 s) × (bit 2 b.status ≡ bit 2 s))

module _ (E : Type 0) where
  note_failure-keeps :
      (k s : ℕ) (r : Outcome E (Unit {0}))
      → IsCalm r
      → bit k (behind r).status ≡ bit k s
      → bit k (behind (note_failure r)).status ≡ bit k s
  unfolding note_failure IsCalm
  note_failure-keeps k s (returned a b) calm p = p
  note_failure-keeps k s (failed e b) calm p = elim calm [ ]
  note_failure-keeps k s (waiting b) calm p = p

  wait_or_note-KeepsBit : (k attempts : ℕ) → IsApart k → KeepsBit k (wait_or_note {E = E} attempts)
  unfolding wait_or_note KeepsBit
  wait_or_note-KeepsBit k attempts apart b =
      note_failure-keeps k b.status (wait_for_motor_ready attempts b)
        (wait_for_motor_ready-IsCalm E attempts b)
        (wait_for_motor_ready-KeepsBit E k attempts apart b)

  init_lox_valve_motor-KeepsBit :
      (k attempts looks : ℕ) → IsApart k → KeepsBit k (init_lox_valve_motor {E = E} attempts looks)
  unfolding init_lox_valve_motor
  init_lox_valve_motor-KeepsBit k attempts looks apart =
      let operation = operation-KeepsBit E k in
      >>-KeepsBit E k (wait_or_note attempts) _ (wait_or_note-KeepsBit k attempts apart) (
        >>-KeepsBit E k _ _ (operation (set_ppm_profile 7142 5000 5000) apart) (
          >>-KeepsBit E k _ _ (operation set_ppm_mode apart) (
            >>-KeepsBit E k _ _ (operation Motor.enable apart)
              (find_and_calibrate_home-KeepsBit E k looks))))

  conclude_start-IsFlagged :
      (s : ℕ) (r : Outcome E (Unit {0}))
      → bit 0 (behind r).status ≡ 1
      → bit 1 (behind r).status ≡ bit 1 s
      → bit 2 (behind r).status ≡ bit 2 s
      → IsFlagged s (conclude_start r)
  unfolding conclude_start IsFlagged
  conclude_start-IsFlagged s (returned a b) p q u =
      let cleared = clear_status initializing b.status in
      (
        set_status-other 0 ready cleared refl ∙ clear_status-same 0 initializing b.status refl,
        (
          set_status-same 1 ready cleared refl,
          set_status-other 2 ready cleared refl
              ∙ (clear_status-other 2 initializing b.status refl ∙ u),
        ),
      )
  conclude_start-IsFlagged s (failed e b) p q u = (
    clear_status-same 0 initializing b.status refl,
    (
      clear_status-other 1 initializing b.status refl ∙ q,
      clear_status-other 2 initializing b.status refl ∙ u,
    ),
  )
  conclude_start-IsFlagged s (waiting b) p q u = (p, (q, u))

  -- However the motor and the limit switch behave, the start of the valve ends with INITIALIZING
  -- cleared, unless it is still waiting; it sets READY when it returns, and only then; and it never
  -- changes MOTOR_INIT_FAILED, also when it fails.
  pub start_valve-IsFlagged :
      (attempts looks : ℕ) (b : Board E) → IsFlagged b.status (start_valve attempts looks b)
  unfolding start_valve KeepsBit
  start_valve-IsFlagged attempts looks b =
      let begun = with_status (set_status initializing b.status) b in
      let keeps = λ (k : ℕ). init_lox_valve_motor-KeepsBit k attempts looks in
      conclude_start-IsFlagged b.status (init_lox_valve_motor attempts looks begun)
        (keeps 0 ((refl, refl), (refl, refl)) begun ∙ set_status-same 0 initializing b.status refl)
        (keeps 1 ((refl, refl), (refl, refl)) begun ∙ set_status-other 1 initializing b.status refl)
        (keeps 2 ((refl, refl), (refl, refl)) begun ∙ set_status-other 2 initializing b.status refl)
