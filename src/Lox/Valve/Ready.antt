-- ===== src/Lox/Valve/Ready.antt =====
-- Waiting for the motor: what the loop can end in, and the start of the valve as a whole.
use asteria_firmware.Prelude.{ℕ, zero, suc, ◌≡◌, refl, ap, ◌∙◌}
use asteria_firmware.Bits.Single.{bit}
use asteria_firmware.Epos4.Device.{
  EposStatus, device_in_fault_state, timeout, interface, framing, device,
}
use asteria_firmware.Epos4.Link
use asteria_firmware.Epos4.Motor.{get_status, reset_node}
use asteria_firmware.Lox.Status.{set_status, motor_comm_error, motor_device_fault}
use asteria_firmware.Lox.Task.{
  Board, Outcome, returned, failed, waiting, behind, Task, with_status, epos_op_with_timeout,
  settle, reached, record_epos_error,
}
use asteria_firmware.Lox.Valve.{
  Readiness, motor_ready, motor_faulty, not_yet, readiness, judge, attempted, wait_for_motor_ready,
}
use asteria_firmware.Lox.Valve.Flags.{
  set_status-other, clear_status-other, clear_status-same, IsApart, KeepsBit,
}

-- The outcomes of the loop: it returns with both error flags off, or it goes on waiting.
unfoldable pub IsCalm : {E : Type 0} → Outcome E (Unit {0}) → Type 0
IsCalm (returned a b) = (bit 3 b.status ≡ 0) × (bit 4 b.status ≡ 0)
IsCalm (failed e b) = ⊥
IsCalm (waiting b) = Unit {0}

module _ (E : Type 0) where
  settle-keeps :
      {A : Type 0} (k : ℕ) (r : Link.Result E A) (b : Board E)
      → IsApart k
      → bit k (behind (settle r b)).status ≡ bit k b.status
  unfolding settle record_epos_error
  settle-keeps k (Link.Result.ok v d) b ap = clear_status-other k motor_comm_error b.status ap.0.1
  settle-keeps k (Link.Result.err device_in_fault_state d) b ap =
      set_status-other k motor_device_fault b.status ap.1.0
  settle-keeps k (Link.Result.err (interface e) d) b ap =
      set_status-other k motor_comm_error b.status ap.0.0
  settle-keeps k (Link.Result.err framing d) b ap =
      set_status-other k motor_comm_error b.status ap.0.0
  settle-keeps k (Link.Result.err (device e) d) b ap =
      set_status-other k motor_comm_error b.status ap.0.0
  settle-keeps k (Link.Result.err timeout d) b ap =
      set_status-other k motor_comm_error b.status ap.0.0
  settle-keeps k (Link.Result.pending d) b ap = set_status-other k motor_comm_error b.status ap.0.0

  pub operation-KeepsBit :
      {A : Type 0} (k : ℕ) (op : Link.M E A) → IsApart k → KeepsBit k (epos_op_with_timeout op)
  unfolding epos_op_with_timeout KeepsBit
  operation-KeepsBit k op apart b = settle-keeps k (op (reached b)) b apart

  judge-keeps :
      (k : ℕ) (r : Readiness) (again : Task E (Unit {0})) (b : Board E)
      → IsApart k
      → KeepsBit k again
      → bit k (behind (judge r again b)).status ≡ bit k b.status
  unfolding judge KeepsBit
  judge-keeps k motor_ready again b apart h =
      clear_status-other k motor_device_fault b.status apart.1.1
  judge-keeps k motor_faulty again b apart h =
      h _
      ∙ operation-KeepsBit k reset_node apart
          (with_status (set_status motor_device_fault b.status) b)
      ∙ set_status-other k motor_device_fault b.status apart.1.0
  judge-keeps k not_yet again b apart h = h b

  attempted-keeps :
      (k : ℕ) (again : Task E (Unit {0})) (r : Outcome E EposStatus) (s : ℕ)
      → IsApart k
      → KeepsBit k again
      → bit k (behind r).status ≡ bit k s
      → bit k (behind (attempted again r)).status ≡ bit k s
  unfolding attempted KeepsBit
  attempted-keeps k again (returned a b) s apart h p =
      judge-keeps k (readiness a) again b apart h ∙ p
  attempted-keeps k again (failed e b) s apart h p =
      h _ ∙ operation-KeepsBit k reset_node apart b ∙ p
  attempted-keeps k again (waiting b) s apart h p = p

  pub wait_for_motor_ready-KeepsBit :
      (k attempts : ℕ) → IsApart k → KeepsBit k (wait_for_motor_ready {E = E} attempts)
  unfolding wait_for_motor_ready KeepsBit
  wait_for_motor_ready-KeepsBit k zero apart b = refl
  wait_for_motor_ready-KeepsBit k (suc attempts) apart b =
      attempted-keeps k (wait_for_motor_ready attempts) (epos_op_with_timeout get_status b) b.status
        apart (wait_for_motor_ready-KeepsBit k attempts apart)
        (operation-KeepsBit k get_status apart b)

  -- A status that is read has cleared the flag of the communication.
  unfoldable IsHeard : {A : Type 0} → Outcome E A → Type 0
  IsHeard (returned a b) = bit 3 b.status ≡ 0
  IsHeard (failed e b) = Unit {0}
  IsHeard (waiting b) = ⊥

  settle-IsHeard : {A : Type 0} (r : Link.Result E A) (b : Board E) → IsHeard (settle r b)
  unfolding settle IsHeard
  settle-IsHeard (Link.Result.ok v d) b = clear_status-same 3 motor_comm_error b.status refl
  settle-IsHeard (Link.Result.err e d) b = tt
  settle-IsHeard (Link.Result.pending d) b = tt

  judge-IsCalm :
      (r : Readiness) (again : Task E (Unit {0})) (b : Board E)
      → bit 3 b.status ≡ 0
      → ((c : Board E) → IsCalm (again c))
      → IsCalm (judge r again b)
  unfolding judge IsCalm
  judge-IsCalm motor_ready again b off h = (
    clear_status-other 3 motor_device_fault b.status refl ∙ off,
    clear_status-same 4 motor_device_fault b.status refl,
  )
  judge-IsCalm motor_faulty again b off h = h _
  judge-IsCalm not_yet again b off h = h b

  attempted-IsCalm :
      (again : Task E (Unit {0})) (r : Outcome E EposStatus)
      → IsHeard r
      → ((c : Board E) → IsCalm (again c))
      → IsCalm (attempted again r)
  unfolding attempted IsHeard
  attempted-IsCalm again (returned a b) off h = judge-IsCalm (readiness a) again b off h
  attempted-IsCalm again (failed e b) off h = h _
  attempted-IsCalm again (waiting b) off h = elim off [ ]

  -- Whatever arrives, waiting for the motor does not fail; when it returns, neither a communication
  -- error nor a device fault is flagged.
  pub wait_for_motor_ready-IsCalm :
      (attempts : ℕ) (b : Board E) → IsCalm (wait_for_motor_ready attempts b)
  unfolding wait_for_motor_ready IsCalm epos_op_with_timeout
  wait_for_motor_ready-IsCalm zero b = tt
  wait_for_motor_ready-IsCalm (suc attempts) b =
      attempted-IsCalm (wait_for_motor_ready attempts) (epos_op_with_timeout get_status b)
        (settle-IsHeard (get_status (reached b)) b) (wait_for_motor_ready-IsCalm attempts)
