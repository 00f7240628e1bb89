-- ===== src/Lox/Task.antt =====
-- What a task of the valve board works on, and operations of the motor under a timeout
-- (fw-lox-valve-control-board/app/src/valve.rs).
use asteria_firmware.Prelude.{ℕ, ◌+◌, Bool, List, ◌++◌}
use asteria_firmware.Prelude.Int.{ℤ}
use asteria_firmware.Epos4.Device.{
  Epos4Error, device_in_fault_state, timeout, interface, framing, device,
}
use asteria_firmware.Epos4.Link
use asteria_firmware.Epos4.Link.{RxEvent, Epos4}
use asteria_firmware.Lox.Status.{set_status, clear_status, motor_comm_error, motor_device_fault}

-- The driver, the status register and the home offset, with what the surroundings will do: the bytes
-- that arrive before the n-th operation of the motor is given up, and what the limit switch shows when
-- it is looked at for the n-th time.
pub record Board (E : Type 0) : Type 0 where
  pub motor : Epos4 E
  pub status : ℕ
  pub home : ℤ
  pub calls : ℕ
  pub arrivals : ℕ → List (RxEvent E)
  pub polls : ℕ
  pub switch_low : ℕ → Bool

-- A task returns, fails, or has not come to an end: it waits for a byte that does not arrive, or its
-- fuel is used up.
pub data Outcome (E A : Type 0) : Type 0 where
  returned : A → Board E → Outcome E A
  failed : Epos4Error E → Board E → Outcome E A
  waiting : Board E → Outcome E A

-- The board behind a task, however that ended.
abbrev pub behind : {E A : Type 0} → Outcome E A → Board E
behind (returned a b) = b
behind (failed e b) = b
behind (waiting b) = b

abbrev pub Task : Type 0 → Type 0 → Type 0
Task E A = Board E → Outcome E A

abbrev pub bind_outcome : {E A B : Type 0} → Outcome E A → (A → Task E B) → Outcome E B
bind_outcome (returned a b) k = k a b
bind_outcome (failed e b) k = failed e b
bind_outcome (waiting b) k = waiting b

infixl 5 ◌>>=◌ ◌>>◌
abbrev pub ◌>>=◌ : {E A B : Type 0} → Task E A → (A → Task E B) → Task E B
◌>>=◌ m k b = bind_outcome (m b) k

abbrev pub ◌>>◌ : {E B : Type 0} → Task E (Unit {0}) → Task E B → Task E B
◌>>◌ m k b = bind_outcome (m b) (λ _. k)

-- The driver when the next operation runs.
abbrev pub reached : {E : Type 0} → Board E → Epos4 E
reached b = record b.motor { rx = b.motor.rx ++ b.arrivals b.calls }

abbrev pub with_motor : {E : Type 0} → Board E → Epos4 E → Board E
with_motor b d = record b { motor = d; calls = b.calls + 1 }

abbrev pub with_status : {E : Type 0} → ℕ → Board E → Board E
with_status s b = record b { status = s }

-- `record_epos_error`, on the status register.
unfoldable pub record_epos_error : {E : Type 0} → Epos4Error E → ℕ → ℕ
record_epos_error device_in_fault_state s = set_status motor_device_fault s
record_epos_error (interface e) s = set_status motor_comm_error s
record_epos_error framing s = set_status motor_comm_error s
record_epos_error (device e) s = set_status motor_comm_error s
record_epos_error timeout s = set_status motor_comm_error s

module _ {E A : Type 0} where
  -- The match on what `with_timeout` gives.
  unfoldable pub settle : Link.Result E A → Board E → Outcome E A
  settle (Link.Result.ok v d) b =
      returned v (with_status (clear_status motor_comm_error b.status) (with_motor b d))
  settle (Link.Result.err e d) b =
      failed e (with_status (record_epos_error e b.status) (with_motor b d))
  settle (Link.Result.pending d) b =
      failed timeout (with_status (set_status motor_comm_error b.status) (with_motor b d))

  -- An operation that does not complete is given up at the timeout.
  unfoldable pub epos_op_with_timeout : Link.M E A → Task E A
  unfolding settle
  epos_op_with_timeout op b = settle (op (reached b)) b

  -- The same without the timeout, as an operation is called directly.
  unfoldable pub settle_direct : Link.Result E A → Board E → Outcome E A
  settle_direct (Link.Result.ok v d) b = returned v (with_motor b d)
  settle_direct (Link.Result.err e d) b = failed e (with_motor b d)
  settle_direct (Link.Result.pending d) b = waiting (with_motor b d)

  unfoldable pub direct : Link.M E A → Task E A
  unfolding settle_direct
  direct op b = settle_direct (op (reached b)) b
