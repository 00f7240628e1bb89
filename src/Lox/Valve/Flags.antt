-- ===== src/Lox/Valve/Flags.antt =====
-- The flags of the device status through the start of the valve.
use asteria_firmware.Prelude.{
  ℕ, zero, suc, ◌-◌, ◌^◌, ◌≡◌, refl, ◌∙◌, arith, true, Bool-cases, inl, inr,
}
use asteria_firmware.Prelude.Int.{ℤ, pos, ◌-ℤ◌}
use asteria_firmware.Words.{wrap_i32}
use asteria_firmware.Bits.Single.{bit, bit-or, bit-and}
use asteria_firmware.Epos4.Link
use asteria_firmware.Epos4.Motor.{get_current_position, move_to_position}
use asteria_firmware.Lox.Status.{set_status, clear_status, motor_comm_error, motor_device_fault}
use asteria_firmware.Lox.Task.{
  Board, Outcome, returned, failed, waiting, behind, Task, bind_outcome, ◌>>=◌, ◌>>◌, direct,
  settle_direct, reached,
}
use asteria_firmware.Lox.Valve.{step_back, approach, calibrate, store_home, find_and_calibrate_home}

pub set_status-other : (k flags s : ℕ) → bit k flags ≡ 0 → bit k (set_status flags s) ≡ bit k s
unfolding set_status
set_status-other k flags s off = omega (arith, bit-or k s flags, off)

pub set_status-same : (k flags s : ℕ) → bit k flags ≡ 1 → bit k (set_status flags s) ≡ 1
unfolding set_status
set_status-same k flags s on = omega (arith, bit-or k s flags, on)

pub clear_status-other :
    (k flags s : ℕ) → bit k (2 ^ 16 - 1 - flags) ≡ 1 → bit k (clear_status flags s) ≡ bit k s
unfolding clear_status
clear_status-other k flags s off = omega (arith, bit-and k s (2 ^ 16 - 1 - flags), off)

pub clear_status-same :
    (k flags s : ℕ) → bit k (2 ^ 16 - 1 - flags) ≡ 0 → bit k (clear_status flags s) ≡ 0
unfolding clear_status
clear_status-same k flags s on = omega (arith, bit-and k s (2 ^ 16 - 1 - flags), on)

-- A bit that is neither of the two error flags of an operation.
abbrev pub IsApart : ℕ → Type 0
IsApart k =
    ((bit k motor_comm_error ≡ 0) × (bit k (2 ^ 16 - 1 - motor_comm_error) ≡ 1))
    × ((bit k motor_device_fault ≡ 0) × (bit k (2 ^ 16 - 1 - motor_device_fault) ≡ 1))

-- A task leaves the bit as it is, on every branch.
unfoldable pub KeepsBit : {E A : Type 0} → ℕ → Task E A → Type 0
KeepsBit {E} k m = (b : Board E) → bit k (behind (m b)).status ≡ bit k b.status

module _ (E : Type 0) (k : ℕ) where
  bind_outcome-keeps :
      {A B : Type 0} (s : ℕ) (r : Outcome E A) (f : A → Task E B)
      → bit k (behind r).status ≡ bit k s
      → ((a : A) → KeepsBit k (f a))
      → bit k (behind (bind_outcome r f)).status ≡ bit k s
  unfolding KeepsBit
  bind_outcome-keeps s (returned a b) f p q = q a b ∙ p
  bind_outcome-keeps s (failed e b) f p q = p
  bind_outcome-keeps s (waiting b) f p q = p

  >>=-KeepsBit :
      {A B : Type 0} (m : Task E A) (f : A → Task E B)
      → KeepsBit k m
      → ((a : A) → KeepsBit k (f a))
      → KeepsBit k (m >>= f)
  unfolding KeepsBit
  >>=-KeepsBit m f p q b = bind_outcome-keeps b.status (m b) f (p b) q

  pub >>-KeepsBit :
      {B : Type 0} (m : Task E (Unit {0})) (f : Task E B)
      → KeepsBit k m
      → KeepsBit k f
      → KeepsBit k (m >> f)
  unfolding KeepsBit
  >>-KeepsBit m f p q b = bind_outcome-keeps b.status (m b) (λ _. f) (p b) (λ _. q)

  settle_direct-keeps :
      {A : Type 0} (r : Link.Result E A) (b : Board E)
      → bit k (behind (settle_direct r b)).status ≡ bit k b.status
  unfolding settle_direct
  settle_direct-keeps (Link.Result.ok v d) b = refl
  settle_direct-keeps (Link.Result.err e d) b = refl
  settle_direct-keeps (Link.Result.pending d) b = refl

  direct-KeepsBit : {A : Type 0} (op : Link.M E A) → KeepsBit k (direct op)
  unfolding direct KeepsBit
  direct-KeepsBit op b = settle_direct-keeps (op (reached b)) b

  store_home-KeepsBit : (p : ℤ) → KeepsBit k (store_home {E = E} p)
  unfolding store_home KeepsBit
  store_home-KeepsBit p b = refl

  step_back-KeepsBit : KeepsBit k (step_back {E = E})
  unfolding step_back
  step_back-KeepsBit =
      >>=-KeepsBit (direct get_current_position) _ (direct-KeepsBit get_current_position)
        (λ cur_abs. direct-KeepsBit (move_to_position (wrap_i32 (cur_abs -ℤ pos 750)) true))

  approach-KeepsBit : (looks : ℕ) → KeepsBit k (approach {E = E} looks)
  unfolding approach KeepsBit
  approach-KeepsBit zero b = refl
  approach-KeepsBit (suc looks) b = elim (Bool-cases (b.switch_low b.polls)) [
    | inl low ↦ rw low refl
    | inr high ↦
        rw high
          (>>-KeepsBit step_back (approach looks) step_back-KeepsBit (approach-KeepsBit looks) _)
  ]

  calibrate-KeepsBit : KeepsBit k (calibrate {E = E})
  unfolding calibrate
  calibrate-KeepsBit =
      >>=-KeepsBit (direct get_current_position) _ (direct-KeepsBit get_current_position)
        (λ cur_abs.
          >>-KeepsBit (direct (move_to_position cur_abs true)) (store_home cur_abs)
            (direct-KeepsBit (move_to_position cur_abs true)) (store_home-KeepsBit cur_abs))

  pub find_and_calibrate_home-KeepsBit :
      (looks : ℕ) → KeepsBit k (find_and_calibrate_home {E = E} looks)
  unfolding find_and_calibrate_home
  find_and_calibrate_home-KeepsBit looks =
      >>-KeepsBit (approach looks) calibrate (approach-KeepsBit looks) calibrate-KeepsBit
