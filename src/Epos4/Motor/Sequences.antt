-- ===== src/Epos4/Motor/Sequences.antt =====
-- Which writes each operation of the driver makes, and what it sends and returns for the answers.
use mathlib.Core.Path.{fun_ext}
use asteria_firmware.Prelude.{
  ℕ, ◌<◌, ◌≡◌, ◌∙◌, ◌++◌, All, refl, ap, Bool, true, false, List, [], ◌∷◌, if◌then◌else◌,
}
use asteria_firmware.Prelude.Int.{ℤ}
use asteria_firmware.Words.{as_u32}
use asteria_firmware.Epos4.Dictionary.{MotorType, motor_type_code, HomingMethod, homing_method_code}
use asteria_firmware.Epos4.Device.{device, from_words, is_error}
use asteria_firmware.Epos4.Link.{
  RxEvent, Epos4, Result, ok, err, pending, M, bind_result, ◌>>◌, pure,
}
use asteria_firmware.Epos4.Object.{write_object}
use asteria_firmware.Epos4.Motor.{
  set_motor_type, set_ec_motor_params, shutdown, enable, quick_stop, reset_node, set_ppm_mode,
  set_homing_mode, set_ppm_profile, move_to_position, set_pvm_mode, move_with_velocity,
  halt_velocity_movement, set_homing_params, find_home,
}
use asteria_firmware.Epos4.Link.Encoding.{having_sent, with_rx, Accepts, incoming}
use asteria_firmware.Epos4.Frame.Transfer.{response_bytes}
use asteria_firmware.Epos4.Motor.Script.{
  Write, Fits, perform, acknowledgements, script_bytes, perform-acknowledged, perform-refused,
}

-- The operations that only write.
pub data Command : Type 0 where
  to_set_motor_type : MotorType → Command
  to_set_ec_motor_params : ℕ → ℕ → ℕ → ℕ → Command
  to_shut_down to_enable to_quick_stop to_reset_node : Command
  to_set_ppm_mode to_set_homing_mode to_set_pvm_mode : Command
  to_set_ppm_profile : ℕ → ℕ → ℕ → Command
  to_move_to_position : ℤ → Bool → Command
  to_move_with_velocity : ℤ → Command
  to_halt : Command
  to_set_homing_params : ℕ → ℕ → ℕ → ℤ → Command
  to_find_home : HomingMethod → Command

-- The operation that a command stands for.
abbrev pub operation : {E : Type 0} → Command → M E (Unit {0})
operation (to_set_motor_type t) = set_motor_type t
operation (to_set_ec_motor_params a b c e) = set_ec_motor_params a b c e
operation to_shut_down = shutdown
operation to_enable = enable
operation to_quick_stop = quick_stop
operation to_reset_node = reset_node
operation to_set_ppm_mode = set_ppm_mode
operation to_set_homing_mode = set_homing_mode
operation to_set_pvm_mode = set_pvm_mode
operation (to_set_ppm_profile v a e) = set_ppm_profile v a e
operation (to_move_to_position p i) = move_to_position p i
operation (to_move_with_velocity v) = move_with_velocity v
operation to_halt = halt_velocity_movement
operation (to_set_homing_params a b c o) = set_homing_params a b c o
operation (to_find_home m) = find_home m

abbrev control : ℕ → Write
control v = record { index = 0x6040; subindex = 0; value = v }

abbrev object : ℕ → ℕ → ℕ → Write
object i s v = record { index = i; subindex = s; value = v }

-- The specification: the objects that the operation writes, by their numbers, in order.
abbrev pub script : Command → List Write
script (to_set_motor_type t) = object 0x6402 0 (motor_type_code t) ∷ []
script (to_set_ec_motor_params a b c e) =
    object 0x3001 1 a ∷ object 0x3001 2 b ∷ object 0x3001 4 c ∷ object 0x3001 5 e ∷ []
script to_shut_down = control 0x06 ∷ []
script to_enable = control 0x06 ∷ control 0x07 ∷ control 0x0F ∷ []
script to_quick_stop = control 0x0B ∷ []
script to_reset_node = object 0x1F51 1 2 ∷ []
script to_set_ppm_mode = object 0x6060 0 1 ∷ []
script to_set_homing_mode = object 0x6060 0 6 ∷ []
script to_set_pvm_mode = object 0x6060 0 3 ∷ []
script (to_set_ppm_profile v a e) = object 0x6081 0 v ∷ object 0x6083 0 a ∷ object 0x6084 0 e ∷ []
script (to_move_to_position p i) =
    object 0x607A 0 (as_u32 p)
    ∷ control 0x0F
    ∷ control (if i then 0x3F else 0x1F)
    ∷ control 0x0F
    ∷ []
script (to_move_with_velocity v) = object 0x60FF 0 (as_u32 v) ∷ []
script to_halt = object 0x60FF 0 0 ∷ []
script (to_set_homing_params a b c o) =
    object 0x6099 1 a ∷ object 0x6099 2 b ∷ object 0x609A 0 c ∷ object 0x30B1 0 (as_u32 o) ∷ []
script (to_find_home m) = object 0x6098 0 (as_u32 (homing_method_code m)) ∷ control 0x1F ∷ []

unit_end : {E : Type 0} (r : Result E (Unit {0})) → r ≡ bind_result r (λ _. pure tt)
unit_end (ok a d) = refl
unit_end (err e d) = refl
unit_end (pending d) = refl

-- A last `Ok(())` changes nothing.
last_write : {E : Type 0} (m : M E (Unit {0})) → m ≡ (m >> pure tt)
last_write m = fun_ext λ d. unit_end (m d)

unit_between :
    {E : Type 0} (r : Result E (Unit {0})) (k : M E (Unit {0}))
    → bind_result (bind_result r (λ _. pure tt)) (λ _. k) ≡ bind_result r (λ _. k)
unit_between (ok a d) k = refl
unit_between (err e d) k = refl
unit_between (pending d) k = refl

-- Every operation that only writes makes exactly the writes of its script, in that order, and stops
-- at the first that does not succeed.
operation-script : {E : Type 0} (c : Command) → operation {E = E} c ≡ perform (script c)
unfolding perform set_motor_type set_ec_motor_params shutdown enable quick_stop reset_node
    set_ppm_mode set_homing_mode set_ppm_profile move_to_position set_pvm_mode move_with_velocity
    halt_velocity_movement set_homing_params find_home as_u32
operation-script (to_set_motor_type t) = last_write _
operation-script (to_set_ec_motor_params a b c e) = refl
operation-script to_shut_down = refl
operation-script to_enable = fun_ext λ d. unit_between (write_object 0x6040 0 6 d) _
operation-script to_quick_stop = refl
operation-script to_reset_node = last_write _
operation-script to_set_ppm_mode = last_write _
operation-script to_set_homing_mode = last_write _
operation-script to_set_pvm_mode = last_write _
operation-script (to_set_ppm_profile v a e) = refl
operation-script (to_move_to_position p true) = refl
operation-script (to_move_to_position p false) = refl
operation-script (to_move_with_velocity v) = last_write _
operation-script to_halt = last_write _
operation-script (to_set_homing_params a b c o) = refl
operation-script (to_find_home m) =
    ap (λ k. write_object 0x6098 0 (as_u32 (homing_method_code m)) >> k)
      (last_write (write_object 0x6040 0 0x1F))

module _ {E : Type 0} where
  -- If the node id is a byte, the values of the operation's writes are in the ranges of their types,
  -- the port takes every byte, and the controller acknowledges every write, an operation that only
  -- writes succeeds: exactly the frames of its script have been sent, in order, and what arrived
  -- behind the responses is left on the link.
  pub operation-acknowledged :
      (c : Command) (later : List (RxEvent E)) (d : Epos4 E)
      → All Fits (script c)
      → d.node_id < 256
      → Accepts d
      → operation c (with_rx d (incoming (acknowledgements (script c)) later))
        ≡ ok tt (with_rx (having_sent d (script_bytes d.node_id (script c))) later)
  operation-acknowledged c later d fits hn takes =
      ap (λ m. m (with_rx d (incoming (acknowledgements (script c)) later))) (operation-script c)
      ∙ perform-acknowledged (script c) later d fits hn takes

  -- If the node id is a byte, the values of the operation's writes are in the ranges of their types,
  -- the port takes every byte, and the controller acknowledges the writes of the script that come
  -- before `w` and refuses `w`, the operation returns the error of the controller: the frames up to
  -- that of `w` have been sent, and none behind it.
  pub operation-refused :
      (c : Command) (before : List Write) (w : Write) (after : List Write) (low high : ℕ)
      (later : List (RxEvent E)) (d : Epos4 E)
      → script c ≡ before ++ w ∷ after
      → All Fits (script c)
      → d.node_id < 256
      → Accepts d
      → is_error (from_words low high) ≡ true
      → operation c
          (with_rx d (incoming (acknowledgements before ++ response_bytes low high []) later))
        ≡ err
            (device (from_words low high))
            (with_rx (having_sent d (script_bytes d.node_id (before ++ w ∷ []))) later)
  operation-refused c before w after low high later d split fits hn takes bad =
      ap
        (λ m.
          m (with_rx d (incoming (acknowledgements before ++ response_bytes low high []) later)))
        (operation-script c ∙ ap perform split)
      ∙ perform-refused before w after low high later d (rw split at fits) hn takes bad
