-- ===== src/Lox/Examples.antt =====
-- Concrete runs of the start of the valve.
use asteria_firmware.Prelude.{ℕ, zero, suc, ◌≡◌, arith, true, List, []}
use asteria_firmware.Prelude.Int.{pos}
use asteria_firmware.Epos4.Link.{RxEvent, Epos4, accepted}
use asteria_firmware.Epos4.Link.Encoding.{incoming}
use asteria_firmware.Epos4.Motor.Fault.{status_bytes}
use asteria_firmware.Lox.Task.{Board}
use asteria_firmware.Lox.Valve.{rel_to_abs, abs_to_rel, wait_for_motor_ready, start_valve}
use asteria_firmware.Lox.Valve.Offset.{abs_to_rel-rel_to_abs}
use asteria_firmware.Lox.Valve.Ready.{IsCalm, wait_for_motor_ready-IsCalm}
use asteria_firmware.Lox.Valve.Started.{IsFlagged, start_valve-IsFlagged}

abbrev no_motor : Epos4 (Unit {0})
no_motor = record { node_id = 1; rx = []; tx = λ _. accepted; sent = [] }

-- The motor answers the first request with "switch on disabled".
abbrev arriving : ℕ → List (RxEvent (Unit {0}))
arriving zero = incoming (status_bytes 0x40) []
arriving (suc n) = []

abbrev bench : Board (Unit {0})
bench = record {
  motor = no_motor;
  status = 12;
  home = pos 0;
  calls = 0;
  arrivals = arriving;
  polls = 0;
  switch_low = λ _. true;
}

start_valve-IsFlagged_example : IsFlagged 12 (start_valve 3 3 bench)
start_valve-IsFlagged_example = start_valve-IsFlagged (Unit {0}) 3 3 bench

wait_for_motor_ready-IsCalm_example : IsCalm (wait_for_motor_ready 2 bench)
wait_for_motor_ready-IsCalm_example = wait_for_motor_ready-IsCalm (Unit {0}) 2 bench

abs_to_rel-rel_to_abs_example :
    abs_to_rel (pos 2147483000) (rel_to_abs (pos 2147483000) (pos 159744)) ≡ pos 159744
abs_to_rel-rel_to_abs_example =
    abs_to_rel-rel_to_abs (pos 2147483000) (pos 159744) (omega arith) (omega arith)
