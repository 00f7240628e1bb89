-- ===== src/Recovery/Examples.antt =====
-- Concrete runs of the recovery board's steering loop and of the readout of the backup computer.
use asteria_firmware.Prelude.{ℕ, ◌≡◌, refl, Bool, true, false, List, [], ◌∷◌, none, some}
use asteria_firmware.Prelude.Int.{pos}
use asteria_firmware.Rsbl.Bus.{Rsbl}
use asteria_firmware.Recovery.Watchdog.{Watchdog, IsExpired}
use asteria_firmware.Recovery.Cats.{unarmed, not_yet_deployed, deployed, low, high, settled, detect}
use asteria_firmware.Recovery.Cats.Order.{
  Cycles, at_rest, then_cycles, switched_off, fired, detect-cycles,
}
use asteria_firmware.Recovery.Steering.{Steering, Round, rounds}
use asteria_firmware.Recovery.Steering.Expired.{Heads, rounds-IsExpired}

abbrev quiet_bus : Rsbl
quiet_bus = record {
  rx = [];
  tx = λ _. true;
  calls = 0;
  sent = [];
  left_pos = pos 7;
  right_pos = pos 0;
}

abbrev fed_at_zero : Watchdog
fed_at_zero = record { active = true; last_seen = 0; duration = 10; expired = false }

abbrev run_out : Watchdog
run_out = record fed_at_zero { expired = true }

abbrev flying : Watchdog → Steering
flying w = record {
  rsbl = quiet_bus;
  watchdog = w;
  last = 0;
  active = true;
  is_watched = true;
  safety_spiral_active = false;
  targets = none;
  sent = [];
}

abbrev round_at : ℕ → Bool → Round
round_at now powered = record {
  powered = powered;
  message = some (pos 1000, pos 1000);
  reset = λ t. t;
  checked_at = now;
  started_at = now;
  updated_at = now;
  compared_at = now;
  reported_at = now;
  report_interval = 100;
}

-- The power goes off and on again.
abbrev power_cycle : List Round
power_cycle = round_at 20 true ∷ round_at 30 false ∷ round_at 40 true ∷ []

rounds-IsExpired_example :
    IsExpired (rounds power_cycle (flying run_out)).watchdog
    × Heads quiet_bus (rounds power_cycle (flying run_out)).rsbl
rounds-IsExpired_example =
    rounds-IsExpired power_cycle (flying run_out)
      ((λ t. (refl, refl)), ((λ t. (refl, refl)), ((λ t. (refl, refl)), tt))) (refl, refl)

-- The pin is high, a pyro channel is fired, and the flight computer is switched on and off.
abbrev two_cycles :
    Cycles
      (high ∷ low ∷ high ∷ settled false ∷ low ∷ high ∷ low ∷ high ∷ settled true ∷ [])
      (not_yet_deployed ∷ deployed ∷ unarmed ∷ not_yet_deployed ∷ unarmed ∷ [])
two_cycles =
    then_cycles (fired (high ∷ []) [] [] (low ∷ []) (tt, tt) tt tt (tt, tt))
      (then_cycles (switched_off [] [] [] tt tt tt) (at_rest [] tt))

detect-cycles_example :
    detect (high ∷ low ∷ high ∷ settled false ∷ low ∷ high ∷ low ∷ high ∷ settled true ∷ [])
    ≡ unarmed ∷ not_yet_deployed ∷ deployed ∷ unarmed ∷ not_yet_deployed ∷ unarmed ∷ []
detect-cycles_example = detect-cycles two_cycles
