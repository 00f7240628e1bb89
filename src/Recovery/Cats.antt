-- ===== src/Recovery/Cats.antt =====
-- The readout of the backup flight computer (fw-recovery-board/app/src/cats.rs): `detect` on one pin.
pub mod Order
use asteria_firmware.Prelude.{Bool, true, false, List, [], ◌∷◌, ◌++◌}

-- The variants of the external `DeploymentState`.
pub data DeploymentState : Type 0 where
  unarmed not_yet_deployed deployed : DeploymentState

-- Where `detect` waits: for low, for high, for the 20 ms to pass, and for high behind a deployment.
pub data Phase : Type 0 where
  awaiting_power awaiting_release settling awaiting_disarm : Phase

-- What the task can notice: the pin is low or high while it is watched, and the 20 ms are over, with
-- whether the pin is then high.
pub data PinEvent : Type 0 where
  low high : PinEvent
  settled : Bool → PinEvent

-- The task up to its next wait, with what it sends; what it does not wait for has no effect.
unfoldable pub react : Phase → PinEvent → Phase × List DeploymentState
react awaiting_power low = (awaiting_release, not_yet_deployed ∷ [])
react awaiting_power high = (awaiting_power, [])
react awaiting_power (settled is_high) = (awaiting_power, [])
react awaiting_release low = (awaiting_release, [])
react awaiting_release high = (settling, [])
react awaiting_release (settled is_high) = (awaiting_release, [])
react settling low = (settling, [])
react settling high = (settling, [])
react settling (settled true) = (awaiting_power, unarmed ∷ [])
react settling (settled false) = (awaiting_disarm, deployed ∷ [])
react awaiting_disarm low = (awaiting_disarm, [])
react awaiting_disarm high = (awaiting_power, unarmed ∷ [])
react awaiting_disarm (settled is_high) = (awaiting_disarm, [])

-- What is sent over a sequence of events.
unfoldable pub sends : Phase → List PinEvent → List DeploymentState
sends phase [] = []
sends phase (event ∷ rest) = (react phase event).1 ++ sends (react phase event).0 rest

-- `detect` from its first line on.
unfoldable pub detect : List PinEvent → List DeploymentState
detect events = unarmed ∷ sends awaiting_power events
