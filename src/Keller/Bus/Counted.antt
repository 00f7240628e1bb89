-- ===== src/Keller/Bus/Counted.antt =====
-- How many registers a read gives.
use asteria_firmware.Prelude.{ℕ, ◌≡◌, List, length}
use asteria_firmware.Keller.Bus.{Result, ok, err}

-- On success, as many registers as were asked for.
unfoldable pub IsCounted : ℕ → Result (List ℕ) → Type 0
IsCounted n (ok words b) = length words ≡ n
IsCounted n (err e b) = Unit {0}
