-- ===== src/Keller/Examples.antt =====
-- Concrete runs of the driver of the pressure sensors, with a library that answers two requests.
use asteria_firmware.Prelude.{ℕ, ◌≡◌, true, false, List, [], ◌∷◌, some}
use asteria_firmware.Keller.Uart.{baud115200, even, one, UartSettings}
use asteria_firmware.Keller.Bus.{
  Modbus, arrived, transmitted, flush_fails, KellerSensRs485, final, transact,
}
use asteria_firmware.Keller.Bus.Driven.{transact-de}

abbrev fast_even : UartSettings
fast_even = record { baud_rate = baud115200; parity = even; stop_bits = one }

-- Any answer is parsed as the given words.
abbrev answering : List ℕ → Modbus
answering words = record {
  generate_get_holdings = λ r. some (r.unit_id ∷ []);
  generate_set_holding = λ r. some (r.unit_id ∷ []);
  parse_u16 = λ r capacity bytes. some words;
  parse_ok = λ r bytes. true;
  guess_response_frame_len = λ bytes. some 7;
}

abbrev frame : List ℕ
frame = 1 ∷ 3 ∷ 2 ∷ 0 ∷ 9 ∷ 120 ∷ 66 ∷ []

abbrev wired : KellerSensRs485
wired = record {
  baud = 115200;
  de = false;
  sent = [];
  blocked = 0;
  calls = 0;
  tx = λ _. transmitted;
  replies = arrived frame ∷ [];
}

abbrev unplugged : KellerSensRs485
unplugged = record wired { tx = λ _. flush_fails }

transact-de_example : (final (transact (answering []) (1 ∷ []) unplugged)).de ≡ true
transact-de_example = transact-de (answering []) (1 ∷ []) unplugged
