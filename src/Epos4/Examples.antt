-- ===== src/Epos4/Examples.antt =====
-- Concrete runs of the EPOS4 driver, on node 1 with a port that takes every byte.
use asteria_firmware.Prelude.{
  ℕ, ◌≡◌, ◌↔◌, refl, arith, true, false, List, [], ◌∷◌, ◌++◌, length, bit_and, bit_xor,
}
use asteria_firmware.Epos4.Device.{
  device, from_words, is_error, of_code, from_status_word, is_fault, operation_enabled,
}
use asteria_firmware.Epos4.Device.Codes.{
  status_code, from_status_word-status_code, from_status_word_bit_4,
}
use asteria_firmware.Epos4.Crc.{
  calculate_crc, check_crc, update_crc, update_all, crc_loop, crc_round,
}
use asteria_firmware.Epos4.Crc.Detect.{check_crc-calculate_crc, check_crc_detects}
use asteria_firmware.Epos4.Link.{Epos4, RxEvent, byte, accepted, ok, err}
use asteria_firmware.Epos4.Link.Encoding.{having_sent, with_rx, incoming}
use asteria_firmware.Epos4.Frame.{send_request_frame, read_response_frame}
use asteria_firmware.Epos4.Frame.Transfer.{
  request_bytes, response_bytes, send_request_frame-bytes, read_response_frame-bytes,
}
use asteria_firmware.Epos4.Frame.Arrived.{CodesWords, read_response_frame-arrived}
use asteria_firmware.Epos4.Object.{write_object, read_object}
use asteria_firmware.Epos4.Object.Access.{
  write_object-answered, read_object-answered, verdict, having_written, having_asked,
}
use asteria_firmware.Epos4.Motor.{clear_fault}
use asteria_firmware.Epos4.Motor.Script.{Write, acknowledgements, script_bytes}
use asteria_firmware.Epos4.Motor.Sequences.{
  to_enable, script, operation, operation-acknowledged, operation-refused,
}
use asteria_firmware.Epos4.Motor.Fault.{
  status_bytes, ask_status, reset_bytes, conclude, clear_fault-faulty,
}

abbrev node_one : Epos4 (Unit {0})
node_one = record { node_id = 1; rx = []; tx = λ _. accepted; sent = [] }

abbrev later_on : List (RxEvent (Unit {0}))
later_on = byte 7 ∷ []

abbrev ready_write : Write
ready_write = record { index = 0x6040; subindex = 0; value = 6 }

abbrev switch_write : Write
switch_write = record { index = 0x6040; subindex = 0; value = 7 }

abbrev power_write : Write
power_write = record { index = 0x6040; subindex = 0; value = 15 }

operation-acknowledged_example :
    operation to_enable (with_rx node_one (incoming (acknowledgements (script to_enable)) later_on))
    ≡ ok tt (with_rx (having_sent node_one (script_bytes 1 (script to_enable))) later_on)
operation-acknowledged_example =
    operation-acknowledged to_enable later_on node_one (omega arith) (omega arith) (λ _. refl)

-- The second of the three writes is refused.
operation-refused_example :
    operation to_enable (
      with_rx node_one
        (incoming (acknowledgements (ready_write ∷ []) ++ response_bytes 0x22 0x0800 []) later_on))
    ≡ err
        (device (from_words 0x22 0x0800))
        (with_rx (having_sent node_one (script_bytes 1 (ready_write ∷ switch_write ∷ []))) later_on)
operation-refused_example =
    operation-refused to_enable (ready_write ∷ []) switch_write (power_write ∷ []) 0x22 0x0800
      later_on node_one refl (omega arith) (omega arith) (λ _. refl)
      (unfold from_words of_code is_error in refl)

check_crc-calculate_crc_example :
    (check_crc 0x0400 (0 ∷ 0 ∷ []) (5 ∷ 6 ∷ []) 1234 ≡ true)
    ↔ (1234 ≡ calculate_crc 0x0400 (0 ∷ 0 ∷ 5 ∷ 6 ∷ []))
check_crc-calculate_crc_example =
    check_crc-calculate_crc 0x0400 (0 ∷ 0 ∷ []) (5 ∷ 6 ∷ []) 1234 (omega arith)

-- One bit of the data is flipped on the way.
check_crc_detects_example :
    check_crc 0x0300 (0 ∷ 0 ∷ []) (4 ∷ []) (calculate_crc 0x0300 (0 ∷ 0 ∷ 5 ∷ [])) ≡ false
check_crc_detects_example =
    check_crc_detects (0x0300 ∷ 0 ∷ 0 ∷ []) (calculate_crc 0x0300 (0 ∷ 0 ∷ 5 ∷ []) ∷ []) 5 4 0x0300
      0x0300 (0 ∷ 0 ∷ []) (0 ∷ 0 ∷ []) (5 ∷ []) (4 ∷ []) (calculate_crc 0x0300 (0 ∷ 0 ∷ 5 ∷ []))
      (calculate_crc 0x0300 (0 ∷ 0 ∷ 5 ∷ [])) refl refl (omega arith) (omega arith) (omega arith)
      (unfold check_crc calculate_crc update_all update_crc crc_loop crc_round in refl)

send_request_frame-bytes_example :
    send_request_frame 0x60 (0x9090 ∷ 2 ∷ []) node_one
    ≡ ok tt (having_sent node_one (request_bytes 0x60 (0x9090 ∷ 2 ∷ [])))
send_request_frame-bytes_example =
    send_request_frame-bytes 0x60 (0x9090 ∷ 2 ∷ []) node_one (omega arith) (omega arith)
      (omega arith) (λ _. refl)

read_response_frame-bytes_example :
    read_response_frame 1 (with_rx node_one (incoming (response_bytes 0 0 (0x90 ∷ [])) later_on))
    ≡ ok (0x90 ∷ []) (with_rx node_one later_on)
unfolding from_words of_code
read_response_frame-bytes_example = read_response_frame-bytes 0 0 (0x90 ∷ []) later_on node_one

abbrev one_word : Epos4 (Unit {0})
one_word = with_rx node_one (incoming (response_bytes 0 0 (7 ∷ [])) [])

read_response_frame-arrived_example :
    (bytes : List ℕ) × (one_word.rx ≡ incoming (0x90 ∷ 0x02 ∷ bytes) [])
    × (node_one ≡ with_rx one_word [])
    × (length {A = ℕ} (7 ∷ []) ≡ 1)
    × CodesWords bytes (0x0300 ∷ 0 ∷ 0 ∷ 7 ∷ calculate_crc 0x0300 (0 ∷ 0 ∷ 7 ∷ []) ∷ [])
unfolding from_words of_code calculate_crc update_all update_crc crc_loop crc_round
read_response_frame-arrived_example =
    read_response_frame-arrived 1 one_word node_one (7 ∷ []) (omega arith)
      (read_response_frame-bytes 0 0 (7 ∷ []) [] node_one)

write_object-answered_example :
    write_object 0x6060 0 6 (with_rx node_one (incoming (response_bytes 0 0 []) later_on))
    ≡ verdict 0 0 tt (
        having_written node_one
          (λ _. refl)
          (omega arith)
          0x6060
          0
          (omega arith)
          (omega arith)
          6
          later_on)
write_object-answered_example =
    write_object-answered node_one (λ _. refl) (omega arith) 0x6060 0 (omega arith) (omega arith) 6
      0 0 later_on (omega arith)

read_object-answered_example :
    read_object 0x6064 0
      (with_rx node_one (incoming (response_bytes 0 0 (0x5678 ∷ 0x1234 ∷ [])) later_on))
    ≡ verdict 0 0 0x12345678 (
        having_asked node_one
          (λ _. refl)
          (omega arith)
          0x6064
          0
          (omega arith)
          (omega arith)
          later_on)
read_object-answered_example =
    read_object-answered node_one (λ _. refl) (omega arith) 0x6064 0 (omega arith) (omega arith)
      0x12345678 0 0 later_on (omega arith)

from_status_word-status_code_example :
    (from_status_word 0x0237 ≡ operation_enabled) ↔ (bit_and 0x0237 0b0110_1111 ≡ 0b010_0111)
from_status_word-status_code_example =
    from_status_word-status_code 0x0237 operation_enabled 0b010_0111 (unfold status_code in refl)

-- A fault that is gone after the reset.
clear_fault-faulty_example :
    clear_fault (
      with_rx node_one (
        incoming
          (status_bytes 0x0008
            ++ (response_bytes 0 0 [] ++ (response_bytes 0 0 [] ++ status_bytes 0x0040)))
          later_on))
    ≡ conclude
        (is_fault (from_status_word 0x0040))
        (with_rx (having_sent (having_sent node_one (ask_status 1)) (reset_bytes 1)) later_on)
clear_fault-faulty_example =
    clear_fault-faulty 0x0008 0x0040 later_on node_one (omega arith) (omega arith) (omega arith)
      (λ _. refl) (unfold from_status_word in refl)

from_status_word_bit_4_example :
    from_status_word (bit_xor 0x0027 0b0001_0000) ≡ from_status_word 0x0027
from_status_word_bit_4_example = from_status_word_bit_4 0x0027
