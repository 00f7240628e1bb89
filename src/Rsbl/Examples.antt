-- ===== src/Rsbl/Examples.antt =====
-- Concrete runs of the servo driver.
use asteria_firmware.Prelude.{ℕ, ◌+◌, ◌≡◌, refl, arith, true, [], ◌∷◌, ◌++◌, some}
use asteria_firmware.Prelude.Int.{pos, negsuc}
use asteria_firmware.Rsbl.Bus.{silence, Rsbl, ok, final}
use asteria_firmware.Rsbl.Transfer.{incoming, with_rx, having_sent}
use asteria_firmware.Rsbl.Frame.{write_to_servo, read_from_servo}
use asteria_firmware.Rsbl.Frame.Sent.{instruction_frame, SumsUp, write_to_servo-frame}
use asteria_firmware.Rsbl.Frame.Reply.{reply, meaning, read_from_servo-reply}
use asteria_firmware.Rsbl.Motion.{right, tracked_pos, move_absolute}
use asteria_firmware.Rsbl.Motion.Keeps.{other, move_absolute-tracks}

abbrev idle_bus : Rsbl
idle_bus = record {
  rx = [];
  tx = λ _. true;
  calls = 0;
  sent = [];
  left_pos = pos 100;
  right_pos = pos 0;
}

write_to_servo-frame_example :
    (checksum : ℕ) × (write_to_servo 2 3 (some 0x37) (some (1 ∷ [])) idle_bus
      ≡ ok tt (having_sent idle_bus 5 (instruction_frame 2 3 0x37 (1 ∷ []) checksum)))
    × SumsUp (2 + 4 + 3 + 0x37 + 1) checksum
write_to_servo-frame_example =
    write_to_servo-frame 2 3 0x37 (1 ∷ []) idle_bus (omega arith) (λ _. refl)

read_from_servo-reply_example :
    read_from_servo 2 1
      (with_rx idle_bus (incoming (reply 2 3 0 (7 ∷ []) 243 ++ (9 ∷ [])) (silence ∷ [])))
    ≡ meaning 2 3 0 (7 ∷ []) 243 (with_rx idle_bus [])
read_from_servo-reply_example =
    read_from_servo-reply 2 2 3 0 (7 ∷ []) 243 (9 ∷ []) [] idle_bus (λ e. absurd (omega arith))
      (omega arith)

move_absolute-tracks_example :
    (tracked_pos right (final (move_absolute right (negsuc 8) idle_bus)) ≡ negsuc 8)
    × (tracked_pos (other right) (final (move_absolute right (negsuc 8) idle_bus))
        ≡ tracked_pos (other right) idle_bus)
move_absolute-tracks_example = move_absolute-tracks right (negsuc 8) idle_bus
