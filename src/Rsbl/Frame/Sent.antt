-- ===== src/Rsbl/Frame/Sent.antt =====
-- What `write_to_servo` puts on the bus.
use asteria_firmware.Prelude.{
  ℕ, ◌+◌, ◌-◌, ◌%◌, ◌<◌, ◌≡◌, ap, ◌∙◌, arith, List, [], ◌∷◌, ◌++◌, length, some,
}
use asteria_firmware.Rsbl.Bus.{Rsbl, ok, write, flush}
use asteria_firmware.Rsbl.Transfer.{having_sent, Transmits, write-sent, sequence-sent}
use asteria_firmware.Rsbl.Frame.{sum, calc_checksum, write_register, write_to_servo}

-- An instruction frame: two header bytes, the servo, the number of bytes that follow, the
-- instruction, the register and the data, and the checksum.
abbrev pub instruction_frame : ℕ → ℕ → ℕ → List ℕ → ℕ → List ℕ
instruction_frame id instruction register bytes checksum =
    0xFF ∷ 0xFF ∷ id ∷ (length bytes + 3) ∷ instruction ∷ register ∷ (bytes ++ checksum ∷ [])

-- The rule of the protocol: all bytes between the header and the checksum, and the checksum, sum up
-- to 255 modulo 256.
abbrev pub SumsUp : ℕ → ℕ → Type 0
SumsUp total checksum = (checksum < 256) × ((total + checksum) % 256 ≡ 255)

-- When the transmitter works, an access to a register with up to 252 data bytes sends one
-- instruction frame, in five calls, whose checksum obeys the rule of the protocol.
pub write_to_servo-frame :
    (id instruction register : ℕ) (bytes : List ℕ) (s : Rsbl)
    → length bytes < 253
    → Transmits s
    → (checksum : ℕ) × (write_to_servo id instruction (some register) (some bytes) s
        ≡ ok tt (having_sent s 5 (instruction_frame id instruction register bytes checksum)))
      × SumsUp (id + (length bytes + 3) + instruction + register + sum bytes) checksum
unfolding write_to_servo write_register calc_checksum flush
write_to_servo-frame id instruction register bytes s h works = (checksum, writes, omega arith)
  where
    len : ℕ
    len = (length bytes + 3) % 256

    same_len : len ≡ length bytes + 3
    same_len = omega arith

    checksum : ℕ
    checksum = 255 - (sum bytes + (id + len + instruction + register)) % 65536 % 256

    head : List ℕ
    head = 0xFF ∷ 0xFF ∷ id ∷ len ∷ instruction ∷ []

    after_head : Rsbl
    after_head = having_sent s 1 head

    after_register : Rsbl
    after_register = having_sent after_head 1 (register ∷ [])

    after_data : Rsbl
    after_data = having_sent after_register 1 bytes

    after_checksum : Rsbl
    after_checksum = having_sent after_data 1 (checksum ∷ [])

    writes :
        write_register id instruction register bytes s
        ≡ ok tt (having_sent s 5 (instruction_frame id instruction register bytes checksum))
    writes =
        sequence-sent (write head) _ s 1 4 head (register ∷ (bytes ++ checksum ∷ []))
          (write-sent head s works)
          (sequence-sent (write (register ∷ [])) _ after_head 1 3 (register ∷ [])
            (bytes ++ checksum ∷ []) (write-sent (register ∷ []) after_head works)
            (sequence-sent (write bytes) _ after_register 1 2 bytes (checksum ∷ [])
              (write-sent bytes after_register works)
              (sequence-sent (write (checksum ∷ [])) (write []) after_data 1 1 (checksum ∷ []) []
                (write-sent (checksum ∷ []) after_data works)
                (write-sent [] after_checksum works))))
        ∙ ap
            (λ n. ok tt (
              having_sent s 5
                (0xFF ∷ 0xFF ∷ id ∷ n ∷ instruction ∷ register ∷ (bytes ++ checksum ∷ []))))
            same_len
