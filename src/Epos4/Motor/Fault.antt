-- ===== src/Epos4/Motor/Fault.antt =====
-- `clear_fault`: what it sends and returns for every pair of states that the device reports.
use asteria_firmware.Prelude.{
  ℕ, ◌/◌, ◌%◌, ◌^◌, ◌<◌, ◌≡◌, refl, sym, ap, ap₂, ◌∙◌, arith, Bool, true, false, List, [], ◌∷◌,
  ◌++◌, append_assoc, if◌then◌else◌,
}
use asteria_firmware.Epos4.Device.{
  from_status_word, is_fault, device_in_fault_state, from_words, of_code,
}
use asteria_firmware.Epos4.Link.{RxEvent, Epos4, Result, ok, err, M, bind_result, pure, fail_if}
use asteria_firmware.Epos4.Link.Encoding.{
  having_sent, with_rx, Accepts, then-ok, next-ok, incoming, incoming-append,
}
use asteria_firmware.Epos4.Frame.Transfer.{request_bytes, response_bytes}
use asteria_firmware.Epos4.Object.{address_words, write_words, write_object, read_object}
use asteria_firmware.Epos4.Object.Access.{write_object-answered, read_object-answered, verdict}
use asteria_firmware.Epos4.Motor.{get_status, reset_fault, clear_fault}

-- The response to a read of the status word.
abbrev pub status_bytes : ℕ → List ℕ
status_bytes word = response_bytes 0 0 (word ∷ 0 ∷ [])

abbrev pub ask_status : ℕ → List ℕ
ask_status node_id = request_bytes 0x60 (address_words node_id 0x6041 0)

abbrev pub write_control : ℕ → ℕ → List ℕ
write_control node_id value = request_bytes 0x68 (write_words node_id 0x6040 0 value)

-- What `clear_fault` sends when the first status is a fault.
abbrev pub reset_bytes : ℕ → List ℕ
reset_bytes node_id =
    write_control node_id 0x80 ++ (write_control node_id 0x00 ++ ask_status node_id)

-- The end of `clear_fault`, by the second status.
abbrev pub conclude : {E : Type 0} → Bool → Epos4 E → Result E (Unit {0})
conclude persistent d = if persistent then err device_in_fault_state d else ok tt d

conclude_lem :
    {E : Type 0} (b : Bool) (d : Epos4 E)
    → bind_result (fail_if b device_in_fault_state d) (λ _. pure tt) ≡ conclude b d
conclude_lem true d = refl
conclude_lem false d = refl

module _ {E : Type 0} where
  positive : {A : Type 0} (a : A) (d : Epos4 E) → verdict 0 0 a d ≡ ok a d
  unfolding from_words of_code
  positive a d = refl

  pub get_status-answered :
      (word : ℕ) (later : List (RxEvent E)) (d : Epos4 E)
      → word < 2 ^ 16
      → d.node_id < 256
      → Accepts d
      → get_status (with_rx d (incoming (status_bytes word) later))
        ≡ ok (from_status_word word) (with_rx (having_sent d (ask_status d.node_id)) later)
  unfolding get_status
  get_status-answered word later d hw hn takes =
      then-ok (read_object 0x6041 0) (λ answer. pure (from_status_word (answer % 65536))) answered
        (ap (λ w. ok (from_status_word w) (with_rx (having_sent d (ask_status d.node_id)) later))
          narrow)
    where
      narrow : word % 65536 ≡ word
      narrow = omega arith

      no_high : word / 65536 ≡ 0
      no_high = omega arith

      answered :
          read_object 0x6041 0 (with_rx d (incoming (status_bytes word) later))
          ≡ ok word (with_rx (having_sent d (ask_status d.node_id)) later)
      answered =
          ap₂
            (λ low high.
              read_object 0x6041 0
                (with_rx d (incoming (response_bytes 0 0 (low ∷ high ∷ [])) later)))
            (sym narrow) (sym no_high)
          ∙ read_object-answered d takes hn 0x6041 0 (omega arith) (omega arith) word 0 0 later
              (omega arith)
          ∙ positive word (with_rx (having_sent d (ask_status d.node_id)) later)

  control-answered :
      (value : ℕ) (bytes : List ℕ) (later : List (RxEvent E)) (d : Epos4 E)
      → value < 2 ^ 32
      → d.node_id < 256
      → Accepts d
      → write_object 0x6040 0 value (with_rx d (incoming (response_bytes 0 0 [] ++ bytes) later))
        ≡ ok tt (with_rx (having_sent d (write_control d.node_id value)) (incoming bytes later))
  control-answered value bytes later d hv hn takes =
      ap (λ events. write_object 0x6040 0 value (with_rx d events))
        (incoming-append (response_bytes 0 0 []) bytes later)
      ∙ write_object-answered d takes hn 0x6040 0 (omega arith) (omega arith) value 0 0
          (incoming bytes later) hv
      ∙ positive tt (with_rx (having_sent d (write_control d.node_id value)) (incoming bytes later))

  reset_fault-answered :
      (word : ℕ) (later : List (RxEvent E)) (d : Epos4 E)
      → word < 2 ^ 16
      → d.node_id < 256
      → Accepts d
      → reset_fault (
          with_rx d (
            incoming (response_bytes 0 0 [] ++ (response_bytes 0 0 [] ++ status_bytes word)) later))
        ≡ conclude
            (is_fault (from_status_word word))
            (with_rx (having_sent d (reset_bytes d.node_id)) later)
  unfolding reset_fault
  reset_fault-answered word later d hw hn takes =
      next-ok (write_object 0x6040 0 0x80) _
        (control-answered 0x80 (response_bytes 0 0 [] ++ status_bytes word) later d (omega arith) hn
          takes)
        (next-ok (write_object 0x6040 0 0) _
          (control-answered 0 (status_bytes word) later
            (having_sent d (write_control d.node_id 0x80)) (omega arith) hn takes)
          (then-ok get_status _
            (get_status-answered word later
              (having_sent (having_sent d (write_control d.node_id 0x80))
                (write_control d.node_id 0))
              hw hn takes)
            (conclude_lem (is_fault (from_status_word word)) _)))
      ∙ ap
          (λ sent.
            conclude (is_fault (from_status_word word)) (with_rx (record d { sent = sent }) later))
          regroup
    where
      first : List ℕ
      first = write_control d.node_id 0x80

      second : List ℕ
      second = write_control d.node_id 0

      regroup :
          ((d.sent ++ first) ++ second) ++ ask_status d.node_id ≡ d.sent ++ reset_bytes d.node_id
      regroup =
          append_assoc (d.sent ++ first) second (ask_status d.node_id)
          ∙ append_assoc d.sent first (second ++ ask_status d.node_id)

  step : Bool → M E (Unit {0})
  step b = if b then reset_fault else pure tt

  -- Without a fault `clear_fault` returns, and nothing but the status has been asked for.
  clear_fault-healthy :
      (word : ℕ) (later : List (RxEvent E)) (d : Epos4 E)
      → word < 2 ^ 16
      → d.node_id < 256
      → Accepts d
      → is_fault (from_status_word word) ≡ false
      → clear_fault (with_rx d (incoming (status_bytes word) later))
        ≡ ok tt (with_rx (having_sent d (ask_status d.node_id)) later)
  unfolding clear_fault step
  clear_fault-healthy word later d hw hn takes fine =
      then-ok get_status (λ s. step (is_fault s)) (get_status-answered word later d hw hn takes)
        (ap (λ b. step b (with_rx (having_sent d (ask_status d.node_id)) later)) fine)

  -- In a fault `clear_fault` sets bit 7 of the control word, clears it again and asks for the status
  -- once more; it returns `DeviceInFaultState` exactly when that second status is still a fault.
  pub clear_fault-faulty :
      (first second : ℕ) (later : List (RxEvent E)) (d : Epos4 E)
      → first < 2 ^ 16
      → second < 2 ^ 16
      → d.node_id < 256
      → Accepts d
      → is_fault (from_status_word first) ≡ true
      → clear_fault (
          with_rx d (
            incoming
              (status_bytes first
                ++ (response_bytes 0 0 [] ++ (response_bytes 0 0 [] ++ status_bytes second)))
              later))
        ≡ conclude (is_fault (from_status_word second)) (
            with_rx
              (having_sent (having_sent d (ask_status d.node_id)) (reset_bytes d.node_id))
              later)
  unfolding clear_fault step
  clear_fault-faulty first second later d hf hs hn takes bad =
      ap (λ events. clear_fault (with_rx d events))
        (incoming-append (status_bytes first) rest later)
      ∙ then-ok get_status (λ s. step (is_fault s))
          (get_status-answered first (incoming rest later) d hf hn takes)
          (ap (λ b. step b (with_rx (having_sent d (ask_status d.node_id)) (incoming rest later)))
              bad
            ∙ reset_fault-answered second later (having_sent d (ask_status d.node_id)) hs hn takes)
    where
      rest : List ℕ
      rest = response_bytes 0 0 [] ++ (response_bytes 0 0 [] ++ status_bytes second)
