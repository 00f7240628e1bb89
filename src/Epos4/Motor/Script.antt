-- ===== src/Epos4/Motor/Script.antt =====
-- Lists of writes: how far they get, for every answer of the device.
use asteria_firmware.Prelude.{
  ℕ, ◌^◌, ◌<◌, ◌≡◌, refl, sym, ap, ap₂, ◌∙◌, true, List, [], ◌∷◌, ◌++◌, All, append-nil,
  append_assoc,
}
use asteria_firmware.Epos4.Device.{device, from_words, of_code, is_error}
use asteria_firmware.Epos4.Link.{RxEvent, Epos4, ok, err, M, bind_result, ◌>>◌, pure}
use asteria_firmware.Epos4.Link.Encoding.{
  having_sent, with_rx, Accepts, next-ok, incoming, incoming-append,
}
use asteria_firmware.Epos4.Frame.Transfer.{request_bytes, response_bytes}
use asteria_firmware.Epos4.Object.{write_object}
use asteria_firmware.Epos4.Object.Access.{
  write_object-answered, verdict, address_bytes, value_bytes, pair_up, request_words,
}

-- One write of a value to an object.
pub record Write : Type 0 where
  pub index : ℕ
  pub subindex : ℕ
  pub value : ℕ

abbrev pub Fits : Write → Type 0
Fits w = (w.index < 65536) × (w.subindex < 256) × (w.value < 2 ^ 32)

-- The writes in order; the first that does not succeed ends the list.
unfoldable pub perform : {E : Type 0} → List Write → M E (Unit {0})
perform [] = pure tt
perform (w ∷ ws) = do write_object w.index w.subindex w.value; perform ws

-- The frame of a write: the node, the index, the subindex and the value, lowest byte first.
abbrev pub write_frame : ℕ → Write → List ℕ
write_frame node_id w =
    request_bytes 0x68 (pair_up (address_bytes node_id w.index w.subindex ++ value_bytes w.value))

-- What the writes send to a node.
abbrev pub script_bytes : ℕ → List Write → List ℕ
script_bytes node_id [] = []
script_bytes node_id (w ∷ ws) = write_frame node_id w ++ script_bytes node_id ws

-- One positive response for each write.
abbrev pub acknowledgements : List Write → List ℕ
acknowledgements [] = []
acknowledgements (w ∷ ws) = response_bytes 0 0 [] ++ acknowledgements ws

script_bytes-append :
    (node_id : ℕ) (xs ys : List Write)
    → script_bytes node_id (xs ++ ys) ≡ script_bytes node_id xs ++ script_bytes node_id ys
script_bytes-append node_id [] ys = refl
script_bytes-append node_id (x ∷ xs) ys =
    ap (◌++◌ first) (script_bytes-append node_id xs ys)
    ∙ sym (append_assoc first (script_bytes node_id xs) (script_bytes node_id ys))
  where
    first : List ℕ
    first = write_frame node_id x

All-append_left : (xs ys : List Write) → All Fits (xs ++ ys) → All Fits xs
All-append_left [] ys h = tt
All-append_left (x ∷ xs) ys h = (h.0, All-append_left xs ys h.1)

All-append_right : (xs ys : List Write) → All Fits (xs ++ ys) → All Fits ys
All-append_right [] ys h = h
All-append_right (x ∷ xs) ys h = All-append_right xs ys h.1

module _ {E : Type 0} where
  positive : (d : Epos4 E) → verdict 0 0 tt d ≡ ok tt d
  unfolding from_words of_code
  positive d = refl

  -- A write whose response arrives whole, with its frame byte by byte.
  write-answered :
      (w : Write) (d : Epos4 E) (low high : ℕ) (later : List (RxEvent E))
      → Fits w
      → d.node_id < 256
      → Accepts d
      → write_object w.index w.subindex w.value
          (with_rx d (incoming (response_bytes low high []) later))
        ≡ verdict low high tt (with_rx (having_sent d (write_frame d.node_id w)) later)
  write-answered w d low high later fits hn takes =
      write_object-answered d takes hn w.index w.subindex fits.0 fits.1 w.value low high later
        fits.2
      ∙ ap (λ words. verdict low high tt (with_rx (having_sent d (request_bytes 0x68 words)) later))
          ((request_words d.node_id w.index w.subindex hn fits.0 fits.1 w.value fits.2).1)

  perform-append :
      (before rest : List Write) (bytes : List ℕ) (later : List (RxEvent E)) (d : Epos4 E)
      → All Fits before
      → d.node_id < 256
      → Accepts d
      → perform (before ++ rest) (with_rx d (incoming (acknowledgements before ++ bytes) later))
        ≡ perform rest
            (with_rx (having_sent d (script_bytes d.node_id before)) (incoming bytes later))
  unfolding perform
  perform-append [] rest bytes later d fits hn takes =
      ap (λ sent. perform rest (with_rx (record d { sent = sent }) (incoming bytes later)))
        (sym (append-nil d.sent))
  perform-append (w ∷ ws) rest bytes later d fits hn takes =
      ap (λ events. perform (w ∷ ws ++ rest) (with_rx d events)) arriving
      ∙ next-ok (write_object w.index w.subindex w.value) (perform (ws ++ rest)) answered
          (perform-append ws rest bytes later having_first fits.1 hn takes)
      ∙ ap (λ sent. perform rest (with_rx (record d { sent = sent }) (incoming bytes later)))
          (append_assoc d.sent first (script_bytes d.node_id ws))
    where
      first : List ℕ
      first = write_frame d.node_id w

      having_first : Epos4 E
      having_first = having_sent d first

      left : List ℕ
      left = acknowledgements ws ++ bytes

      arriving :
          incoming ((response_bytes 0 0 [] ++ acknowledgements ws) ++ bytes) later
          ≡ incoming (response_bytes 0 0 []) (incoming left later)
      arriving =
          ap (λ xs. incoming xs later)
            (append_assoc (response_bytes 0 0 []) (acknowledgements ws) bytes)
          ∙ incoming-append (response_bytes 0 0 []) left later

      answered :
          write_object w.index w.subindex w.value
            (with_rx d (incoming (response_bytes 0 0 []) (incoming left later)))
          ≡ ok tt (with_rx having_first (incoming left later))
      answered =
          write-answered w d 0 0 (incoming left later) fits.0 hn takes
          ∙ positive (with_rx having_first (incoming left later))

  -- A device that acknowledges every write gets all of them, in order, and nothing else.
  pub perform-acknowledged :
      (ws : List Write) (later : List (RxEvent E)) (d : Epos4 E)
      → All Fits ws
      → d.node_id < 256
      → Accepts d
      → perform ws (with_rx d (incoming (acknowledgements ws) later))
        ≡ ok tt (with_rx (having_sent d (script_bytes d.node_id ws)) later)
  unfolding perform
  perform-acknowledged ws later d fits hn takes =
      ap₂ (λ script bytes. perform script (with_rx d (incoming bytes later))) (sym (append-nil ws))
        (sym (append-nil (acknowledgements ws)))
      ∙ perform-append ws [] [] later d fits hn takes

  -- The first refusal ends the list: the writes before it and the refused one have been sent, none
  -- of those after it, and the device's error is returned.
  pub perform-refused :
      (before : List Write) (w : Write) (after : List Write) (low high : ℕ)
      (later : List (RxEvent E)) (d : Epos4 E)
      → All Fits (before ++ w ∷ after)
      → d.node_id < 256
      → Accepts d
      → is_error (from_words low high) ≡ true
      → perform
          (before ++ w ∷ after)
          (with_rx d (incoming (acknowledgements before ++ response_bytes low high []) later))
        ≡ err
            (device (from_words low high))
            (with_rx (having_sent d (script_bytes d.node_id (before ++ w ∷ []))) later)
  unfolding perform
  perform-refused before w after low high later d fits hn takes bad =
      perform-append before (w ∷ after) (response_bytes low high []) later d
        (All-append_left before (w ∷ after) fits) hn takes
      ∙ ap (λ r. bind_result r (λ _. perform after)) refusal
    where
      those : All Fits (w ∷ after)
      those = All-append_right before (w ∷ after) fits

      reached : Epos4 E
      reached = having_sent d (script_bytes d.node_id before)

      request : List ℕ
      request = write_frame d.node_id w

      sent_bytes :
          (d.sent ++ script_bytes d.node_id before) ++ request
          ≡ d.sent ++ script_bytes d.node_id (before ++ w ∷ [])
      sent_bytes =
          append_assoc d.sent (script_bytes d.node_id before) request
          ∙ ap (◌++◌ d.sent) (
              ap (◌++◌ (script_bytes d.node_id before)) (sym (append-nil request))
              ∙ sym (script_bytes-append d.node_id before (w ∷ [])))

      refusal :
          write_object w.index w.subindex w.value
            (with_rx reached (incoming (response_bytes low high []) later))
          ≡ err
              (device (from_words low high))
              (with_rx (having_sent d (script_bytes d.node_id (before ++ w ∷ []))) later)
      refusal =
          write-answered w reached low high later those.0 hn takes
          ∙ rw bad (
              ap
                (λ sent.
                  err (device (from_words low high)) (with_rx (record d { sent = sent }) later))
                sent_bytes)
