-- ===== src/Epos4/Object/Access.antt =====
-- What an access puts on the link and what it makes of the response.
use asteria_firmware.Prelude.{
  ℕ, ◌+◌, ◌*◌, ◌/◌, ◌%◌, ◌^◌, ◌<◌, ◌≡◌, ap, ◌∙◌, arith, List, [], ◌∷◌, ◌++◌, if◌then◌else◌, bit_and,
  bit_or, length, get_or, All, Bool-cases, inl, inr,
}
use asteria_firmware.Bits.Fields.{and_mask, or_fields}
use asteria_firmware.Bits.Or.{or_comm}
use asteria_firmware.Epos4.Device.{device, from_words, is_error}
use asteria_firmware.Epos4.Link.{RxEvent, Epos4, Result, ok, err, bind_result, pure}
use asteria_firmware.Epos4.Link.Encoding.{having_sent, with_rx, Accepts, next-ok, incoming}
use asteria_firmware.Epos4.Frame.{send_request_frame}
use asteria_firmware.Epos4.Frame.Transfer.{
  request_bytes, response_bytes, send_request_frame-bytes, read_response_frame-bytes,
}
use asteria_firmware.Epos4.Object.{address_words, write_words, write_object, read_object}

-- A low field `lo` under a high field `q << k`.
or_low : (k lo q : ℕ) → lo < 2 ^ k → bit_or lo (q * 2 ^ k) ≡ q * 2 ^ k + lo
or_low k lo q h = or_comm lo (q * 2 ^ k) ∙ or_fields k q lo h

-- What an access sends, as bytes: the node, the index with its low byte first, and the subindex.
abbrev pub address_bytes : ℕ → ℕ → ℕ → List ℕ
address_bytes node_id index subindex = node_id ∷ index % 256 ∷ index / 256 ∷ subindex ∷ []

-- A 32-bit value, lowest byte first.
abbrev pub value_bytes : ℕ → List ℕ
value_bytes v = v % 256 ∷ v / 2 ^ 8 % 256 ∷ v / 2 ^ 16 % 256 ∷ v / 2 ^ 24 % 256 ∷ []

-- Pairs of bytes as words, low byte first.
abbrev pub pair_up : List ℕ → List ℕ
pair_up [] = []
pair_up (low ∷ []) = low ∷ []
pair_up (low ∷ high ∷ bytes) = (low + 256 * high) ∷ pair_up bytes

module _ (node_id index subindex : ℕ) (hn : node_id < 256) (hi : index < 65536)
    (hs : subindex < 256) where
  node_word : bit_or node_id (index * 256 % 65536) ≡ node_id + 256 * (index % 256)
  node_word = ap (bit_or node_id) shifted ∙ or_low 8 node_id (index % 256) hn ∙ omega arith
    where
      shifted : index * 256 % 65536 ≡ index % 256 * 256
      shifted = omega arith

  subindex_word : bit_or (index / 256) (subindex * 256 % 65536) ≡ index / 256 + 256 * subindex
  subindex_word =
      ap (bit_or (index / 256)) shifted
      ∙ or_low 8 (index / 256) subindex (omega arith)
      ∙ omega arith
    where
      shifted : subindex * 256 % 65536 ≡ subindex * 256
      shifted = omega arith

  address_words-bytes :
      address_words node_id index subindex ≡ pair_up (address_bytes node_id index subindex)
  unfolding address_words
  address_words-bytes = rw (node_word, subindex_word)

  -- The words of a request are its bytes in pairs: the address, and the value of a write.
  pub request_words :
      (value : ℕ)
      → value < 2 ^ 32
      → (address_words node_id index subindex ≡ pair_up (address_bytes node_id index subindex))
        × (write_words node_id index subindex value
            ≡ pair_up (address_bytes node_id index subindex ++ value_bytes value))
  unfolding write_words
  request_words value hv = (address_words-bytes, rw (node_word, subindex_word, low_word, high_word))
    where
      low_word : bit_and value 0xFFFF % 65536 ≡ value % 256 + 256 * (value / 256 % 256)
      low_word = omega (arith, and_mask 16 value)

      high_word : value / 65536 % 65536 ≡ value / 65536 % 256 + 256 * (value / 16777216 % 256)
      high_word = omega arith

  pub address_words-fit : All (λ w. w < 2 ^ 16) (address_words node_id index subindex)
  address_words-fit = rw address_words-bytes (omega arith)

  pub write_words-fit :
      (value : ℕ)
      → value < 2 ^ 32
      → All (λ w. w < 2 ^ 16) (write_words node_id index subindex value)
  write_words-fit value hv = rw ((request_words value hv).1) (omega arith)

-- What the driver returns when a response arrives whole: the value, or the error that the device
-- reports in its two words `low` and `high`.
abbrev pub verdict : {E A : Type 0} → ℕ → ℕ → A → Epos4 E → Result E A
verdict low high a d =
    if is_error (from_words low high) then err (device (from_words low high)) d else ok a d

after_verdict :
    {E A B : Type 0} (low high : ℕ) (f : A → B) (a : A) (d : Epos4 E)
    → bind_result (verdict low high a d) (λ x. pure (f x)) ≡ verdict low high (f a) d
after_verdict low high f a d = elim (Bool-cases (is_error (from_words low high))) [
  | inl bad ↦ rw bad
  | inr fine ↦ rw fine
]

module _ {E : Type 0} (d : Epos4 E) (takes : Accepts d) (hn : d.node_id < 256) (index subindex : ℕ)
    (hi : index < 65536) (hs : subindex < 256) where
  -- The driver after a write has been sent and its response has been taken off the link.
  abbrev pub having_written : ℕ → List (RxEvent E) → Epos4 E
  having_written value later =
      with_rx (having_sent d (request_bytes 0x68 (write_words d.node_id index subindex value)))
        later

  abbrev pub having_asked : List (RxEvent E) → Epos4 E
  having_asked later =
      with_rx (having_sent d (request_bytes 0x60 (address_words d.node_id index subindex))) later

  -- A write whose response arrives whole returns the device's verdict; exactly the request has been
  -- sent, and what follows the response stays on the link.
  pub write_object-answered :
      (value low high : ℕ) (later : List (RxEvent E))
      → value < 2 ^ 32
      → write_object index subindex value (with_rx d (incoming (response_bytes low high []) later))
        ≡ verdict low high tt (having_written value later)
  unfolding write_object
  write_object-answered value low high later hv =
      next-ok (send_request_frame 0x68 words) _
        (send_request_frame-bytes 0x68 words
          (with_rx d (incoming (response_bytes low high []) later)) (omega arith) short
          (write_words-fit d.node_id index subindex hn hi hs value hv) takes)
        (ap (λ r. bind_result r (λ _. pure tt))
            (read_response_frame-bytes low high [] later (having_written value []))
          ∙ after_verdict low high (λ _. tt) [] (having_written value later))
    where
      words : List ℕ
      words = write_words d.node_id index subindex value

      short : length words < 256
      short = unfold write_words in omega arith

  -- A read whose response arrives whole returns the 32-bit value that the response's two data words
  -- hold, or the device's error.
  pub read_object-answered :
      (value low high : ℕ) (later : List (RxEvent E))
      → value < 2 ^ 32
      → read_object index subindex (
          with_rx d
            (incoming (response_bytes low high (value % 2 ^ 16 ∷ value / 2 ^ 16 ∷ [])) later))
        ≡ verdict low high value (having_asked later)
  unfolding read_object
  read_object-answered value low high later hv =
      next-ok (send_request_frame 0x60 words) _
        (send_request_frame-bytes 0x60 words
          (with_rx d (incoming (response_bytes low high answer) later)) (omega arith) short
          (address_words-fit d.node_id index subindex hn hi hs) takes)
        (ap (λ r. bind_result r (λ response. pure (assemble response)))
            (read_response_frame-bytes low high answer later (having_asked []))
          ∙ after_verdict low high assemble answer (having_asked later)
          ∙ ap (λ v. verdict low high v (having_asked later)) whole)
    where
      words : List ℕ
      words = address_words d.node_id index subindex

      answer : List ℕ
      answer = value % 65536 ∷ value / 65536 ∷ []

      assemble : List ℕ → ℕ
      assemble response = bit_or (get_or response 0 0) (get_or response 1 0 * 65536 % 4294967296)

      short : length words < 256
      short = unfold address_words in omega arith

      whole : bit_or (value % 65536) (value / 65536 * 65536 % 4294967296) ≡ value
      whole =
          ap (bit_or (value % 65536)) no_wrap
          ∙ or_low 16 (value % 65536) (value / 65536) (omega arith)
          ∙ omega arith
        where
          no_wrap : value / 65536 * 65536 % 4294967296 ≡ value / 65536 * 65536
          no_wrap = omega arith
