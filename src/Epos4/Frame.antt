-- ===== src/Epos4/Frame.antt =====
-- Request and response frames: sync sequence, header, words, CRC.
pub mod Transfer
pub mod Accepted
pub mod Arrived
use asteria_firmware.Prelude.{
  ℕ, zero, suc, ◌+◌, ◌*◌, ◌/◌, ◌%◌, ◌^◌, bit_and, bit_or, true, false, if◌then◌else◌, List, [], ◌∷◌,
  ◌!=◌, length,
}
use asteria_firmware.Epos4.Device.{framing, device, from_words, is_error}
use asteria_firmware.Epos4.Crc.{calculate_crc, check_crc}
use asteria_firmware.Epos4.Link.{
  M, ◌>>=◌, ◌>>◌, pure, fail_if, read_word, read_sync_sequence, send_word, send_sync,
}

module _ {E : Type 0} where
  -- `for &word in data { self.send_word(word) }`
  pub send_words : List ℕ → M E (Unit {0})
  send_words [] = pure tt
  send_words (word ∷ words) = do send_word word; send_words words

  -- `for item in &mut data_array { *item = self.read_word() }`, over an array of `n` words.
  pub read_words : ℕ → M E (List ℕ)
  read_words zero = pure []
  read_words (suc n) = do word ← read_word; words ← read_words n; pure (word ∷ words)

  -- The opcode is a byte and `data` has at most 255 words: `data.len() as u8`.
  pub send_request_frame : ℕ → List ℕ → M E (Unit {0})
  send_request_frame opcode words =
      let len = length words % 2 ^ 8 in
      let header = bit_or (len * 2 ^ 8 % 2 ^ 16) opcode in
      let crc = calculate_crc header words in
      do send_sync; send_word header; send_words words; send_word crc

  -- The end of `read_response_frame`, once all its words have been read.
  pub accept_frame : ℕ → ℕ → ℕ → List ℕ → ℕ → M E (List ℕ)
  accept_frame header low high words received_crc = do
    fail_if (if check_crc header (low ∷ high ∷ []) words received_crc then false else true) framing
    fail_if (is_error (from_words low high)) (device (from_words low high))
    pure words

  -- `read_response_frame::<L>`, with the number of data words that it expects.
  pub read_response_frame : ℕ → M E (List ℕ)
  read_response_frame l = do
    read_sync_sequence
    header ← read_word
    fail_if (header / 2 ^ 8 != l + 2) framing
    fail_if (bit_and header 0xFF % 2 ^ 8 != 0x00) framing
    low ← read_word
    high ← read_word
    words ← read_words l
    received_crc ← read_word
    accept_frame header low high words received_crc
