-- ===== src/Epos4/Frame/Transfer.antt =====
-- What `send_request_frame` puts on the link, and that `read_response_frame` reads a response back.
use asteria_firmware.Prelude.{
  ℕ, ◌+◌, ◌*◌, ◌/◌, ◌%◌, ◌^◌, ◌<◌, ◌≡◌, refl, sym, ap, ◌∙◌, arith, Bool, true, false, List, [], ◌∷◌,
  ◌++◌, append-nil, append_assoc, ◌!=◌, if◌then◌else◌, bit_and, bit_or, length, All,
}
use asteria_firmware.Bits.Fields.{and_mask, or_fields}
use asteria_firmware.Epos4.Device.{framing, device, from_words, is_error}
use asteria_firmware.Epos4.Crc.{calculate_crc}
use asteria_firmware.Epos4.Crc.Detect.{check_crc-calculate_crc, calculate_crc-lt}
use asteria_firmware.Epos4.Link.{
  RxEvent, Epos4, ok, err, bind_result, ◌>>=◌, ◌>>◌, pure, fail_if, read_word, read_sync_sequence,
  send_word, send_sync,
}
use asteria_firmware.Epos4.Link.Encoding.{
  word_bytes, words_bytes, having_sent, with_rx, Accepts, then-ok, next-ok, sequence-sent,
  send_word-accepted, send_sync-accepted, incoming, incoming-append, read_word-first,
  read_word-word_bytes, read_sync_sequence-sync,
}
use asteria_firmware.Epos4.Frame.{
  send_words, read_words, send_request_frame, accept_frame, read_response_frame,
}

-- The words of a frame behind its sync sequence.
abbrev pub frame_words : ℕ → List ℕ → List ℕ
frame_words header words = header ∷ (words ++ calculate_crc header words ∷ [])

abbrev pub frame_bytes : ℕ → List ℕ → List ℕ
frame_bytes header words = 0x90 ∷ 0x02 ∷ words_bytes (frame_words header words)

-- A request counts its words in the high byte of the header.
abbrev pub request_bytes : ℕ → List ℕ → List ℕ
request_bytes opcode words = frame_bytes (length words * 256 + opcode) words

-- A response counts the two words of the error code too, and has opcode 0.
abbrev pub response_bytes : ℕ → ℕ → List ℕ → List ℕ
response_bytes low high words = frame_bytes ((length words + 2) * 256) (low ∷ high ∷ words)

pub words_bytes-append :
    (xs ys : List ℕ) → words_bytes (xs ++ ys) ≡ words_bytes xs ++ words_bytes ys
words_bytes-append [] ys = refl
words_bytes-append (x ∷ xs) ys =
    rw (words_bytes-append xs ys)
      (sym (append_assoc (word_bytes x) (words_bytes xs) (words_bytes ys)))

module _ {E : Type 0} where
  send_words-accepted :
      (ws : List ℕ) (d : Epos4 E)
      → All (λ w. w < 2 ^ 16) ws
      → Accepts d
      → send_words ws d ≡ ok tt (having_sent d (words_bytes ws))
  unfolding send_words
  send_words-accepted [] d hw h = ap (ok tt) (rw (append-nil d.sent))
  send_words-accepted (w ∷ ws) d hw h =
      sequence-sent (send_word w) (send_words ws) d (word_bytes w) (words_bytes ws)
        (send_word-accepted w d hw.0 h)
        (send_words-accepted ws (having_sent d (word_bytes w)) hw.1 h)

  send_body :
      (ws : List ℕ) (crc : ℕ) (d : Epos4 E)
      → All (λ w. w < 2 ^ 16) ws
      → crc < 2 ^ 16
      → Accepts d
      → (send_words ws >> send_word crc) d ≡ ok tt (having_sent d (words_bytes (ws ++ crc ∷ [])))
  send_body ws crc d hw hc h =
      sequence-sent (send_words ws) (send_word crc) d (words_bytes ws) (word_bytes crc)
        (send_words-accepted ws d hw h)
        (send_word-accepted crc (having_sent d (words_bytes ws)) hc h)
      ∙ ap (λ bytes. ok tt (having_sent d bytes)) (sym last)
    where
      last : words_bytes (ws ++ crc ∷ []) ≡ words_bytes ws ++ word_bytes crc
      last =
          words_bytes-append ws (crc ∷ [])
          ∙ ap (◌++◌ (words_bytes ws)) (append-nil (word_bytes crc))

  -- When the port takes every byte, a request of at most 255 words is written as its sync sequence,
  -- its header, its words and its CRC, stuffed, and nothing else.
  pub send_request_frame-bytes :
      (opcode : ℕ) (ws : List ℕ) (d : Epos4 E)
      → opcode < 256
      → length ws < 256
      → All (λ w. w < 2 ^ 16) ws
      → Accepts d
      → send_request_frame opcode ws d ≡ ok tt (having_sent d (request_bytes opcode ws))
  unfolding send_request_frame
  send_request_frame-bytes opcode ws d ho hl hw h = rw header_sum (
      sequence-sent send_sync _ d (0x90 ∷ 0x02 ∷ []) (words_bytes (frame_words header ws))
        (send_sync-accepted d h)
        (sequence-sent (send_word header) _ _ (word_bytes header) _
          (send_word-accepted header _ header_fits h)
          (send_body ws (calculate_crc header ws) _ hw (calculate_crc-lt header ws) h)))
    where
      header : ℕ
      header = length ws * 256 + opcode

      header_fits : header < 65536
      header_fits = omega arith

      len_fits : length ws % 256 * 256 % 65536 ≡ length ws * 256
      len_fits = omega arith

      header_sum : bit_or (length ws % 256 * 256 % 65536) opcode ≡ header
      header_sum = rw len_fits (or_fields 8 (length ws) opcode ho)

  read_words-words_bytes :
      (ws : List ℕ) (later : List (RxEvent E)) (d : Epos4 E)
      → read_words (length ws) (with_rx d (incoming (words_bytes ws) later))
        ≡ ok ws (with_rx d later)
  unfolding read_words
  read_words-words_bytes [] later d = refl
  read_words-words_bytes (w ∷ ws) later d =
      then-ok read_word (λ word. read_words (length ws) >>= (λ words. pure (word ∷ words)))
        (read_word-first w (words_bytes ws) later d)
        (ap (λ r. bind_result r (λ words. pure (w ∷ words))) (read_words-words_bytes ws later d))

  read_words-first :
      (ws bytes : List ℕ) (later : List (RxEvent E)) (d : Epos4 E)
      → read_words (length ws) (with_rx d (incoming (words_bytes ws ++ bytes) later))
        ≡ ok ws (with_rx d (incoming bytes later))
  read_words-first ws bytes later d =
      ap (λ events. read_words (length ws) (with_rx d events))
        (incoming-append (words_bytes ws) bytes later)
      ∙ read_words-words_bytes ws (incoming bytes later) d

  read_words-last :
      (ws : List ℕ) (crc : ℕ) (later : List (RxEvent E)) (d : Epos4 E)
      → read_words (length ws) (with_rx d (incoming (words_bytes (ws ++ crc ∷ [])) later))
        ≡ ok ws (with_rx d (incoming (word_bytes crc) later))
  read_words-last ws crc later d =
      ap (λ bytes. read_words (length ws) (with_rx d (incoming bytes later))) split
      ∙ read_words-first ws (word_bytes crc) later d
    where
      split : words_bytes (ws ++ crc ∷ []) ≡ words_bytes ws ++ word_bytes crc
      split =
          words_bytes-append ws (crc ∷ [])
          ∙ ap (◌++◌ (words_bytes ws)) (append-nil (word_bytes crc))

  -- The end of a frame whose CRC is right.
  accept_frame-valid :
      (header low high : ℕ) (ws : List ℕ) (d : Epos4 E)
      → accept_frame header low high ws (calculate_crc header (low ∷ high ∷ ws)) d
        ≡ (if is_error (from_words low high) then err (device (from_words low high)) d else ok ws d)
  unfolding accept_frame
  accept_frame-valid header low high ws d =
      rw
        ((check_crc-calculate_crc header (low ∷ high ∷ []) ws crc
            (calculate_crc-lt header (low ∷ high ∷ ws))).1
          refl)
        (elim (is_error (from_words low high))
          as (λ b.
            bind_result (fail_if b (device (from_words low high)) d) (λ _. pure ws)
            ≡ (if b then err (device (from_words low high)) d else ok ws d)) [
              | true ↦ refl
              | false ↦ refl
            ])
    where
      crc : ℕ
      crc = calculate_crc header (low ∷ high ∷ ws)

  no_failure : (b : Bool) (d : Epos4 E) → b ≡ false → fail_if b framing d ≡ ok tt d
  no_failure b d h = rw h

  -- A response frame, encoded as the requests are, is read as its data when its error code is
  -- `NoError` and as the device's error otherwise, and what follows it on the link is left.
  pub read_response_frame-bytes :
      (low high : ℕ) (ws : List ℕ) (later : List (RxEvent E)) (d : Epos4 E)
      → read_response_frame (length ws) (with_rx d (incoming (response_bytes low high ws) later))
        ≡ (if is_error (from_words low high)
            then err (device (from_words low high)) (with_rx d later)
            else ok ws (with_rx d later))
  unfolding read_response_frame
  read_response_frame-bytes low high ws later d =
      next-ok read_sync_sequence _ (read_sync_sequence-sync (incoming (words_bytes all) later) d) (
        then-ok read_word _ (read_word-first header (words_bytes body) later d) (
          next-ok (fail_if (header / 256 != length ws + 2) framing) _
            (no_failure (header / 256 != length ws + 2) _ right_length)
            (next-ok (fail_if (bit_and header 0xFF % 256 != 0) framing) _
              (no_failure (bit_and header 0xFF % 256 != 0) _ right_opcode)
              (then-ok read_word _
                (read_word-first low (word_bytes high ++ words_bytes (ws ++ crc ∷ [])) later d)
                (then-ok read_word _ (read_word-first high (words_bytes (ws ++ crc ∷ [])) later d) (
                  then-ok (read_words (length ws)) _ (read_words-last ws crc later d) (
                    then-ok read_word _ (read_word-word_bytes crc later d)
                      (accept_frame-valid header low high ws (with_rx d later)))))))))
    where
      header : ℕ
      header = (length ws + 2) * 256

      crc : ℕ
      crc = calculate_crc header (low ∷ high ∷ ws)

      body : List ℕ
      body = low ∷ high ∷ (ws ++ crc ∷ [])

      all : List ℕ
      all = header ∷ body

      right_length : (header / 256 != length ws + 2) ≡ false
      right_length = ground arith

      right_opcode : (bit_and header 0xFF % 256 != 0) ≡ false
      right_opcode = ground (arith, and_mask 8 header)
