-- ===== src/Epos4/Frame/Accepted.antt =====
-- What is known of a frame that `read_response_frame` has accepted, whatever the link delivered.
use asteria_firmware.Prelude.{
  ℕ, zero, suc, ◌+◌, ◌/◌, ◌%◌, ◌≡◌, refl, ap, ap₂, ◌∙◌, arith, Bool, true, false, List, [], ◌∷◌,
  ◌++◌, ◌!=◌, if◌then◌else◌, bit_and, length,
}
use asteria_firmware.Bits.Fields.{and_mask}
use asteria_firmware.Epos4.Device.{framing, device, from_words, is_error}
use asteria_firmware.Epos4.Crc.{check_crc}
use asteria_firmware.Epos4.Link.{Epos4, ok, bind_result, pure, read_word, read_sync_sequence}
use asteria_firmware.Epos4.Link.Encoding.{then-ok}
use asteria_firmware.Epos4.Link.Taken.{bind-ok, passed, ok_injective}
use asteria_firmware.Epos4.Frame.{read_words, accept_frame, read_response_frame}

-- The frame whose words `ws` were returned: its words arrived in order behind a sync sequence, its
-- header counts them and has opcode 0, the CRC holds and the error code is `NoError`.
pub record IsAccepted {E : Type 0} (l : ℕ) (d : Epos4 E) (ws : List ℕ) (d' : Epos4 E) : Type 0 where
  pub start : Epos4 E
  pub header : ℕ
  pub low : ℕ
  pub high : ℕ
  pub crc : ℕ
  pub synchronised : read_sync_sequence d ≡ ok tt start
  pub arrived : read_words (l + 4) start ≡ ok (header ∷ low ∷ high ∷ (ws ++ crc ∷ [])) d'
  pub counted : header / 256 ≡ l + 2
  pub opcode : header % 256 ≡ 0
  pub complete : length ws ≡ l
  pub intact : check_crc header (low ∷ high ∷ []) ws crc ≡ true
  pub no_error : is_error (from_words low high) ≡ false

unchecked : (b : Bool) → (if b then false else true) ≡ false → b ≡ true
unchecked true h = refl
unchecked false h = cc

module _ {E : Type 0} where
  length-read_words :
      (n : ℕ) (d : Epos4 E) {ws : List ℕ} {d' : Epos4 E} → read_words n d ≡ ok ws d' → length ws ≡ n
  unfolding read_words
  length-read_words zero d h = ground arith
  length-read_words (suc n) d {ws} {d'} h =
      let (w, m, first, rest) = bind-ok (read_word d) _ h in
      let (others, m', second, whole) = bind-ok (read_words n m) (λ xs. pure (w ∷ xs)) rest in
      ground (arith, length-read_words n m second)

  read_words-snoc :
      (n : ℕ) (d m d' : Epos4 E) (ws : List ℕ) (w : ℕ)
      → read_words n d ≡ ok ws m
      → read_word m ≡ ok w d'
      → read_words (suc n) d ≡ ok (ws ++ w ∷ []) d'
  unfolding read_words
  read_words-snoc zero d m d' ws w p q =
      let base : read_words 1 m ≡ ok (w ∷ []) d' = then-ok read_word _ q refl in cc
  read_words-snoc (suc n) d m d' ws w p q =
      let (v, m₁, first, rest) = bind-ok (read_word d) _ p in
      let (others, m₂, second, whole) = bind-ok (read_words n m₁) (λ xs. pure (v ∷ xs)) rest in
      let there : read_words n m₁ ≡ ok others m = cc in
      let longer = read_words-snoc n m₁ m d' others w there q in
      let all : read_words (suc (suc n)) d ≡ ok (v ∷ (others ++ w ∷ [])) d' =
        then-ok read_word _ first (ap (λ r. bind_result r (λ xs. pure (v ∷ xs))) longer) in
      cc

  -- The words of a frame that arrived one after the other, as one read.
  four_more :
      (l : ℕ) (s a b c e d' : Epos4 E) (header low high crc : ℕ) (ws : List ℕ)
      → read_word s ≡ ok header a
      → read_word a ≡ ok low b
      → read_word b ≡ ok high c
      → read_words l c ≡ ok ws e
      → read_word e ≡ ok crc d'
      → read_words (suc (suc (suc (suc l)))) s ≡ ok (header ∷ low ∷ high ∷ (ws ++ crc ∷ [])) d'
  unfolding read_words
  four_more l s a b c e d' header low high crc ws h₁ h₂ h₃ h₄ h₅ = then-ok read_word _ h₁ (
      ap (λ r. bind_result r (λ xs. pure (header ∷ xs)))
        (then-ok read_word _ h₂ (
          ap (λ r. bind_result r (λ xs. pure (low ∷ xs)))
            (then-ok read_word _ h₃ (
              ap (λ r. bind_result r (λ xs. pure (high ∷ xs)))
                (read_words-snoc l c e d' ws crc h₄ h₅))))))

  frame_parts :
      (l : ℕ) (d s f : Epos4 E) (header low high crc : ℕ) (words ws : List ℕ) (d' : Epos4 E)
      → read_sync_sequence d ≡ ok tt s
      → read_words (suc (suc (suc (suc l)))) s ≡ ok (header ∷ low ∷ high ∷ (words ++ crc ∷ [])) f
      → (header / 256 != l + 2) ≡ false
      → (bit_and header 0xFF % 256 != 0) ≡ false
      → length words ≡ l
      → check_crc header (low ∷ high ∷ []) words crc ≡ true
      → is_error (from_words low high) ≡ false
      → words ≡ ws
      → f ≡ d'
      → IsAccepted l d ws d'
  frame_parts l d s f header low high crc words ws d' sync whole counts code size holds fine same
        same_state =
      record {
        start = s;
        header = header;
        low = low;
        high = high;
        crc = crc;
        synchronised = sync;
        arrived =
            ap (λ n. read_words n s) four
            ∙ whole
            ∙ ap₂ (λ xs x. ok (header ∷ low ∷ high ∷ (xs ++ crc ∷ [])) x) same same_state;
        counted = ground arith;
        opcode = ground (arith, and_mask 8 header);
        complete = rw (← same) size;
        intact = rw (← same) holds;
        no_error = fine;
      }
    where
      four : l + 4 ≡ suc (suc (suc (suc l)))
      four = omega arith

  -- Soundness: whatever the link delivers, data are returned only for a frame that arrived whole,
  -- with the expected length, opcode 0, a CRC that holds and no error code.
  pub read_response_frame-IsAccepted :
      (l : ℕ) (d d' : Epos4 E) (ws : List ℕ)
      → read_response_frame l d ≡ ok ws d'
      → IsAccepted l d ws d'
  unfolding read_response_frame accept_frame
  read_response_frame-IsAccepted l d d' ws h =
      let (_, s, sync, h₁) = bind-ok (read_sync_sequence d) _ h in
      let (header, a, word₁, h₂) = bind-ok (read_word s) _ h₁ in
      let (counts, h₃) = passed (header / 256 != l + 2) framing _ a h₂ in
      let (code, h₄) = passed (bit_and header 0xFF % 256 != 0) framing _ a h₃ in
      let (low, b, word₂, h₅) = bind-ok (read_word a) _ h₄ in
      let (high, c, word₃, h₆) = bind-ok (read_word b) _ h₅ in
      let (words, e, body, h₇) = bind-ok (read_words l c) _ h₆ in
      let (crc, f, word₄, h₈) = bind-ok (read_word e) _ h₇ in
      let (holds, h₉) =
        passed (if check_crc header (low ∷ high ∷ []) words crc then false else true) framing _ f
          h₈ in
      let (fine, same) =
        passed (is_error (from_words low high)) (device (from_words low high)) _ f h₉ in
      let (same_words, same_state) = ok_injective words ws f d' same in
      frame_parts l d s f header low high crc words ws d' sync
        (four_more l s a b c e f header low high crc words word₁ word₂ word₃ body word₄) counts code
        (length-read_words l c body) (unchecked _ holds) fine same_words same_state
