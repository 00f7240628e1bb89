-- ===== src/Epos4/Link/Encoding.antt =====
-- The bytes that stand for words on the link, and that the driver writes and reads exactly these.
use asteria_firmware.Prelude.{
  ℕ, ◌+◌, ◌*◌, ◌/◌, ◌%◌, ◌^◌, ◌<◌, ◌≡◌, refl, ap, ◌∙◌, arith, true, List, [], ◌∷◌, ◌++◌,
  append_assoc, ◌==◌, if◌then◌else◌, inl, inr, Bool-cases, bit_and,
}
use asteria_firmware.Bits.Fields.{and_mask}
use asteria_firmware.Epos4.Link.{
  RxEvent, byte, accepted, Epos4, Result, ok, M, bind_result, ◌>>=◌, ◌>>◌, read_exact, read_byte,
  read_word, read_sync_sequence, write_all, send_byte, send_word, send_sync,
}

-- The stuffing: the escape byte is doubled.
abbrev pub stuffed_byte : ℕ → List ℕ
stuffed_byte b = if b == 0x90 then 0x90 ∷ 0x90 ∷ [] else b ∷ []

-- A word goes low byte first.
abbrev pub word_bytes : ℕ → List ℕ
word_bytes w = stuffed_byte (w % 256) ++ stuffed_byte (w / 256)

abbrev pub words_bytes : List ℕ → List ℕ
words_bytes [] = []
words_bytes (w ∷ ws) = word_bytes w ++ words_bytes ws

module _ {E : Type 0} where
  -- The driver after it has written `bytes`.
  abbrev pub having_sent : Epos4 E → List ℕ → Epos4 E
  having_sent d bytes = record d { sent = d.sent ++ bytes }

  abbrev pub with_rx : Epos4 E → List (RxEvent E) → Epos4 E
  with_rx d events = record d { rx = events }

  -- The port takes every byte.
  abbrev pub Accepts : Epos4 E → Type 0
  Accepts d = (n : ℕ) → d.tx n ≡ accepted

  write_all-accepted :
      (b : ℕ) (d : Epos4 E) → Accepts d → write_all b d ≡ ok tt (having_sent d (b ∷ []))
  unfolding write_all
  write_all-accepted b d h = rw (h _)

  having_sent-having_sent :
      (d : Epos4 E) (xs ys : List ℕ) → having_sent (having_sent d xs) ys ≡ having_sent d (xs ++ ys)
  having_sent-having_sent d xs ys = rw (append_assoc d.sent xs ys)

  -- An operation after one whose result is known.
  pub then-ok :
      {A B : Type 0} (m : M E A) (k : A → M E B) {d d' : Epos4 E} {a : A} {r : Result E B}
      → m d ≡ ok a d'
      → k a d' ≡ r
      → (m >>= k) d ≡ r
  then-ok m k p q = ap (λ r. bind_result r k) p ∙ q

  pub next-ok :
      {B : Type 0} (m : M E (Unit {0})) (k : M E B) {d d' : Epos4 E} {r : Result E B}
      → m d ≡ ok tt d'
      → k d' ≡ r
      → (m >> k) d ≡ r
  next-ok m k p q = ap (λ r. bind_result r (λ _. k)) p ∙ q

  -- Two writes in a row, of which each is known to succeed.
  pub sequence-sent :
      (m k : M E (Unit {0})) (d : Epos4 E) (xs ys : List ℕ)
      → m d ≡ ok tt (having_sent d xs)
      → k (having_sent d xs) ≡ ok tt (having_sent (having_sent d xs) ys)
      → (m >> k) d ≡ ok tt (having_sent d (xs ++ ys))
  sequence-sent m k d xs ys p q =
      ap (λ r. bind_result r (λ _. k)) p ∙ q ∙ ap (ok tt) (having_sent-having_sent d xs ys)

  send_byte-accepted :
      (b : ℕ) (d : Epos4 E)
      → Accepts d
      → send_byte b true d ≡ ok tt (having_sent d (stuffed_byte b))
  unfolding send_byte
  send_byte-accepted b d h = elim (Bool-cases (b == 0x90)) [
    | inl esc ↦
        rw (esc, escape_byte esc)
          (sequence-sent (write_all 0x90) (write_all 0x90) d (0x90 ∷ []) (0x90 ∷ [])
            (write_all-accepted 0x90 d h) (write_all-accepted 0x90 (having_sent d (0x90 ∷ [])) h))
    | inr plain ↦ rw (plain, write_all-accepted b d h)
  ]
    where
      escape_byte : (b == 0x90) ≡ true → b ≡ 0x90
      escape_byte e = ground arith

  pub send_word-accepted :
      (w : ℕ) (d : Epos4 E)
      → w < 2 ^ 16
      → Accepts d
      → send_word w d ≡ ok tt (having_sent d (word_bytes w))
  unfolding send_word
  send_word-accepted w d hw h =
      rw (low, high)
        (sequence-sent (send_byte (w % 256) true) (send_byte (w / 256) true) d
          (stuffed_byte (w % 256)) (stuffed_byte (w / 256)) (send_byte-accepted (w % 256) d h)
          (send_byte-accepted (w / 256) (having_sent d (stuffed_byte (w % 256))) h))
    where
      low : bit_and w 0xFF % 256 ≡ w % 256
      low = omega (arith, and_mask 8 w)

      high : w / 256 % 256 ≡ w / 256
      high = omega arith

  pub send_sync-accepted :
      (d : Epos4 E) → Accepts d → send_sync d ≡ ok tt (having_sent d (0x90 ∷ 0x02 ∷ []))
  unfolding send_sync send_byte
  send_sync-accepted d h =
      sequence-sent (write_all 0x90) (write_all 0x02) d (0x90 ∷ []) (0x02 ∷ [])
        (write_all-accepted 0x90 d h) (write_all-accepted 0x02 (having_sent d (0x90 ∷ [])) h)

  -- Bytes that arrive without a fault, ahead of what comes later.
  abbrev pub incoming : List ℕ → List (RxEvent E) → List (RxEvent E)
  incoming [] later = later
  incoming (b ∷ bytes) later = byte b ∷ incoming bytes later

  pub incoming-append :
      (xs ys : List ℕ) (later : List (RxEvent E))
      → incoming (xs ++ ys) later ≡ incoming xs (incoming ys later)
  incoming-append [] ys later = refl
  incoming-append (x ∷ xs) ys later = ap (◌∷◌ (byte x)) (incoming-append xs ys later)

  read_byte-stuffed :
      (b : ℕ) (later : List (RxEvent E)) (d : Epos4 E)
      → read_byte true (with_rx d (incoming (stuffed_byte b) later)) ≡ ok b (with_rx d later)
  unfolding read_byte read_exact
  read_byte-stuffed b later d = elim (Bool-cases (b == 0x90)) [
    | inl esc ↦ rw esc (escape_byte esc)
    | inr plain ↦ rw plain (rw plain)
  ]
    where
      escape_byte : (b == 0x90) ≡ true → ok 0x90 (with_rx d later) ≡ ok b (with_rx d later)
      escape_byte e = ground arith

  pub read_word-word_bytes :
      (w : ℕ) (later : List (RxEvent E)) (d : Epos4 E)
      → read_word (with_rx d (incoming (word_bytes w) later)) ≡ ok w (with_rx d later)
  unfolding read_word
  read_word-word_bytes w later d =
      rw
        (
          incoming-append (stuffed_byte (w % 256)) (stuffed_byte (w / 256)) later,
          read_byte-stuffed (w % 256) (incoming (stuffed_byte (w / 256)) later) d,
          read_byte-stuffed (w / 256) later d,
        )
        (ap (λ t. ok t (with_rx d later)) whole)
    where
      whole : w % 256 + w / 256 * 256 ≡ w
      whole = omega arith

  pub read_word-first :
      (w : ℕ) (bytes : List ℕ) (later : List (RxEvent E)) (d : Epos4 E)
      → read_word (with_rx d (incoming (word_bytes w ++ bytes) later))
        ≡ ok w (with_rx d (incoming bytes later))
  read_word-first w bytes later d =
      ap (λ events. read_word (with_rx d events)) (incoming-append (word_bytes w) bytes later)
      ∙ read_word-word_bytes w (incoming bytes later) d

  pub read_sync_sequence-sync :
      (later : List (RxEvent E)) (d : Epos4 E)
      → read_sync_sequence (with_rx d (byte 0x90 ∷ byte 0x02 ∷ later)) ≡ ok tt (with_rx d later)
  unfolding read_sync_sequence read_byte read_exact
  read_sync_sequence-sync later d = refl
