-- ===== src/Rsbl/Frame/Reply.antt =====
-- What `read_from_servo` makes of a reply, and of a bus that stays silent.
use asteria_firmware.Prelude.{
  ℕ, ◌+◌, ◌-◌, ◌%◌, ◌<◌, ◌≡◌, ◌≢◌, refl, sym, ap, ◌∙◌, arith, Bool, true, false, List, [], ◌∷◌,
  ◌++◌, length, ◌==◌, ◌!=◌, if◌then◌else◌, ltb, ltb→lt, Bool-cases, inl, inr,
}
use asteria_firmware.Rsbl.Bus.{
  RxEvent, byte, silence, Rsbl, Result, ok, err, M, ◌>>=◌, ◌>>◌, pure, fail, ignore, ignore_result,
  timeout_error, wrong_format, wrong_checksum, internal_error, read_byte, read_bytes,
  clear_ringbuffer,
}
use asteria_firmware.Rsbl.Transfer.{
  incoming, incoming-append, with_rx, then-ok, then-err, next-ok, read_bytes-incoming,
  read_bytes-short, clear_ringbuffer-silence,
}
use asteria_firmware.Rsbl.Frame.{sum, calc_checksum, check_frame, read_frame, read_from_servo}

-- A reply: two header bytes, the servo, the number of bytes that follow, its status and the data,
-- and the checksum.
abbrev pub reply : ℕ → ℕ → ℕ → List ℕ → ℕ → List ℕ
reply id len status bytes checksum = 0xFF ∷ 0xFF ∷ id ∷ len ∷ status ∷ (bytes ++ checksum ∷ [])

-- What a reply of the protocol means: a wrong length, a checksum that does not obey the rule, an
-- error that the servo reports, or its data.
abbrev pub meaning : ℕ → ℕ → ℕ → List ℕ → ℕ → Rsbl → Result (List ℕ)
meaning id len status bytes checksum s =
    if length bytes + 2 != len
    then err wrong_format s
    else if (id + len + status + sum bytes + checksum) % 256 == 255
    then (if status == 0 then ok bytes s else err internal_error s)
    else err wrong_checksum s

read_byte-incoming :
    (b : ℕ) (later : List RxEvent) (s : Rsbl)
    → read_byte (with_rx s (incoming (b ∷ []) later)) ≡ ok b (with_rx s later)
unfolding read_byte
read_byte-incoming b later s = refl

read_byte-silence :
    (later : List RxEvent) (s : Rsbl)
    → read_byte (with_rx s (silence ∷ later)) ≡ err timeout_error (with_rx s later)
unfolding read_byte
read_byte-silence later s = refl

check_frame-meaning :
    (id len status : ℕ) (bytes : List ℕ) (checksum : ℕ) (s : Rsbl)
    → checksum < 256
    → check_frame (length bytes) (0xFF ∷ 0xFF ∷ id ∷ len ∷ status ∷ []) bytes checksum s
      ≡ meaning id len status bytes checksum s
unfolding check_frame calc_checksum
check_frame-meaning id len status bytes checksum s h = rw rule (
    decide (length bytes + 2 != len) ((id + len + status + sum bytes + checksum) % 256 == 255)
      (status == 0))
  where
    rule :
        (checksum == 255 - (sum bytes + (id + len + status + 0)) % 65536 % 256)
        ≡ ((id + len + status + sum bytes + checksum) % 256 == 255)
    rule = ground arith

    decide :
        (a b c : Bool)
        → (if a
              then fail wrong_format
              else if b
              then (if c then pure bytes else fail internal_error)
              else fail wrong_checksum)
            s
          ≡ (if a
              then err wrong_format s
              else if b
              then (if c then ok bytes s else err internal_error s)
              else err wrong_checksum s)
    decide true b c = refl
    decide false true true = refl
    decide false true false = refl
    decide false false c = refl

not_broadcast : (asked n : ℕ) (s : Rsbl) → asked ≢ 0xFE → read_from_servo asked n s ≡ read_frame n s
unfolding read_from_servo
not_broadcast asked n s ne = rw test
  where
    test : (asked == 0xFE) ≡ false
    test = ground arith

-- When the servo asked is not the broadcast id 0xFE, the driver gives every reply that arrives whole,
-- with a byte for its checksum, its meaning, whichever servo it names; what arrives before the next
-- silence is thrown away with it.
pub read_from_servo-reply :
    (asked id len status : ℕ) (bytes : List ℕ) (checksum : ℕ) (extra : List ℕ)
    (later : List RxEvent) (s : Rsbl)
    → asked ≢ 0xFE
    → checksum < 256
    → read_from_servo asked
        (length bytes)
        (with_rx s (incoming (reply id len status bytes checksum ++ extra) (silence ∷ later)))
      ≡ meaning id len status bytes checksum (with_rx s later)
unfolding read_frame
read_from_servo-reply asked id len status bytes checksum extra later s ne h =
    not_broadcast asked (length bytes) _ ne
    ∙ then-ok (read_bytes 5) _ (read_bytes-incoming header rest s) (
        ap (λ events. body header (with_rx s events)) split
        ∙ then-ok (read_bytes (length bytes)) _ (read_bytes-incoming bytes after_data s) (
            then-ok read_byte _ (read_byte-incoming checksum after_frame s) (
              next-ok (ignore clear_ringbuffer) _
                (ap ignore_result (clear_ringbuffer-silence extra later s))
                (check_frame-meaning id len status bytes checksum (with_rx s later) h))))
  where
    header : List ℕ
    header = 0xFF ∷ 0xFF ∷ id ∷ len ∷ status ∷ []

    rest : List RxEvent
    rest = incoming ((bytes ++ checksum ∷ []) ++ extra) (silence ∷ later)

    after_frame : List RxEvent
    after_frame = incoming extra (silence ∷ later)

    after_data : List RxEvent
    after_data = byte checksum ∷ after_frame

    split : rest ≡ incoming bytes after_data
    split =
        incoming-append (bytes ++ checksum ∷ []) extra (silence ∷ later)
        ∙ incoming-append bytes (checksum ∷ []) after_frame

    body : List ℕ → M (List ℕ)
    body front = do
      xs ← read_bytes (length bytes)
      c ← read_byte
      ignore clear_ringbuffer
      check_frame (length bytes) front xs c

-- What `read_frame` does with the data behind a header.
abbrev data_part : ℕ → List ℕ → M (List ℕ)
data_part n header = do
  bytes ← read_bytes n
  checksum ← read_byte
  ignore clear_ringbuffer
  check_frame n header bytes checksum

-- The data, or the checksum behind them, are missing.
data_short :
    (n : ℕ) (header bytes : List ℕ) (later : List RxEvent) (s : Rsbl)
    → length bytes < n + 1
    → data_part n header (with_rx s (incoming bytes (silence ∷ later)))
      ≡ err timeout_error (with_rx s later)
data_short n header bytes later s h = elim (Bool-cases (ltb (length bytes) n)) [
  | inl fewer ↦ then-err (read_bytes n) _ (read_bytes-short n bytes later s (ltb→lt _ _ fewer))
  | inr enough ↦ exactly (ground arith)
]
  where
    exactly :
        length bytes ≡ n
        → data_part n header (with_rx s (incoming bytes (silence ∷ later)))
          ≡ err timeout_error (with_rx s later)
    exactly e =
        ap (λ k. data_part k header (with_rx s (incoming bytes (silence ∷ later)))) (sym e)
        ∙ then-ok (read_bytes (length bytes)) _ (read_bytes-incoming bytes (silence ∷ later) s)
            (then-err read_byte _ (read_byte-silence later s))

read_frame-short :
    (n : ℕ) (bytes : List ℕ) (later : List RxEvent) (s : Rsbl)
    → length bytes < n + 6
    → read_frame n (with_rx s (incoming bytes (silence ∷ later)))
      ≡ err timeout_error (with_rx s later)
unfolding read_frame
read_frame-short n [] later s h =
    then-err (read_bytes 5) _ (read_bytes-short 5 [] later s (omega arith))
read_frame-short n (a ∷ []) later s h =
    then-err (read_bytes 5) _ (read_bytes-short 5 (a ∷ []) later s (omega arith))
read_frame-short n (a ∷ b ∷ []) later s h =
    then-err (read_bytes 5) _ (read_bytes-short 5 (a ∷ b ∷ []) later s (omega arith))
read_frame-short n (a ∷ b ∷ c ∷ []) later s h =
    then-err (read_bytes 5) _ (read_bytes-short 5 (a ∷ b ∷ c ∷ []) later s (omega arith))
read_frame-short n (a ∷ b ∷ c ∷ d ∷ []) later s h =
    then-err (read_bytes 5) _ (read_bytes-short 5 (a ∷ b ∷ c ∷ d ∷ []) later s (omega arith))
read_frame-short n (a ∷ b ∷ c ∷ d ∷ e ∷ bytes) later s h =
    then-ok (read_bytes 5) _
      (read_bytes-incoming (a ∷ b ∷ c ∷ d ∷ e ∷ []) (incoming bytes (silence ∷ later)) s)
      (data_short n (a ∷ b ∷ c ∷ d ∷ e ∷ []) bytes later s (omega arith))

-- A servo that sends fewer bytes than the reply has, before the bus falls silent, is a timeout.
read_from_servo-short :
    (asked n : ℕ) (bytes : List ℕ) (later : List RxEvent) (s : Rsbl)
    → asked ≢ 0xFE
    → length bytes < n + 6
    → read_from_servo asked n (with_rx s (incoming bytes (silence ∷ later)))
      ≡ err timeout_error (with_rx s later)
read_from_servo-short asked n bytes later s ne h =
    not_broadcast asked n _ ne ∙ read_frame-short n bytes later s h
