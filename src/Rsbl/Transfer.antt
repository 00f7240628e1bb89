-- ===== src/Rsbl/Transfer.antt =====
-- Bytes that arrive on the bus of the servos, and how reads take them.
use asteria_firmware.Prelude.{
  ℕ, zero, suc, ◌+◌, ◌<◌, ◌≡◌, refl, ap, ap₂, ◌∙◌, arith, true, List, [], ◌∷◌, ◌++◌, length,
  append_assoc,
}
use asteria_firmware.Rsbl.Bus.{
  RxEvent, byte, silence, Rsbl, Result, ok, err, M, bind_result, ◌>>=◌, ◌>>◌, timeout_error,
  read_byte, read_bytes, clear_ringbuffer, drain, write,
}

abbrev pub incoming : List ℕ → List RxEvent → List RxEvent
incoming [] later = later
incoming (b ∷ bytes) later = byte b ∷ incoming bytes later

abbrev pub with_rx : Rsbl → List RxEvent → Rsbl
with_rx s events = record s { rx = events }

pub incoming-append :
    (xs ys : List ℕ) (later : List RxEvent)
    → incoming (xs ++ ys) later ≡ incoming xs (incoming ys later)
incoming-append [] ys later = refl
incoming-append (x ∷ xs) ys later = ap (◌∷◌ (byte x)) (incoming-append xs ys later)

-- The state after `n` calls of the transmitter that wrote `bytes`.
abbrev pub having_sent : Rsbl → ℕ → List ℕ → Rsbl
having_sent s n bytes = record s { calls = s.calls + n; sent = s.sent ++ bytes }

-- Every call of the transmitter succeeds.
abbrev pub Transmits : Rsbl → Type 0
Transmits s = (n : ℕ) → s.tx n ≡ true

pub then-ok :
    {A B : Type 0} (m : M A) (k : A → M B) {s s' : Rsbl} {a : A} {r : Result B}
    → m s ≡ ok a s'
    → k a s' ≡ r
    → (m >>= k) s ≡ r
then-ok m k p q = ap (λ r. bind_result r k) p ∙ q

pub then-err :
    {A B : Type 0} (m : M A) (k : A → M B) {s s' : Rsbl} {e : _}
    → m s ≡ err e s'
    → (m >>= k) s ≡ err e s'
then-err m k p = ap (λ r. bind_result r k) p

pub next-ok :
    {B : Type 0} (m : M (Unit {0})) (k : M B) {s s' : Rsbl} {r : Result B}
    → m s ≡ ok tt s'
    → k s' ≡ r
    → (m >> k) s ≡ r
next-ok m k p q = ap (λ r. bind_result r (λ _. k)) p ∙ q

pub write-sent :
    (bytes : List ℕ) (s : Rsbl) → Transmits s → write bytes s ≡ ok tt (having_sent s 1 bytes)
unfolding write
write-sent bytes s h = rw (h s.calls)

-- Two transmissions in a row, of which each is known to succeed.
pub sequence-sent :
    (m k : M (Unit {0})) (s : Rsbl) (i j : ℕ) (xs ys : List ℕ)
    → m s ≡ ok tt (having_sent s i xs)
    → k (having_sent s i xs) ≡ ok tt (having_sent (having_sent s i xs) j ys)
    → (m >> k) s ≡ ok tt (having_sent s (i + j) (xs ++ ys))
sequence-sent m k s i j xs ys p q =
    next-ok m k p q
    ∙ ap₂ (λ n bytes. ok tt (record s { calls = n; sent = bytes })) count
        (append_assoc s.sent xs ys)
  where
    count : s.calls + i + j ≡ s.calls + (i + j)
    count = omega arith

pub read_bytes-incoming :
    (bytes : List ℕ) (later : List RxEvent) (s : Rsbl)
    → read_bytes (length bytes) (with_rx s (incoming bytes later)) ≡ ok bytes (with_rx s later)
unfolding read_bytes read_byte
read_bytes-incoming [] later s = refl
read_bytes-incoming (b ∷ bytes) later s =
    ap (λ r. bind_result r (λ xs x. ok (b ∷ xs) x)) (read_bytes-incoming bytes later s)

-- Too few bytes before a silence: the read times out.
pub read_bytes-short :
    (n : ℕ) (bytes : List ℕ) (later : List RxEvent) (s : Rsbl)
    → length bytes < n
    → read_bytes n (with_rx s (incoming bytes (silence ∷ later)))
      ≡ err timeout_error (with_rx s later)
unfolding read_bytes read_byte
read_bytes-short zero bytes later s h = absurd (omega arith)
read_bytes-short (suc n) [] later s h = refl
read_bytes-short (suc n) (b ∷ bytes) later s h =
    ap (λ r. bind_result r (λ xs x. ok (b ∷ xs) x)) (read_bytes-short n bytes later s (omega arith))

-- `clear_ringbuffer` throws away whatever arrives before the next silence.
pub clear_ringbuffer-silence :
    (bytes : List ℕ) (later : List RxEvent) (s : Rsbl)
    → clear_ringbuffer (with_rx s (incoming bytes (silence ∷ later))) ≡ ok tt (with_rx s later)
unfolding clear_ringbuffer
clear_ringbuffer-silence bytes later s =
    drained bytes (with_rx s (incoming bytes (silence ∷ later)))
  where
    drained :
        (xs : List ℕ) (t : Rsbl) → drain (incoming xs (silence ∷ later)) t ≡ ok tt (with_rx t later)
    drained [] t = refl
    drained (x ∷ xs) t = drained xs t
