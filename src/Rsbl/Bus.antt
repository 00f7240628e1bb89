-- ===== src/Rsbl/Bus.antt =====
-- The bus of the servos: the driver's state, its errors, and single transfers. The port is not part
-- of the repository: what it delivers and which of its calls fail are fields of the state.
use asteria_firmware.Prelude.{ℕ, zero, suc, ◌+◌, Bool, List, [], ◌∷◌, ◌++◌, if◌then◌else◌}
use asteria_firmware.Prelude.Int.{ℤ}

pub data RsblError : Type 0 where
  failed_write failed_read invalid_angle internal_error : RsblError
  wrong_checksum wrong_format timeout_error : RsblError

-- What the next read of one byte meets: a byte, no byte within `RSBL_TIMEOUT`, or a port error.
pub data RxEvent : Type 0 where
  byte : ℕ → RxEvent
  silence broken : RxEvent

-- `RsblServo`, with what the port will deliver (`rx`; when it is empty the bus stays silent), whether
-- the n-th call of the transmitter succeeds (`tx`), how many such calls there were, and the bytes of
-- those that succeeded.
pub record Rsbl : Type 0 where
  pub rx : List RxEvent
  pub tx : ℕ → Bool
  pub calls : ℕ
  pub sent : List ℕ
  pub left_pos : ℤ
  pub right_pos : ℤ

pub data Result (A : Type 0) : Type 0 where
  ok : A → Rsbl → Result A
  err : RsblError → Rsbl → Result A

-- The driver behind a call, whichever way the call ended.
abbrev pub final : {A : Type 0} → Result A → Rsbl
final (ok a s) = s
final (err e s) = s

abbrev pub M : Type 0 → Type 0
M A = Rsbl → Result A

abbrev pub bind_result : {A B : Type 0} → Result A → (A → M B) → Result B
bind_result (ok a s) f = f a s
bind_result (err e s) f = err e s

infixl 5 ◌>>=◌ ◌>>◌
abbrev pub ◌>>=◌ : {A B : Type 0} → M A → (A → M B) → M B
◌>>=◌ m f s = bind_result (m s) f

abbrev pub ◌>>◌ : {B : Type 0} → M (Unit {0}) → M B → M B
◌>>◌ m k s = bind_result (m s) (λ _. k)

abbrev pub pure : {A : Type 0} → A → M A
pure a s = ok a s

abbrev pub fail : {A : Type 0} → RsblError → M A
fail e s = err e s

abbrev pub take_event : List RxEvent → M ℕ
take_event [] s = err timeout_error s
take_event (byte b ∷ rest) s = ok b (record s { rx = rest })
take_event (silence ∷ rest) s = err timeout_error (record s { rx = rest })
take_event (broken ∷ rest) s = err failed_read (record s { rx = rest })

-- `with_timeout(RSBL_TIMEOUT, self.rx.read(&mut data))`, with its errors mapped as
-- `read_from_servo` maps them.
unfoldable pub read_byte : M ℕ
read_byte s = take_event s.rx s

-- The loops that fill the header and the buffer, byte by byte.
unfoldable pub read_bytes : ℕ → M (List ℕ)
read_bytes zero = pure []
read_bytes (suc n) = do b ← read_byte; bytes ← read_bytes n; pure (b ∷ bytes)

abbrev pub drain : List RxEvent → M (Unit {0})
drain [] s = ok tt (record s { rx = [] })
drain (byte b ∷ rest) s = drain rest s
drain (silence ∷ rest) s = ok tt (record s { rx = rest })
drain (broken ∷ rest) s = err internal_error (record s { rx = rest })

-- `clear_ringbuffer`: it reads until the bus is silent.
unfoldable pub clear_ringbuffer : M (Unit {0})
clear_ringbuffer s = drain s.rx s

-- `self.tx.write(..)` of a whole buffer, with its error mapped to `FailedWrite`.
unfoldable pub write : List ℕ → M (Unit {0})
write bytes s =
    let done = record s { calls = s.calls + 1; sent = s.sent ++ bytes } in
    let failed = record s { calls = s.calls + 1 } in
    if s.tx s.calls then ok tt done else err failed_write failed

-- `self.tx.flush()`.
unfoldable pub flush : M (Unit {0})
unfolding write
flush = write []

-- `let _ = f().await`: the outcome is dropped.
abbrev pub ignore_result : {A : Type 0} → Result A → Result (Unit {0})
ignore_result (ok a s) = ok tt s
ignore_result (err e s) = ok tt s

abbrev pub ignore : {A : Type 0} → M A → M (Unit {0})
ignore m s = ignore_result (m s)
