-- ===== src/Epos4/Link.antt =====
-- The serial link of the driver: bytes, the stuffing of the escape byte, and words. The port is not
-- part of the repository: what it delivers and how it takes each byte are fields of the state.
pub mod Encoding
pub mod Taken
use asteria_firmware.Prelude.{
  ℕ, ◌+◌, ◌*◌, ◌/◌, ◌%◌, ◌^◌, bit_and, Bool, true, false, List, [], ◌∷◌, ◌++◌, ◌&&◌, ◌==◌, ◌!=◌,
  if◌then◌else◌, length,
}
use asteria_firmware.Epos4.Device.{Epos4Error, interface, framing}

-- One outcome of `read_exact` on a single byte; `eof` is `UnexpectedEof`.
pub data RxEvent (E : Type 0) : Type 0 where
  byte : ℕ → RxEvent E
  eof : RxEvent E
  broken : E → RxEvent E

-- How the port takes one byte: it accepts it, it fails, or the write never completes.
pub data TxFate (E : Type 0) : Type 0 where
  accepted : TxFate E
  refused : E → TxFate E
  stalled : TxFate E

-- The driver, with what the port will deliver (`rx`), how it takes the n-th byte (`tx`), and the
-- bytes that it has taken, first to last.
pub record Epos4 (E : Type 0) : Type 0 where
  pub node_id : ℕ
  pub rx : List (RxEvent E)
  pub tx : ℕ → TxFate E
  pub sent : List ℕ

-- An operation returns, fails, or waits for ever: then only a timeout around it ends it.
pub data Result (E A : Type 0) : Type 0 where
  ok : A → Epos4 E → Result E A
  err : Epos4Error E → Epos4 E → Result E A
  pending : Epos4 E → Result E A

abbrev pub M : Type 0 → Type 0 → Type 0
M E A = Epos4 E → Result E A

abbrev pub bind_result : {E A B : Type 0} → Result E A → (A → M E B) → Result E B
bind_result (ok a d) f = f a d
bind_result (err e d) f = err e d
bind_result (pending d) f = pending d

infixl 5 ◌>>=◌ ◌>>◌
abbrev pub ◌>>=◌ : {E A B : Type 0} → M E A → (A → M E B) → M E B
◌>>=◌ m f d = bind_result (m d) f

abbrev pub ◌>>◌ : {E B : Type 0} → M E (Unit {0}) → M E B → M E B
◌>>◌ m k d = bind_result (m d) (λ _. k)

abbrev pub pure : {E A : Type 0} → A → M E A
pure a d = ok a d

abbrev pub fail : {E A : Type 0} → Epos4Error E → M E A
fail e d = err e d

-- An early return with an error.
abbrev pub fail_if : {E : Type 0} → Bool → Epos4Error E → M E (Unit {0})
fail_if true e d = err e d
fail_if false e d = ok tt d

abbrev pub data_link_escape : ℕ
data_link_escape = 0x90

abbrev pub start_of_text : ℕ
start_of_text = 0x02

module _ {E : Type 0} where
  abbrev take_event : List (RxEvent E) → M E ℕ
  take_event [] d = pending d
  take_event (byte b ∷ rest) d = ok b (record d { rx = rest })
  take_event (eof ∷ rest) d = err framing (record d { rx = rest })
  take_event (broken e ∷ rest) d = err (interface e) (record d { rx = rest })

  -- `read_exact` of one byte, with its errors mapped as `read_byte` maps them.
  pub read_exact : M E ℕ
  read_exact d = take_event d.rx d

  pub read_byte : Bool → M E ℕ
  read_byte stuffed = do
    b ← read_exact
    if stuffed && b == data_link_escape then read_exact else pure b

  -- `u16::from_le_bytes`.
  pub read_word : M E ℕ
  read_word = do
    low_byte ← read_byte true
    high_byte ← read_byte true
    pure (low_byte + high_byte * 2 ^ 8)

  pub read_sync_sequence : M E (Unit {0})
  read_sync_sequence = do
    first ← read_byte false
    fail_if (first != data_link_escape) framing
    second ← read_byte false
    fail_if (second != start_of_text) framing

  abbrev put_byte : TxFate E → ℕ → M E (Unit {0})
  put_byte accepted b d = ok tt (record d { sent = d.sent ++ b ∷ [] })
  put_byte (refused e) b d = err (interface e) d
  put_byte stalled b d = pending d

  -- `write_all` of one byte.
  pub write_all : ℕ → M E (Unit {0})
  write_all b d = put_byte (d.tx (length d.sent)) b d

  pub send_byte : ℕ → Bool → M E (Unit {0})
  send_byte b stuffed = do
    if stuffed && b == data_link_escape then write_all data_link_escape else pure tt
    write_all b

  pub send_word : ℕ → M E (Unit {0})
  send_word word = do
    send_byte (bit_and word 0xFF % 2 ^ 8) true
    send_byte (word / 2 ^ 8 % 2 ^ 8) true

  pub send_sync : M E (Unit {0})
  send_sync = do send_byte data_link_escape false; send_byte start_of_text false
