-- ===== src/Keller/Bus.antt =====
-- The shared RTU bus of the pressure sensors: a transaction, reading holding registers and writing
-- one (crates/devices/keller-pressure/src/lib.rs). The Modbus library is not part of the repository:
-- its operations are a parameter.
pub mod Driven
pub mod Counted
use asteria_firmware.Prelude.{
  ℕ, ◌+◌, ◌-◌, ◌*◌, ◌/◌, Bool, true, false, List, [], ◌∷◌, ◌++◌, Option, none, some, ◌&&◌, ◌!=◌,
  ltb, leb, if◌then◌else◌, length,
}
use asteria_firmware.Keller.Uart.{UartSettingsError}

-- A request for `count` registers from `reg` on, or to write `count` to the register `reg`.
pub record Request : Type 0 where
  pub unit_id : ℕ
  pub reg : ℕ
  pub count : ℕ

-- The calls of the library. `parse_u16` takes the capacity of the vector that it fills.
pub record Modbus : Type 0 where
  pub generate_get_holdings : Request → Option (List ℕ)
  pub generate_set_holding : Request → Option (List ℕ)
  pub parse_u16 : Request → ℕ → List ℕ → Option (List ℕ)
  pub parse_ok : Request → List ℕ → Bool
  pub guess_response_frame_len : List ℕ → Option ℕ

-- `ConfigError` belongs to the set-up of the port, which is not modelled.
pub data KellerSensError : Type 0 where
  proto invalid_data timeout addr_range : KellerSensError
  uart_settings : UartSettingsError → KellerSensError

-- What `read_until_idle` ends in: the timeout, an error, or the bytes of a frame.
pub data Reply : Type 0 where
  silent broken : Reply
  arrived : List ℕ → Reply

-- How the port takes a request: up to its end, or `blocking_write` or `blocking_flush` fails.
pub data TxFate : Type 0 where
  transmitted write_fails flush_fails : TxFate

-- The driver, with the requests that were sent, the time it blocked, how the port takes the n-th
-- request and what it answers.
pub record KellerSensRs485 : Type 0 where
  pub baud : ℕ
  pub de : Bool
  pub sent : List (List ℕ)
  pub blocked : ℕ
  pub calls : ℕ
  pub tx : ℕ → TxFate
  pub replies : List Reply

pub data Result (A : Type 0) : Type 0 where
  ok : A → KellerSensRs485 → Result A
  err : KellerSensError → KellerSensRs485 → Result A

abbrev pub M : Type 0 → Type 0
M A = KellerSensRs485 → Result A

abbrev pub bind_result : {A B : Type 0} → Result A → (A → M B) → Result B
bind_result (ok a b) f = f a b
bind_result (err e b) f = err e b

infixl 5 ◌>>=◌
abbrev pub ◌>>=◌ : {A B : Type 0} → M A → (A → M B) → M B
◌>>=◌ m f b = bind_result (m b) f

abbrev pub pure : {A : Type 0} → A → M A
pure a b = ok a b

abbrev pub fail : {A : Type 0} → KellerSensError → M A
fail e b = err e b

-- `ok_or` on what the library returns.
abbrev pub required : {A : Type 0} → Option A → KellerSensError → M A
required none e b = err e b
required (some a) e b = ok a b

abbrev pub final : {A : Type 0} → Result A → KellerSensRs485
final (ok a b) = b
final (err e b) = b

-- `rtu_gaps`, in microseconds.
abbrev pub t_char : ℕ → ℕ
t_char baud = (10000000 + (baud - 1)) / baud

unfoldable pub rtu_gaps : ℕ → ℕ × ℕ
rtu_gaps baud = (t_char baud * 15 / 10, t_char baud * 35 / 10)

abbrev pub shorter : ℕ → Option ℕ → Bool
shorter n none = false
shorter n (some expected) = ltb n expected

-- The end of `transact`: the vector holds 256 bytes, and a frame that is cut off is an error.
unfoldable pub complete : Modbus → List ℕ → M (List ℕ)
complete m bytes =
    if ltb 256 (length bytes)
    then fail timeout
    else (if leb 6 (length bytes) && shorter (length bytes) (m.guess_response_frame_len bytes)
        then fail timeout
        else pure bytes)

unfoldable pub listen : Modbus → List Reply → M (List ℕ)
listen m [] b = err timeout b
listen m (silent ∷ rest) b = err timeout (record b { replies = rest })
listen m (broken ∷ rest) b = err timeout (record b { replies = rest })
listen m (arrived bytes ∷ rest) b = complete m bytes (record b { replies = rest })

-- `self.de.set_high()` and the wait behind it.
abbrev pub driven : KellerSensRs485 → KellerSensRs485
driven b = record b { de = true; blocked = b.blocked + (rtu_gaps b.baud).0; calls = b.calls + 1 }

-- The wait behind the request and `self.de.set_low()`.
abbrev pub released : List ℕ → KellerSensRs485 → KellerSensRs485
released req b = record b {
  de = false;
  blocked = b.blocked + (rtu_gaps b.baud).1;
  sent = b.sent ++ (req ∷ []);
}

unfoldable pub transmit : TxFate → Modbus → List ℕ → M (List ℕ)
transmit write_fails m req b = err timeout b
transmit flush_fails m req b = err timeout (record b { sent = b.sent ++ (req ∷ []) })
transmit transmitted m req b = listen m b.replies (released req b)

-- `transact`; both of its callers turn its error into `Timeout`.
unfoldable pub transact : Modbus → List ℕ → M (List ℕ)
transact m req b = transmit (b.tx b.calls) m req (driven b)

-- `read_holdings::<capacity>`.
unfoldable pub read_holdings : Modbus → ℕ → Request → M (List ℕ)
read_holdings m capacity request = do
  req ← required (m.generate_get_holdings request) proto
  resp ← transact m req
  words ← required (m.parse_u16 request capacity resp) proto
  if length words != request.count then fail invalid_data else pure words

unfoldable pub write_single : Modbus → Request → M (Unit {0})
write_single m request = do
  req ← required (m.generate_set_holding request) proto
  resp ← transact m req
  if m.parse_ok request resp then pure tt else fail proto
