-- ===== src/Storage/Session.antt =====
-- The choice and the set-up of the session directory (fw-test-board/app/src/logging.rs).
pub mod Index
mod Examples
use Prim.Native.Nat.{max}
use asteria_firmware.Prelude.{
  ℕ, ◌+◌, ◌-◌, ◌*◌, ◌^◌, Bool, true, false, List, [], ◌∷◌, ◌++◌, Option, none, some, ◌==◌, leb, not,
  if◌then◌else◌, length,
}
use asteria_firmware.Storage.Text.{Text, root, byte_len, as_bytes}
use asteria_firmware.Storage.Wire.{io}
use asteria_firmware.Storage.Natural.{is_digit}
use asteria_firmware.Storage.Path.{Checked, fine, refused, push_str, then_checked}
use asteria_firmware.Storage.Littlefs.{Littlefs, LfsEntry}
use asteria_firmware.Storage.Device.{saturating_add, next_epoch}

-- "log_"
abbrev pub log_dir_name_prefix : Text
log_dir_name_prefix = 0x6C ∷ 0x6F ∷ 0x67 ∷ 0x5F ∷ []

-- "/log_"
abbrev pub log_dir_prefix : Text
log_dir_prefix = 0x2F ∷ log_dir_name_prefix

abbrev pub log_dir_path_max_len : ℕ
log_dir_path_max_len = 16

-- "/defmt.bin" and "/build_info.txt", behind the path of a directory.
abbrev pub defmt_bin_file : Text
defmt_bin_file = 0x2F ∷ 0x64 ∷ 0x65 ∷ 0x66 ∷ 0x6D ∷ 0x74 ∷ 0x2E ∷ 0x62 ∷ 0x69 ∷ 0x6E ∷ []

abbrev pub build_info_file : Text
build_info_file =
    0x2F ∷ 0x62 ∷ 0x75 ∷ 0x69 ∷ 0x6C ∷ 0x64 ∷ 0x5F ∷ 0x69 ∷ 0x6E ∷ 0x66 ∷ 0x6F ∷ 0x2E ∷ 0x74 ∷ 0x78
    ∷ 0x74 ∷ []

-- `strip_prefix`.
unfoldable pub strip_prefix : Text → Text → Option Text
strip_prefix [] t = some t
strip_prefix (c ∷ p) [] = none
strip_prefix (c ∷ p) (d ∷ t) = let rest = strip_prefix p t in if c == d then rest else none

-- The loop over the digits; a value that does not fit 32 bits is no index.
unfoldable pub parse_digits : ℕ → List ℕ → Option ℕ
parse_digits value [] = some value
parse_digits value (ch ∷ rest) =
    let next = value * 10 + (ch - 0x30) in
    let parsed = parse_digits next rest in
    if not (is_digit ch)
    then none
    else if leb (2 ^ 32) (value * 10)
    then none
    else if leb (2 ^ 32) next
    then none
    else parsed

abbrev pub parse_suffix : Option Text → Option ℕ
parse_suffix none = none
parse_suffix (some []) = none
parse_suffix (some (c ∷ t)) = parse_digits 0 (as_bytes (c ∷ t))

unfoldable pub parse_log_dir_index : Text → Option ℕ
parse_log_dir_index name = parse_suffix (strip_prefix log_dir_name_prefix name)

abbrev pub larger : Option ℕ → Option ℕ → Option ℕ
larger max_index none = max_index
larger none (some index) = some index
larger (some current_max) (some index) = some (max current_max index)

-- The loop over the root directory.
unfoldable pub scan_root : Option ℕ → List LfsEntry → Option ℕ
scan_root max_index [] = max_index
scan_root max_index (e ∷ es) =
    scan_root (if e.is_dir then larger max_index (parse_log_dir_index e.name) else max_index) es

abbrev pub next_index : Option ℕ → ℕ
next_index none = 0
next_index (some n) = saturating_add n 1

abbrev pub ok : {A : Type 0} → Checked A → Option A
ok (fine a) = some a
ok (refused e) = none

infixl 5 ◌>>=◌
abbrev ◌>>=◌ : {A B : Type 0} → Option A → (A → Option B) → Option B
none >>= f = none
some a >>= f = f a

-- The session directory, relative to the request paths.
unfoldable pub session_dir_of : Text → Option Text
session_dir_of digits = ok (
    then_checked (push_str [] root io)
      (λ out. then_checked (push_str out log_dir_name_prefix io) (λ dir. push_str dir digits io)))

-- A session that is set up.
pub record Session (S : Type 0) : Type 0 where
  pub fs : S
  pub defmt_path : Text
  pub session_dir : Text
  pub epoch : ℕ

-- `itoa` writes a number; `build_info` is what the build generates.
module _ (l : Littlefs) (itoa : ℕ → Text) (build_info : List (List ℕ)) where
  abbrev pub indexed : Option (List LfsEntry) → Option ℕ
  indexed none = none
  indexed (some es) = some (next_index (scan_root none es))

  unfoldable pub select_next_log_index : l.State → Option ℕ
  select_next_log_index s = indexed (l.read_dir s root)

  unfoldable pub log_dir_path : ℕ → Option Text
  log_dir_path index =
      let path = log_dir_prefix ++ itoa index in
      if leb (byte_len path) log_dir_path_max_len
      then (if l.accepts path then some path else none)
      else none

  abbrev pub clear_dir : Text → l.State → Option l.State
  clear_dir path s = if l.has_path s path then l.remove_dir_all s path else some s

  -- A set-up that fails gives up the file system; one that works advances the epoch.
  unfoldable pub prepare_log_session : ℕ → l.State → Option (Session l.State)
  prepare_log_session epoch s = do
    log_index ← select_next_log_index s
    log_dir ← log_dir_path log_index
    session_dir ← session_dir_of (itoa log_index)
    cleared ← clear_dir log_dir s
    created ← l.create_dir cleared log_dir
    started ← l.write_pieces created (log_dir ++ defmt_bin_file) []
    noted ← l.write_pieces started (log_dir ++ build_info_file) build_info
    some (record {
      fs = noted;
      defmt_path = log_dir ++ defmt_bin_file;
      session_dir = session_dir;
      epoch = next_epoch l epoch;
    })
