-- ===== src/Storage/Logging/Examples.antt =====
-- A log on a card that keeps one file.
use mathlib.Core.Option.{some-injective}
use asteria_firmware.Prelude.{
  ℕ, ◌++◌, ◌≤◌, ◌≡◌, refl, sym, ◌∙◌, ap, arith, true, false, List, [], ◌∷◌, none, some, length,
  take, drop,
}
use asteria_firmware.Storage.Text.{
  Text, byte_len, segments, non_empty, split, trim, trim_end, trim_start, is_whitespace,
  contains_char, text_eq,
}
use asteria_firmware.Storage.Wire.{fs_path_cap}
use asteria_firmware.Storage.Path.{fine, normalize_req_path, push_segments, is_refused}
use asteria_firmware.Storage.Littlefs.{Littlefs, HoldsFile}
use asteria_firmware.Storage.Device.{Device}
use asteria_firmware.Storage.Host.{done, read_file_bytes}
use asteria_firmware.Storage.Logging.{Logger, log_rounds}
use asteria_firmware.Storage.Logging.Content.{IsAppend, joined, with_log, log_rounds-read}
use asteria_firmware.Storage.Remote.{host_client}
use asteria_firmware.Storage.Remote.File.{take-all}

-- The state is the content of the file.
abbrev tape : Littlefs
tape = record {
  State = List ℕ;
  accepts = λ p. true;
  opens_dir = λ s p. false;
  read_dir = λ s p. none;
  opens_file = λ s p. true;
  size = λ s p. some (length s);
  read = λ s p offset n. some (take n (drop offset s));
  remove = λ s p. none;
  append = λ s p bytes. (true, s ++ bytes);
  has_path = λ s p. true;
  remove_dir_all = λ s p. none;
  create_dir = λ s p. none;
  write_pieces = λ s p pieces. none;
  erases = λ s. true;
}

tape-holds : (s : List ℕ) (p : Text) → HoldsFile tape s p s
tape-holds s p = record {
  path_accepted = refl;
  not_a_dir = refl;
  sized = refl;
  reads = λ offset n within. refl;
}

tape-same : (s content : List ℕ) (p : Text) → HoldsFile tape s p content → s ≡ content
tape-same s content p held =
    let long : length s ≡ length content = some-injective _ _ held.sized in
    let taken : take (length content) s ≡ take (length content) content =
      some-injective _ _ (held.reads 0 (length content) (omega arith)) in
    sym (take-all s) ∙ ap (λ n. take n s) long ∙ taken ∙ take-all content

tape-IsAppend : (p : Text) (room : ℕ) → IsAppend tape p room
tape-IsAppend p room = record {
  appends = λ s content bytes held fits.
      rw (tape-same s content p held) (tape-holds (content ++ bytes) p);
}

abbrev log_path : Text
log_path = 0x2F ∷ 0x61 ∷ []

abbrev logger : Logger tape
logger = record { fs = some (1 ∷ []); defmt_path = log_path; dropped_writes = 0 }

abbrev board : Device tape
board = record {
  fs = none;
  epoch = 1;
  last_session_dir = none;
  uptime_ms = 0;
  artifact_timestamp_ms = none;
}

abbrev frames : List (List ℕ)
frames = (2 ∷ 3 ∷ []) ∷ [] ∷ (4 ∷ []) ∷ []

log_path-short : byte_len log_path ≤ fs_path_cap
unfolding byte_len
log_path-short = omega arith

log_path-normal : normalize_req_path log_path ≡ fine log_path
unfolding normalize_req_path push_segments byte_len segments non_empty split trim trim_end
    trim_start is_whitespace is_refused text_eq contains_char
log_path-normal = refl

length-joined : length ((1 ∷ []) ++ joined frames) ≡ 4
unfolding joined
length-joined = refl

log_rounds-read_example :
    read_file_bytes
      (host_client tape)
      log_path
      (with_log tape board (log_rounds tape logger frames))
    ≡ done ((1 ∷ []) ++ joined frames) (with_log tape board (log_rounds tape logger frames))
log_rounds-read_example =
    log_rounds-read tape board logger log_path (1 ∷ []) frames 4 (tape-IsAppend log_path 4) (1 ∷ [])
      refl refl log_path-short log_path-normal (tape-holds (1 ∷ []) log_path)
      (omega (arith, length-joined)) (omega (arith, length-joined))
