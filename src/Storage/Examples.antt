-- ===== src/Storage/Examples.antt =====
-- A card with one directory and one file, and the theorems of the storage on it.
use mathlib.Core.List.{IsChain, Perm}
use asteria_firmware.Prelude.{
  ℕ, suc, ◌≤◌, ◌≡◌, All, refl, ap, arith, Bool, true, false, List, [], ◌∷◌, Option, none, some,
  if◌then◌else◌, length, take, drop,
}
use asteria_firmware.Storage.Text.{
  Text, root, dot, dot_dot, text_eq, absolute, is_empty, byte_len, segments, non_empty, split, trim,
  trim_end, trim_start, is_whitespace, contains_char,
}
use asteria_firmware.Storage.Wire.{
  FsRemoveReq, FsDirEntry, FsReadFileResp, fs_path_cap, no_error, file, dir,
}
use asteria_firmware.Storage.Path.{
  fine, normalize_req_path, normalize_path, show_parts, push_segments, is_refused,
}
use asteria_firmware.Storage.Path.Allowed.{IsNormalized, normalize_req_path-IsNormalized}
use asteria_firmware.Storage.Path.Host.{
  IsName, NoBackslash, target_names, normalize_path-names, normalize_req_path-names,
}
use asteria_firmware.Storage.Littlefs.{Littlefs, LfsEntry, HoldsFile, HoldsDir}
use asteria_firmware.Storage.Device.{Device}
use asteria_firmware.Storage.Device.Pages.{visible, to_entries}
use asteria_firmware.Storage.Device.Remove.{RemoveOutcome, handle_remove-cases}
use asteria_firmware.Storage.Host.{
  RpcBackend, FsNodeMeta, done, read_file, read_file_bytes, list_dir_entries, sort_dir_entries,
}
use asteria_firmware.Storage.Host.Read.{IsComplete, ChunksFit, read_file-IsComplete}
use asteria_firmware.Storage.Host.Sorted.{MayPrecede, sort_dir_entries-sorts}
use asteria_firmware.Storage.Remote.{host_client}
use asteria_firmware.Storage.Remote.File.{read_file_bytes-content}
use asteria_firmware.Storage.Remote.Folder.{list_dir_entries-listed}

abbrev log : Text
log = 0x6C ∷ 0x6F ∷ 0x67 ∷ []

abbrev log_path : Text
log_path = show_parts (log ∷ [])

abbrev content : List ℕ
content = 10 ∷ 20 ∷ 30 ∷ []

abbrev entries : List LfsEntry
entries =
    record { is_dir = true; name = dot }
    ∷ record { is_dir = true; name = dot_dot }
    ∷ record { is_dir = false; name = log }
    ∷ []

-- The state tells whether the file is there.
abbrev card : Littlefs
card = record {
  State = Bool;
  accepts = λ p. true;
  opens_dir = λ s p. text_eq p root;
  read_dir = λ s p. if text_eq p root then some entries else none;
  opens_file = λ s p. if text_eq p log_path then s else false;
  size = λ s p. if text_eq p log_path then some 3 else none;
  read = λ s p offset n. some (take n (drop offset content));
  remove = λ s p. some false;
  append = λ s p bytes. (false, s);
  has_path = λ s p. text_eq p root;
  remove_dir_all = λ s p. none;
  create_dir = λ s p. some s;
  write_pieces = λ s p pieces. some s;
  erases = λ s. true;
}

abbrev board : Device card
board = record {
  fs = some true;
  epoch = 7;
  last_session_dir = none;
  uptime_ms = 0;
  artifact_timestamp_ms = none;
}

holds_log : HoldsFile card true log_path content
unfolding text_eq absolute
holds_log = record {
  path_accepted = refl;
  not_a_dir = refl;
  sized = refl;
  reads = λ offset n within. refl;
}

holds_root : HoldsDir card true root entries
unfolding text_eq
holds_root = record { dir_accepted = refl; listed = refl }

log_path-named : is_empty log_path ≡ false
unfolding absolute
log_path-named = refl

log_path-short : byte_len log_path ≤ fs_path_cap
unfolding absolute byte_len
log_path-short = omega arith

log_path-normal : normalize_req_path log_path ≡ fine log_path
unfolding normalize_req_path push_segments absolute byte_len segments non_empty split trim trim_end
    trim_start is_whitespace is_refused text_eq contains_char
log_path-normal = refl

root-short : byte_len root ≤ fs_path_cap
unfolding byte_len
root-short = omega arith

root-normal : normalize_req_path root ≡ fine root
unfolding normalize_req_path push_segments byte_len segments non_empty split trim trim_end
    trim_start is_whitespace
root-normal = refl

one_visible : length (visible entries) ≡ 1
unfolding visible text_eq
one_visible = refl

read_file_bytes-content_example :
    read_file_bytes (host_client card) log_path board ≡ done content board
read_file_bytes-content_example =
    read_file_bytes-content card board true log_path log_path content refl log_path-named
      log_path-short log_path-normal holds_log (omega arith)

list_dir_entries-listed_example :
    list_dir_entries (host_client card) 2 root board
    ≡ done (sort_dir_entries (to_entries (visible entries))) board
list_dir_entries-listed_example =
    list_dir_entries-listed card board true root root entries refl refl root-short root-normal
      holds_root (omega (arith, one_visible)) 2 (omega (arith, one_visible))

abbrev removal : FsRemoveReq
removal = record { path = log_path; expected_epoch = some 7 }

handle_remove-cases_example : RemoveOutcome card board true removal
handle_remove-cases_example = handle_remove-cases card board true removal

-- A backend that answers with two bytes.
abbrev two_bytes : RpcBackend
two_bytes = record {
  State = ℕ;
  fs_info = λ s. (none, s);
  fs_list_dir_page = λ s req. (none, s);
  fs_stat = λ s req. (none, s);
  fs_read_file_chunk = λ s req. (
    some (record {
      err = no_error;
      epoch = 7;
      offset = req.offset;
      data' = 1 ∷ 2 ∷ [];
      done = false;
    }),
    suc s,
  );
  fs_remove_path = λ s req. (none, s);
  fs_erase_storage = λ s. (none, s);
}

abbrev answer_length : Option FsReadFileResp → ℕ
answer_length none = 0
answer_length (some resp) = length resp.data'

two_bytes-ChunksFit : ChunksFit two_bytes
two_bytes-ChunksFit s req resp told =
    let same : 2 ≡ length resp.data' = ap answer_length told in omega (arith, same)

abbrev four_bytes : FsNodeMeta
four_bytes = record { kind = file; size_bytes = 4; epoch = 7 }

read_file-IsComplete_example : IsComplete 4 (read_file two_bytes log_path 512 four_bytes 0)
read_file-IsComplete_example =
    read_file-IsComplete two_bytes log_path 512 four_bytes 0 two_bytes-ChunksFit

normalize_req_path-IsNormalized_example : IsNormalized log_path
normalize_req_path-IsNormalized_example = normalize_req_path-IsNormalized log_path

abbrev names : List Text
names = log ∷ []

names-IsName : All IsName names
unfolding text_eq contains_char
names-IsName = (((refl, refl), (refl, refl)), tt)

up_log : Text
up_log = 0x2E ∷ 0x2E ∷ 0x2F ∷ 0x6C ∷ 0x6F ∷ 0x67 ∷ []

normalize_path-names_example :
    (normalize_path (show_parts names) up_log ≡ some (show_parts (target_names names up_log)))
    × All IsName (target_names names up_log)
normalize_path-names_example = normalize_path-names names up_log names-IsName

abbrev listing : List FsDirEntry
listing = record { kind = file; name = log } ∷ record { kind = dir; name = log } ∷ []

sort_dir_entries-sorts_example :
    IsChain MayPrecede (sort_dir_entries listing) × Perm listing (sort_dir_entries listing)
sort_dir_entries-sorts_example = sort_dir_entries-sorts listing

names-NoBackslash : All NoBackslash names
unfolding contains_char
names-NoBackslash = (refl, tt)

log_path-trim : trim log_path ≡ log_path
unfolding absolute trim trim_end trim_start is_whitespace
log_path-trim = refl

normalize_req_path-names_example : normalize_req_path (show_parts names) ≡ fine (show_parts names)
normalize_req_path-names_example =
    normalize_req_path-names names names-IsName names-NoBackslash log_path-trim log_path-short
