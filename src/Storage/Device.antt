-- ===== src/Storage/Device.antt =====
-- The device's side of the remote file system (fw-test-board/app/src/logging.rs).
pub mod Pages
pub mod Remove
use asteria_firmware.Prelude.{
  ℕ, ◌+◌, ◌-◌, ◌%◌, ◌^◌, Bool, true, false, List, [], ◌∷◌, ◌++◌, Option, none, some, ◌&&◌, ◌||◌,
  ◌==◌, leb, ltb, if◌then◌else◌, length,
}
use Prim.Native.Nat.{min, max}
use asteria_firmware.Storage.Text.{Text, dot, dot_dot, root, text_eq, byte_len}
use asteria_firmware.Storage.Wire.{
  fs_name_cap, fs_read_data_cap, fs_dir_page_cap, FsError, no_error, not_found, not_dir, is_dir,
  offset_out_of_range, io, busy, epoch_mismatch, FsNodeKind, file, dir, FsInfoResp, FsDirEntry,
  FsListDirReq, FsListDirResp, FsStatReq, FsStatResp, FsReadFileReq, FsReadFileResp, FsRemoveReq,
  FsRemoveResp, FsEraseStorageResp,
}
use asteria_firmware.Storage.Path.{Checked, fine, refused, normalize_req_path}
use asteria_firmware.Storage.Littlefs.{Littlefs, LfsEntry}

abbrev pub fs_max_chunk : ℕ
fs_max_chunk = 512

-- The largest `u32`, which is also the largest `usize` of the board.
abbrev pub u32_max : ℕ
u32_max = 2 ^ 32 - 1

abbrev pub saturating_add : ℕ → ℕ → ℕ
saturating_add a b = min (a + b) u32_max

unfoldable pub epoch_matches : Option ℕ → ℕ → Bool
epoch_matches none epoch = true
epoch_matches (some e) epoch = e == epoch

-- `from_err` of the responses, and `fs_read_file_err`.
abbrev pub list_err : ℕ → FsError → FsListDirResp
list_err epoch e = record { err = e; epoch = epoch; entries = []; next_cursor = 0 }

abbrev pub stat_err : ℕ → FsError → FsStatResp
stat_err epoch e = record { err = e; epoch = epoch; kind = file; size_bytes = 0 }

abbrev pub remove_err : ℕ → FsError → FsRemoveResp
remove_err epoch e = record { err = e; epoch = epoch }

abbrev pub read_err : ℕ → ℕ → FsError → FsReadFileResp
read_err offset epoch e = record {
  err = e;
  epoch = epoch;
  offset = offset;
  data' = [];
  done = true;
}

-- The page that is being filled.
pub record Page : Type 0 where
  pub entries : List FsDirEntry
  pub total_entries : ℕ
  pub page_scanned : ℕ

abbrev pub kind_of : Bool → FsNodeKind
kind_of true = dir
kind_of false = file

-- `entries.push`, on a vector of capacity `fs_dir_page_cap`, of a name that fits.
abbrev pub push_entry : LfsEntry → List FsDirEntry → List FsDirEntry
push_entry e entries =
    if leb (byte_len e.name) fs_name_cap && ltb (length entries) fs_dir_page_cap
    then entries ++ (record { kind = kind_of e.is_dir; name = e.name } ∷ [])
    else entries

abbrev pub is_dots : Text → Bool
is_dots name = text_eq name dot || text_eq name dot_dot

-- The body of the loop over the directory.
unfoldable pub scan_entry : ℕ → ℕ → LfsEntry → Page → Page
scan_entry cursor page_cap e p =
    let counted = saturating_add p.total_entries 1 in
    if is_dots e.name
    then p
    else if leb cursor p.total_entries && ltb p.page_scanned page_cap
    then record {
      entries = push_entry e p.entries;
      total_entries = counted;
      page_scanned = saturating_add p.page_scanned 1;
    }
    else record p { total_entries = counted }

unfoldable pub scan_dir : ℕ → ℕ → List LfsEntry → Page → Page
scan_dir cursor page_cap [] p = p
scan_dir cursor page_cap (e ∷ es) p = scan_dir cursor page_cap es (scan_entry cursor page_cap e p)

abbrev pub empty_page : Page
empty_page = record { entries = []; total_entries = 0; page_scanned = 0 }

-- The response for a page.
unfoldable pub page_resp : ℕ → ℕ → Page → FsListDirResp
page_resp epoch cursor p =
    let next = saturating_add cursor p.page_scanned in
    record {
      err = no_error;
      epoch = epoch;
      entries = p.entries;
      next_cursor = if ltb next p.total_entries then next else 0;
    }

module _ (l : Littlefs) where
  -- `FS_STATE`, `FS_EPOCH` and `RUNTIME_STATE`, with the clock and the build's timestamp.
  pub record Device : Type 0 where
    pub fs : Option l.State
    pub epoch : ℕ
    pub last_session_dir : Option Text
    pub uptime_ms : ℕ
    pub artifact_timestamp_ms : Option ℕ

  -- `to_lfs_path`, on a path that is normalised.
  abbrev pub to_lfs_path : Checked Text → Checked Text
  to_lfs_path (fine p) = if l.accepts p then fine p else refused not_found
  to_lfs_path (refused e) = refused e

  abbrev pub lfs_path : Text → Checked Text
  lfs_path path = to_lfs_path (normalize_req_path path)

  -- `file_size_bytes`.
  abbrev pub as_size : Option ℕ → Option ℕ
  as_size none = none
  as_size (some n) = some (min n u32_max)

  unfoldable pub file_size_bytes : l.State → Text → Option ℕ
  file_size_bytes s path = as_size (l.size s path)

  unfoldable pub is_ready : Option l.State → Bool
  is_ready none = false
  is_ready (some s) = true

  unfoldable pub handle_fs_info : Device → FsInfoResp
  handle_fs_info d = record {
    err = no_error;
    epoch = d.epoch;
    max_chunk = fs_max_chunk;
    max_dir_entries = fs_dir_page_cap;
    uptime_ms = d.uptime_ms;
    fs_ready = is_ready d.fs;
    current_log_dir = d.last_session_dir;
    artifact_timestamp_ms = d.artifact_timestamp_ms;
  }

  unfoldable pub list_path :
      l.State → ℕ → FsListDirReq → Text → Option (List LfsEntry) → FsListDirResp
  list_path s epoch req path none =
      list_err epoch (if l.opens_file s path then not_dir else not_found)
  list_path s epoch req path (some es) =
      let page_cap = min (max req.max_entries 1) fs_dir_page_cap in
      page_resp epoch req.cursor (scan_dir req.cursor page_cap es empty_page)

  abbrev pub on_path : {A : Type 0} → Checked Text → (FsError → A) → (Text → A) → A
  on_path (fine p) refuse go = go p
  on_path (refused e) refuse go = refuse e

  unfoldable pub handle_list_dir : l.State → ℕ → FsListDirReq → FsListDirResp
  handle_list_dir s epoch req =
      if epoch_matches req.expected_epoch epoch
      then on_path (lfs_path req.path) (list_err epoch)
          (λ path. list_path s epoch req path (l.read_dir s path))
      else list_err epoch epoch_mismatch

  unfoldable pub stat_size : ℕ → Option ℕ → FsStatResp
  stat_size epoch none = stat_err epoch not_found
  stat_size epoch (some n) = record { err = no_error; epoch = epoch; kind = file; size_bytes = n }

  unfoldable pub handle_stat : l.State → ℕ → FsStatReq → FsStatResp
  handle_stat s epoch req =
      if epoch_matches req.expected_epoch epoch
      then on_path (lfs_path req.path) (stat_err epoch) (λ path.
        if l.opens_dir s path
        then record { err = no_error; epoch = epoch; kind = dir; size_bytes = 0 }
        else stat_size epoch (file_size_bytes s path))
      else stat_err epoch epoch_mismatch

  -- The end of `handle_read_file`, on what was read.
  unfoldable pub chunk_resp : ℕ → ℕ → ℕ → ℕ → Option (List ℕ) → FsReadFileResp
  chunk_resp epoch offset size to_read none = read_err offset epoch io
  chunk_resp epoch offset size to_read (some chunk) = record {
    err = no_error;
    epoch = epoch;
    offset = offset;
    data' = chunk;
    done = leb size (saturating_add offset (length chunk)) || ltb (length chunk) to_read;
  }

  abbrev pub request_len : ℕ → ℕ
  request_len len = if len == 0 then fs_max_chunk else len

  abbrev pub to_read : ℕ → ℕ → ℕ → ℕ
  to_read size offset len =
      min (size - offset) (min (request_len len) (min fs_max_chunk fs_read_data_cap))

  -- The part of `handle_read_file` behind the size of the file.
  unfoldable pub read_sized : l.State → ℕ → FsReadFileReq → Text → Option ℕ → FsReadFileResp
  read_sized s epoch req path none = read_err req.offset epoch not_found
  read_sized s epoch req path (some size) =
      let n = to_read size req.offset req.len in
      if ltb size req.offset
      then read_err req.offset epoch offset_out_of_range
      else if n == 0
      then record { err = no_error; epoch = epoch; offset = req.offset; data' = []; done = true }
      else chunk_resp epoch req.offset size n (l.read s path req.offset n)

  unfoldable pub handle_read_file : l.State → ℕ → FsReadFileReq → FsReadFileResp
  handle_read_file s epoch req =
      if epoch_matches req.expected_epoch epoch
      then on_path (lfs_path req.path) (read_err req.offset epoch) (λ path.
        if l.opens_dir s path
        then read_err req.offset epoch is_dir
        else read_sized s epoch req path (file_size_bytes s path))
      else read_err req.offset epoch epoch_mismatch

  -- `note_fs_mutation`.
  abbrev pub next_epoch : ℕ → ℕ
  next_epoch epoch = (epoch + 1) % 2 ^ 32

  unfoldable pub removed : Device → Option l.State → FsRemoveResp × Device
  removed d none = (remove_err d.epoch busy, d)
  removed d (some s) =
      let epoch = next_epoch d.epoch in
      (remove_err epoch no_error, record d { fs = some s; epoch = epoch })

  -- `path_exists_as_dir` or `path_exists_as_file`.
  abbrev pub exists : l.State → Text → Bool
  exists s path = if l.opens_dir s path then true else l.opens_file s path

  unfoldable pub remove_at : Device → l.State → Text → FsRemoveResp × Device
  remove_at d s path =
      if text_eq path root
      then (remove_err d.epoch busy, d)
      else if l.accepts path
      then (if exists s path
          then removed d (l.remove s path)
          else (remove_err d.epoch not_found, d))
      else (remove_err d.epoch not_found, d)

  unfoldable pub handle_remove : Device → l.State → FsRemoveReq → FsRemoveResp × Device
  handle_remove d s req =
      if epoch_matches req.expected_epoch d.epoch
      then on_path (normalize_req_path req.path) (λ e. (remove_err d.epoch e, d)) (remove_at d s)
      else (remove_err d.epoch epoch_mismatch, d)

  -- The file system is given up, whether or not the erase works.
  abbrev pub erased : Device → Option l.State → FsEraseStorageResp × Device
  erased d none = (record { err = io; epoch = d.epoch }, d)
  erased d (some s) = (
    record { err = if l.erases s then no_error else io; epoch = d.epoch },
    record d { fs = none },
  )

  unfoldable pub handle_erase_storage : Device → FsEraseStorageResp × Device
  handle_erase_storage d = erased d d.fs

  -- The handlers behind the mailbox, in `fs_worker_task`: without a file system they answer `Io`.
  unfoldable pub serve_list : Option l.State → ℕ → FsListDirReq → FsListDirResp
  serve_list none epoch req = list_err epoch io
  serve_list (some s) epoch req = handle_list_dir s epoch req

  unfoldable pub serve_stat : Option l.State → ℕ → FsStatReq → FsStatResp
  serve_stat none epoch req = stat_err epoch io
  serve_stat (some s) epoch req = handle_stat s epoch req

  unfoldable pub serve_read : Option l.State → ℕ → FsReadFileReq → FsReadFileResp
  serve_read none epoch req = read_err req.offset epoch io
  serve_read (some s) epoch req = handle_read_file s epoch req

  unfoldable pub serve_remove : Option l.State → Device → FsRemoveReq → FsRemoveResp × Device
  serve_remove none d req = (remove_err d.epoch io, d)
  serve_remove (some s) d req = handle_remove d s req
