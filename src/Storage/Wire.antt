-- ===== src/Storage/Wire.antt =====
-- The messages between the test board and its host tool (crates/wire-types/src/lib.rs).
use asteria_firmware.Prelude.{ℕ, Bool, List, Option}
use asteria_firmware.Storage.Text.{Text}

abbrev pub fs_path_cap : ℕ
fs_path_cap = 128

abbrev pub fs_name_cap : ℕ
fs_name_cap = 64

abbrev pub fs_read_data_cap : ℕ
fs_read_data_cap = 2048

abbrev pub fs_dir_page_cap : ℕ
fs_dir_page_cap = 32

-- The variant `Ok` is `no_error`.
pub data FsError : Type 0 where
  no_error not_found not_dir is_dir offset_out_of_range io busy epoch_mismatch : FsError

pub data FsNodeKind : Type 0 where
  file dir : FsNodeKind

pub record FsInfoResp : Type 0 where
  pub err : FsError
  pub epoch : ℕ
  pub max_chunk : ℕ
  pub max_dir_entries : ℕ
  pub uptime_ms : ℕ
  pub fs_ready : Bool
  pub current_log_dir : Option Text
  pub artifact_timestamp_ms : Option ℕ

pub record FsDirEntry : Type 0 where
  pub kind : FsNodeKind
  pub name : Text

pub record FsListDirReq : Type 0 where
  pub path : Text
  pub cursor : ℕ
  pub max_entries : ℕ
  pub expected_epoch : Option ℕ

pub record FsListDirResp : Type 0 where
  pub err : FsError
  pub epoch : ℕ
  pub entries : List FsDirEntry
  pub next_cursor : ℕ

pub record FsStatReq : Type 0 where
  pub path : Text
  pub expected_epoch : Option ℕ

pub record FsStatResp : Type 0 where
  pub err : FsError
  pub epoch : ℕ
  pub kind : FsNodeKind
  pub size_bytes : ℕ

pub record FsReadFileReq : Type 0 where
  pub path : Text
  pub offset : ℕ
  pub len : ℕ
  pub expected_epoch : Option ℕ

pub record FsReadFileResp : Type 0 where
  pub err : FsError
  pub epoch : ℕ
  pub offset : ℕ
  pub data' : List ℕ
  pub done : Bool

pub record FsRemoveReq : Type 0 where
  pub path : Text
  pub expected_epoch : Option ℕ

pub record FsRemoveResp : Type 0 where
  pub err : FsError
  pub epoch : ℕ

pub record FsEraseStorageResp : Type 0 where
  pub err : FsError
  pub epoch : ℕ
