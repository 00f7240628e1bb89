-- ===== src/Storage/Remote.antt =====
-- The host's operations on the device's file system, over a link that loses nothing.
pub mod File
pub mod Folder
use asteria_firmware.Prelude.{ℕ, Bool, Option, none, some, leb, if◌then◌else◌}
use asteria_firmware.Storage.Text.{Text, root, is_empty, byte_len}
use asteria_firmware.Storage.Wire.{
  fs_path_cap, FsInfoResp, FsListDirReq, FsListDirResp, FsStatReq, FsStatResp, FsReadFileReq,
  FsReadFileResp, FsRemoveReq, FsRemoveResp, FsEraseStorageResp,
}
use asteria_firmware.Storage.Littlefs.{Littlefs}
use asteria_firmware.Storage.Device.{
  Device, handle_fs_info, handle_erase_storage, serve_list, serve_stat, serve_read, serve_remove,
}
use asteria_firmware.Storage.Host.{RpcBackend}

-- The path of a request: a path that does not fit the wire is an error.
abbrev pub wire_path : Text → Text
wire_path path = if is_empty path then root else path

abbrev pub on_wire : {S A : Type 0} → Text → (Text → Option A × S) → S → Option A × S
on_wire path call s =
    if leb (byte_len (wire_path path)) fs_path_cap then call (wire_path path) else (none, s)

abbrev pub answer : {S A : Type 0} → A × S → Option A × S
answer (a, s) = (some a, s)

-- `HostClient`, with the device's handlers behind it.
abbrev pub host_client : Littlefs → RpcBackend
host_client l = record {
  State = Device l;
  fs_info = λ d. (some (handle_fs_info l d), d);
  fs_list_dir_page = λ d req.
      on_wire req.path (λ path. (some (serve_list l d.fs d.epoch (record req { path = path })), d))
        d;
  fs_stat = λ d req.
      on_wire req.path (λ path. (some (serve_stat l d.fs d.epoch (record req { path = path })), d))
        d;
  fs_read_file_chunk = λ d req.
      on_wire req.path (λ path. (some (serve_read l d.fs d.epoch (record req { path = path })), d))
        d;
  fs_remove_path = λ d req.
      on_wire req.path (λ path. answer (serve_remove l d.fs d (record req { path = path }))) d;
  fs_erase_storage = λ d. answer (handle_erase_storage l d);
}
