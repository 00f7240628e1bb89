-- ===== src/Storage/Logging.antt =====
-- The recording of log data in the file of the session (fw-test-board/app/src/logging.rs).
pub mod Content
mod Examples
use asteria_firmware.Prelude.{
  ℕ, ◌+◌, ◌%◌, ◌^◌, Bool, List, [], ◌∷◌, Option, none, some, ◌==◌, if◌then◌else◌, length,
}
use asteria_firmware.Storage.Text.{Text}
use asteria_firmware.Storage.Littlefs.{Littlefs}

module _ (l : Littlefs) where
  -- `FS_STATE` and what `logging_task` keeps.
  pub record Logger : Type 0 where
    pub fs : Option l.State
    pub defmt_path : Text
    pub dropped_writes : ℕ

  -- `append_to_file`, by `with_fs_mut`.
  unfoldable pub append_data : Logger → List ℕ → Option l.State → Logger
  append_data g bytes none = record g { dropped_writes = (g.dropped_writes + 1) % 2 ^ 32 }
  append_data g bytes (some s) = record g { fs = some (l.append s g.defmt_path bytes).1 }

  -- A round of `logging_task`, on the bytes that are granted.
  unfoldable pub log_round : Logger → List ℕ → Logger
  log_round g bytes = if length bytes == 0 then g else append_data g bytes g.fs

  unfoldable pub log_rounds : Logger → List (List ℕ) → Logger
  log_rounds g [] = g
  log_rounds g (bytes ∷ rest) = log_rounds (log_round g bytes) rest
