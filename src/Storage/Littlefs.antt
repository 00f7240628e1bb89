-- ===== src/Storage/Littlefs.antt =====
-- The file system library of the device, which is not part of the repository: the calls that the
-- device makes, over an unknown state, and what its theorems assume of them.
use asteria_firmware.Prelude.{
  ℕ, ◌≤◌, ◌≡◌, Bool, true, false, List, Option, some, length, take, drop,
}
use asteria_firmware.Storage.Text.{Text}

pub record LfsEntry : Type 0 where
  pub is_dir : Bool
  pub name : Text

-- `accepts` is `PathBuf::try_from`; `opens_dir` and `read_dir` are `read_dir_and_then` with nothing
-- and with every entry read; `opens_file`, `size` and `read` open a file for reading, and do nothing,
-- seek its end, and read up to so many bytes from an offset; `append` opens, creates and appends, and
-- tells whether it worked; `write_pieces` creates or truncates, and writes the pieces. Of the other calls
-- that change something, one that fails leaves the file system as it was.
pub record Littlefs : Type 1 where
  pub State : Type 0
  pub accepts : Text → Bool
  pub opens_dir : State → Text → Bool
  pub read_dir : State → Text → Option (List LfsEntry)
  pub opens_file : State → Text → Bool
  pub size : State → Text → Option ℕ
  pub read : State → Text → ℕ → ℕ → Option (List ℕ)
  pub remove : State → Text → Option State
  pub append : State → Text → List ℕ → Bool × State
  pub has_path : State → Text → Bool
  pub remove_dir_all : State → Text → Option State
  pub create_dir : State → Text → Option State
  pub write_pieces : State → Text → List (List ℕ) → Option State
  pub erases : State → Bool

module _ (l : Littlefs) where
  -- A file with these bytes stands at the path.
  pub record HoldsFile (s : l.State) (path : Text) (content : List ℕ) : Type 0 where
    pub path_accepted : l.accepts path ≡ true
    pub not_a_dir : l.opens_dir s path ≡ false
    pub sized : l.size s path ≡ some (length content)
    pub reads :
        (offset n : ℕ)
        → offset ≤ length content
        → l.read s path offset n ≡ some (take n (drop offset content))

  -- A directory with these entries stands at the path.
  pub record HoldsDir (s : l.State) (path : Text) (entries : List LfsEntry) : Type 0 where
    pub dir_accepted : l.accepts path ≡ true
    pub listed : l.read_dir s path ≡ some entries
