-- ===== src/Storage/Host.antt =====
-- The host's operations on the remote file system (tools/asteria-tool/src/ops.rs), over any backend.
pub mod Read
pub mod Sorted
use Prim.Native.Nat.{min, max, Ordering}
use asteria_firmware.Prelude.{
  ℕ, zero, suc, ◌+◌, ◌-◌, ◌%◌, ◌^◌, Bool, true, false, List, [], ◌∷◌, ◌++◌, Option, none, some,
  ◌||◌, ◌==◌, ◌!=◌, ltb, leb, not, if◌then◌else◌, length,
}
use asteria_firmware.Storage.Text.{Text, root, dot, dot_dot, text_eq}
use asteria_firmware.Storage.Wire.{
  FsError, no_error, not_found, not_dir, is_dir, offset_out_of_range, io, busy, epoch_mismatch,
  FsNodeKind, file, dir, FsInfoResp, FsDirEntry, FsListDirReq, FsListDirResp, FsStatReq, FsStatResp,
  FsReadFileReq, FsReadFileResp, FsRemoveReq, FsRemoveResp, FsEraseStorageResp,
}
use asteria_firmware.Storage.Natural.{natural_cmp_ascii}

-- `RpcBackend`: a call gives a response, or fails.
pub record RpcBackend : Type 1 where
  pub State : Type 0
  pub fs_info : State → Option FsInfoResp × State
  pub fs_list_dir_page : State → FsListDirReq → Option FsListDirResp × State
  pub fs_stat : State → FsStatReq → Option FsStatResp × State
  pub fs_read_file_chunk : State → FsReadFileReq → Option FsReadFileResp × State
  pub fs_remove_path : State → FsRemoveReq → Option FsRemoveResp × State
  pub fs_erase_storage : State → Option FsEraseStorageResp × State

-- The failures, by the messages of the source.
pub data HostError : Type 0 where
  rpc_failed is_a_directory unexpected_offset empty_data offset_overflow too_many_bytes : HostError
  fs_error : FsError → HostError

-- An operation ends, or its fuel is used up.
pub data Outcome (S A : Type 0) : Type 0 where
  done : A → S → Outcome S A
  failed : HostError → S → Outcome S A
  unfinished : S → Outcome S A

abbrev pub bind_outcome : {S A B : Type 0} → Outcome S A → (A → S → Outcome S B) → Outcome S B
bind_outcome (done a s) f = f a s
bind_outcome (failed e s) f = failed e s
bind_outcome (unfinished s) f = unfinished s

infixl 5 ◌>>=◌
abbrev pub ◌>>=◌ : {S A B : Type 0} → (S → Outcome S A) → (A → S → Outcome S B) → S → Outcome S B
◌>>=◌ m f s = bind_outcome (m s) f

abbrev pub pure : {S A : Type 0} → A → S → Outcome S A
pure a s = done a s

abbrev pub fail : {S A : Type 0} → HostError → S → Outcome S A
fail e s = failed e s

-- `.await?` on a call.
abbrev pub awaited : {S A : Type 0} → Option A × S → Outcome S A
awaited (none, s) = failed rpc_failed s
awaited (some a, s) = done a s

abbrev pub is_ok : FsError → Bool
is_ok no_error = true
is_ok not_found = false
is_ok not_dir = false
is_ok is_dir = false
is_ok offset_out_of_range = false
is_ok io = false
is_ok busy = false
is_ok epoch_mismatch = false

-- `if resp.err != FsError::Ok { return Err(map_fs_error(..)) }`.
abbrev pub check_err : {S A : Type 0} → FsError → A → S → Outcome S A
check_err e a s = if is_ok e then done a s else failed (fs_error e) s

pub record FsNodeMeta : Type 0 where
  pub kind : FsNodeKind
  pub size_bytes : ℕ
  pub epoch : ℕ

abbrev pub is_file : FsNodeKind → Bool
is_file file = true
is_file dir = false

-- `sort_by` of the entries: directories first, then by their names. The sort is stable.
abbrev pub entry_cmp : FsDirEntry → FsDirEntry → Ordering
entry_cmp a b = by_kind a.kind b.kind
  where
    by_kind : FsNodeKind → FsNodeKind → Ordering
    by_kind dir file = Ordering.lt
    by_kind file dir = Ordering.gt
    by_kind dir dir = natural_cmp_ascii a.name b.name
    by_kind file file = natural_cmp_ascii a.name b.name

abbrev pub is_greater : Ordering → Bool
is_greater Ordering.lt = false
is_greater Ordering.eq = false
is_greater Ordering.gt = true

-- `sort_by` of the standard library keeps entries that compare equal in their order: the result is
-- that of inserting the entries one by one from the last.
unfoldable pub insert_entry : FsDirEntry → List FsDirEntry → List FsDirEntry
insert_entry e [] = e ∷ []
insert_entry e (d ∷ ds) =
    let rest = insert_entry e ds in if is_greater (entry_cmp e d) then d ∷ rest else e ∷ d ∷ ds

unfoldable pub sort_dir_entries : List FsDirEntry → List FsDirEntry
sort_dir_entries [] = []
sort_dir_entries (e ∷ es) = insert_entry e (sort_dir_entries es)

-- The entries of a page that are kept.
unfoldable pub kept_entries : List FsDirEntry → List FsDirEntry
kept_entries [] = []
kept_entries (e ∷ es) =
    let rest = kept_entries es in
    if text_eq e.name dot || text_eq e.name dot_dot then rest else e ∷ rest

module _ (b : RpcBackend) where
  abbrev pub M : Type 0 → Type 0
  M A = b.State → Outcome b.State A

  unfoldable pub fs_info : M FsInfoResp
  fs_info = do resp ← (λ s. awaited (b.fs_info s)); check_err resp.err resp

  unfoldable pub stat_path : Text → M FsNodeMeta
  stat_path path = do
    resp ← (λ s. awaited (b.fs_stat s (record { path = path; expected_epoch = none })))
    check_err resp.err
        (record { kind = resp.kind; size_bytes = resp.size_bytes; epoch = resp.epoch })

  unfoldable pub remove_path : Text → M ℕ
  remove_path path = do
    resp ← (λ s. awaited (b.fs_remove_path s (record { path = path; expected_epoch = none })))
    check_err resp.err resp.epoch

  unfoldable pub erase_storage : M ℕ
  erase_storage = do resp ← (λ s. awaited (b.fs_erase_storage s)); check_err resp.err resp.epoch

  -- The match on a page, with the next round of the loop.
  unfoldable pub list_page :
      (ℕ → List FsDirEntry → M (List FsDirEntry))
      → List FsDirEntry
      → FsListDirResp
      → M (List FsDirEntry)
  list_page again out resp =
      let more = out ++ kept_entries resp.entries in
      if is_ok resp.err
      then (if resp.next_cursor == 0
          then pure (sort_dir_entries more)
          else again resp.next_cursor more)
      else fail (fs_error resp.err)

  -- The loop of `list_dir_entries`, for a number of pages.
  unfoldable pub list_rest : ℕ → Text → ℕ → ℕ → List FsDirEntry → M (List FsDirEntry)
  list_rest zero path max_entries cursor out s = unfinished s
  list_rest (suc fuel) path max_entries cursor out s =
      (do
        resp ← (λ s. awaited (
            b.fs_list_dir_page s (record {
              path = path;
              cursor = cursor;
              max_entries = max_entries;
              expected_epoch = none;
            })))
        list_page (list_rest fuel path max_entries) out resp)
        s

  unfoldable pub list_dir_entries : ℕ → Text → M (List FsDirEntry)
  list_dir_entries pages path = do
    info ← fs_info
    list_rest pages path (max info.max_dir_entries 1) 0 []

  -- The match on a chunk, with the next round of the loop.
  unfoldable pub read_chunk :
      (ℕ → List ℕ → M (List ℕ)) → ℕ → ℕ → List ℕ → FsReadFileResp → M (List ℕ)
  read_chunk again target_size offset out resp =
      let next = offset + length resp.data' % 2 ^ 32 in
      if not (is_ok resp.err)
      then fail (fs_error resp.err)
      else if resp.offset != offset
      then fail unexpected_offset
      else if length resp.data' == 0
      then fail empty_data
      else if leb (2 ^ 32) next
      then fail offset_overflow
      else if ltb target_size next
      then fail too_many_bytes
      else again next (out ++ resp.data')

  -- The loop of `read_file_bytes`, for a number of rounds.
  unfoldable pub read_rest : ℕ → Text → ℕ → ℕ → ℕ → List ℕ → M (List ℕ)
  read_rest zero path target_size chunk_len offset out s = unfinished s
  read_rest (suc fuel) path target_size chunk_len offset out s =
      let req_len = min chunk_len (target_size - offset) % 2 ^ 16 in
      let request : FsReadFileReq = record {
        path = path;
        offset = offset;
        len = max req_len 1;
        expected_epoch = none;
      } in
      let round = awaited (b.fs_read_file_chunk s request) in
      elim (ltb offset target_size) [
        | true ↦
            bind_outcome round
              (read_chunk (read_rest fuel path target_size chunk_len) target_size offset out)
        | false ↦ done out s
      ]

  -- Each round adds a byte, so a round for each byte and one more are enough.
  unfoldable pub read_file : Text → ℕ → FsNodeMeta → M (List ℕ)
  read_file path chunk_len stat =
      if is_file stat.kind
      then read_rest (suc stat.size_bytes) path stat.size_bytes chunk_len 0 []
      else fail is_a_directory

  unfoldable pub read_file_bytes : Text → M (List ℕ)
  read_file_bytes path = do
    info ← fs_info
    stat ← stat_path path
    read_file path (max info.max_chunk 1) stat
