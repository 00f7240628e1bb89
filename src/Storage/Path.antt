-- ===== src/Storage/Path.antt =====
-- The two normalisations of a path: the device's (fw-test-board/app/src/logging.rs) and the host's
-- (tools/asteria-tool/src/vfs.rs).
pub mod Canonical
pub mod Allowed
pub mod Host
use asteria_firmware.Prelude.{
  ℕ, Bool, true, false, List, [], ◌∷◌, ◌++◌, ◌||◌, Option, none, some, leb, if◌then◌else◌, not,
}
use asteria_firmware.Storage.Text.{
  Text, slash, backslash, dot, dot_dot, root, is_empty, text_eq, contains_char, starts_with_slash,
  byte_len, trim, split, segments, absolute,
}
use asteria_firmware.Storage.Wire.{fs_path_cap, FsError, not_found, io}

-- A `Result` with a filesystem error.
pub data Checked (A : Type 0) : Type 0 where
  fine : A → Checked A
  refused : FsError → Checked A

-- `push_str` on a string of capacity `fs_path_cap`; its failure is mapped to an error.
abbrev pub push_str : Text → Text → FsError → Checked Text
push_str out t e = if leb (byte_len (out ++ t)) fs_path_cap then fine (out ++ t) else refused e

abbrev pub then_checked : {A B : Type 0} → Checked A → (A → Checked B) → Checked B
then_checked (fine a) f = f a
then_checked (refused e) f = refused e

-- What the device refuses as a part of a path.
unfoldable pub is_refused : Text → Bool
is_refused seg = text_eq seg dot || (text_eq seg dot_dot || contains_char backslash seg)

abbrev pub push_separator : Bool → Text → Checked Text
push_separator first out = if first then fine out else push_str out root not_found

-- The loop over the parts, with what is pushed so far.
unfoldable pub push_segments : Bool → Text → List Text → Checked Text
push_segments first out [] = fine out
push_segments first out (seg ∷ rest) =
    if is_refused seg
    then refused not_found
    else then_checked (push_separator first out)
        (λ out1. then_checked (push_str out1 seg not_found) (λ out2. push_segments false out2 rest))

-- `normalize_req_path`.
unfoldable pub normalize_req_path : Text → Checked Text
normalize_req_path input =
    then_checked (push_str [] root io) (λ out. push_segments true out (segments (trim input)))

-- `parts.pop()`, on the parts from the last to the first.
abbrev pub pop : List Text → List Text
pop [] = []
pop (t ∷ ts) = ts

-- The match on a part of the input, on the parts that are kept, from the last to the first.
abbrev pub keep : Text → List Text → List Text
keep part parts =
    if is_empty part || text_eq part dot
    then parts
    else if text_eq part dot_dot
    then pop parts
    else part ∷ parts

unfoldable pub walk : List Text → List Text → List Text
walk parts [] = parts
walk parts (part ∷ rest) = walk (keep part parts) rest

abbrev pub onto : List Text → List Text → List Text
onto [] acc = acc
onto (t ∷ ts) acc = onto ts (t ∷ acc)

abbrev pub show_parts : List Text → Text
show_parts [] = root
show_parts (t ∷ ts) = absolute (t ∷ ts)

abbrev pub base : Text → List Text → List Text
base input cwd_parts = if starts_with_slash input then [] else onto cwd_parts []

-- `normalize_path`; `none` is its failure.
unfoldable pub normalize_path : Text → Text → Option Text
normalize_path cwd input =
    let cwd' = if is_empty cwd then root else cwd in
    if starts_with_slash cwd'
    then some (show_parts (onto (walk (base input (segments cwd')) (split input)) []))
    else none

-- `file_name`: the last part that is not empty.
abbrev pub last_part : List Text → Option Text
last_part [] = none
last_part (t ∷ []) = some t
last_part (t ∷ u ∷ ts) = last_part (u ∷ ts)

unfoldable pub file_name : Text → Option Text
file_name path = if text_eq path root then none else last_part (segments path)

-- `join`.
unfoldable pub join : Text → Text → Option Text
join parent child =
    if contains_char slash child || is_empty child
    then none
    else if text_eq parent root
    then some (slash ∷ child)
    else some (parent ++ (slash ∷ child))
