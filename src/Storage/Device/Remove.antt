-- ===== src/Storage/Device/Remove.antt =====
-- What a removal does (fw-test-board/app/src/logging.rs, handle_remove).
use asteria_firmware.Prelude.{
  ℕ, ◌+◌, ◌%◌, ◌^◌, ◌≡◌, refl, sym, ◌∙◌, arith, ◌==◌, true, false, Option, none, some, ◌&&◌, List,
  leb, Bool-cases, ◌⊎◌, inl, inr,
}
use asteria_firmware.Storage.Text.{Text, root, text_eq, trim, segments, byte_len}
use asteria_firmware.Storage.Text.Equal.{text_eq-≡, not_text_eq}
use asteria_firmware.Storage.Wire.{
  fs_path_cap, FsError, FsRemoveReq, no_error, not_found, is_dir, not_dir, offset_out_of_range, io,
  busy, epoch_mismatch,
}
use asteria_firmware.Storage.Path.{Checked, fine, refused, normalize_req_path, show_parts}
use asteria_firmware.Storage.Path.Canonical.{none_refused, normalize_req_path-taken}
use asteria_firmware.Storage.Littlefs.{Littlefs}
use asteria_firmware.Storage.Device.{
  Device, epoch_matches, exists, removed, remove_at, handle_remove,
}

-- An error, by which a request is refused.
abbrev pub IsRefusal : FsError → Type 0
IsRefusal no_error = ⊥
IsRefusal not_found = Unit {0}
IsRefusal not_dir = Unit {0}
IsRefusal is_dir = Unit {0}
IsRefusal offset_out_of_range = Unit {0}
IsRefusal io = Unit {0}
IsRefusal busy = Unit {0}
IsRefusal epoch_mismatch = Unit {0}

-- A path is taken or is not found.
data PathCase (c : Checked Text) : Type 0 where
  takes : (p : Text) → c ≡ fine p → PathCase c
  no_path : c ≡ refused not_found → PathCase c

path_cases : (input : Text) → PathCase (normalize_req_path input)
path_cases input =
    rw (normalize_req_path-taken input)
      (elim (Bool-cases (none_refused ts && leb (byte_len (show_parts ts)) fs_path_cap)) [
        | inl good ↦ takes (show_parts ts) (rw good refl)
        | inr bad ↦ no_path (rw bad refl)
      ])
  where
    ts : List Text
    ts = segments (trim input)

-- What a removal of the path `p` needs, where `after` is what the library makes of the file system:
-- no epoch or the device's is asked for, the request's path is `p` and below the root, and a
-- directory or a file opens there.
pub record MayRemove (l : Littlefs) (d : Device l) (s : l.State) (req : FsRemoveReq) (p : Text)
    (after : l.State) : Type 0 where
  on_time : (req.expected_epoch ≡ none) ⊎ (req.expected_epoch ≡ some d.epoch)
  normal : normalize_req_path req.path ≡ fine p
  below : ¬ (p ≡ root)
  accepted : l.accepts p ≡ true
  stands : (l.opens_dir s p ≡ true) ⊎ (l.opens_file s p ≡ true)
  gone : l.remove s p ≡ some after

-- The removal is possible and is made, with the next epoch, or no removal is possible, an error is
-- told and the device is as it was.
pub data RemoveOutcome (l : Littlefs) (d : Device l) (s : l.State) (req : FsRemoveReq)
    : Type 0 where
  applied :
      (p : Text) (after : l.State)
      → MayRemove l d s req p after
      → handle_remove l d s req ≡ (
        record { err = no_error; epoch = (d.epoch + 1) % 2 ^ 32 },
        record d { fs = some after; epoch = (d.epoch + 1) % 2 ^ 32 },
      )
      → RemoveOutcome l d s req
  unchanged :
      (e : FsError)
      → ((p : Text) (after : l.State) → ¬ MayRemove l d s req p after)
      → IsRefusal e
      → handle_remove l d s req ≡ (record { err = e; epoch = d.epoch }, d)
      → RemoveOutcome l d s req

asked : (e : Option ℕ) (n : ℕ) → epoch_matches e n ≡ true → (e ≡ none) ⊎ (e ≡ some n)
unfolding epoch_matches
asked none n h = inl refl
asked (some e) n h = inr (ground arith)

not_asked : (e : Option ℕ) (n : ℕ) → epoch_matches e n ≡ false → ¬ ((e ≡ none) ⊎ (e ≡ some n))
unfolding epoch_matches
not_asked none n h k = cc
not_asked (some e) n h (inl none_asked) = cc
not_asked (some e) n h (inr same) = other e n h (some_injective same)
  where
    some_injective : some e ≡ some n → e ≡ n
    some_injective p = cc

    other : (e n : ℕ) → (e == n) ≡ false → ¬ (e ≡ n)
    other e n h p = ground arith

differ : ¬ (false ≡ true)
differ h = cc

no_fine : {e : FsError} {p : Text} → ¬ (refused e ≡ fine p)
no_fine h = cc

module _ (l : Littlefs) (d : Device l) (s : l.State) (req : FsRemoveReq) where
  found : (p : Text) → exists l s p ≡ true → (l.opens_dir s p ≡ true) ⊎ (l.opens_file s p ≡ true)
  found p h = ground arith

  not_found_at :
      (p : Text) → exists l s p ≡ false → ¬ ((l.opens_dir s p ≡ true) ⊎ (l.opens_file s p ≡ true))
  not_found_at p h k = ground arith

  -- With the path of the request known, a removal can only be of that path.
  only :
      (p : Text)
      → normalize_req_path req.path ≡ fine p
      → ((after : l.State) → ¬ MayRemove l d s req p after)
      → (q : Text) (after : l.State) → ¬ MayRemove l d s req q after
  only p normal never q after may = never after (rw same at may)
    where
      same : q ≡ p
      same = let twice = sym may.normal ∙ normal in cc

  -- The call of the library, with the rest of the handler.
  call_cases :
      (p : Text) (after : Option l.State)
      → epoch_matches req.expected_epoch d.epoch ≡ true
      → normalize_req_path req.path ≡ fine p
      → text_eq p root ≡ false
      → l.accepts p ≡ true
      → exists l s p ≡ true
      → l.remove s p ≡ after
      → RemoveOutcome l d s req
  unfolding handle_remove remove_at removed
  call_cases p none on_time normal below accepted here told =
      unchanged busy (only p normal (λ after may. not_both (sym told ∙ may.gone))) tt
        (rw (on_time, normal, below, accepted, here, told) refl)
    where
      not_both : {after : l.State} → none ≡ some after → ⊥
      not_both h = cc
  call_cases p (some after) on_time normal below accepted here told =
      applied p after
        (record {
          on_time = asked req.expected_epoch d.epoch on_time;
          normal = normal;
          below = not_text_eq p root below;
          accepted = accepted;
          stands = found p here;
          gone = told;
        })
        (rw (on_time, normal, below, accepted, here, told) refl)

  at_path :
      (p : Text)
      → epoch_matches req.expected_epoch d.epoch ≡ true
      → normalize_req_path req.path ≡ fine p
      → RemoveOutcome l d s req
  unfolding handle_remove remove_at
  at_path p on_time normal = elim (Bool-cases (text_eq p root)) [
    | inl top ↦
        unchanged busy (only p normal (λ after may. may.below (text_eq-≡ p root top))) tt
          (rw (on_time, normal, top) refl)
    | inr below ↦ elim (Bool-cases (l.accepts p)) [
      | inr long ↦
          unchanged not_found (only p normal (λ after may. differ (sym long ∙ may.accepted))) tt
            (rw (on_time, normal, below, long) refl)
      | inl accepted ↦ elim (Bool-cases (exists l s p)) [
        | inr missing ↦
            unchanged not_found (only p normal (λ after may. not_found_at p missing may.stands)) tt
              (rw (on_time, normal, below, accepted, missing) refl)
        | inl here ↦ call_cases p (l.remove s p) on_time normal below accepted here refl
      ]
    ]
  ]

  -- Either no epoch or the device's is asked for, the request's path is one below the root at which
  -- a directory or a file opens, and the library can remove it: then it is removed, no error is told
  -- and the epoch, a 32-bit number, advances by one. Or not all of this is so: then the answer is an
  -- error with the device's epoch, and the device is as it was.
  pub handle_remove-cases : RemoveOutcome l d s req
  unfolding handle_remove
  handle_remove-cases = elim (Bool-cases (epoch_matches req.expected_epoch d.epoch)) [
    | inr late ↦
        unchanged epoch_mismatch
          (λ p after may. not_asked req.expected_epoch d.epoch late may.on_time) tt (rw late refl)
    | inl on_time ↦ elim (path_cases req.path) [
      | no_path bad ↦
          unchanged not_found (λ p after may. no_fine (sym bad ∙ may.normal)) tt
            (rw (on_time, bad) refl)
      | takes p normal ↦ at_path p on_time normal
    ]
  ]
