-- ===== src/Storage/Path/Allowed.antt =====
-- Which paths of requests the device takes.
use asteria_firmware.Prelude.{
  ℕ, ◌≡◌, ◌≤◌, refl, ◌∙◌, arith, true, false, List, [], ◌∷◌, All, Bool-cases, inl, inr, leb,
}
use asteria_firmware.Storage.Text.{Text, dot, dot_dot, text_eq, byte_len, trim, segments}
use asteria_firmware.Storage.Text.Equal.{
  text_eq-≡, not_text_eq, IsFree, contains_char-IsFree, not_IsFree,
}
use asteria_firmware.Storage.Wire.{fs_path_cap, not_found}
use asteria_firmware.Storage.Path.{fine, refused, normalize_req_path, show_parts}
use asteria_firmware.Storage.Path.Canonical.{forbidden, none_refused, normalize_req_path-taken}

-- A part that may stand in a path: not ".", not "..", and without a backslash.
abbrev pub IsAllowed : Text → Type 0
IsAllowed t = (¬ (t ≡ dot)) × (¬ (t ≡ dot_dot)) × IsFree 0x5C t

-- The parts of a trimmed path are allowed and, each behind one slash, fit the wire; or this is not so
-- and the path is not found.
pub data IsNormalized (input : Text) : Type 0 where
  taken_as :
      All IsAllowed (segments (trim input))
      → byte_len (show_parts (segments (trim input))) ≤ 128
      → normalize_req_path input ≡ fine (show_parts (segments (trim input)))
      → IsNormalized input
  not_taken :
      ¬ (
        All IsAllowed (segments (trim input))
        × (byte_len (show_parts (segments (trim input))) ≤ 128))
      → normalize_req_path input ≡ refused not_found
      → IsNormalized input

allowed : (t : Text) → forbidden t ≡ false → IsAllowed t
allowed t h = (
  not_text_eq t dot (ground arith),
  not_text_eq t dot_dot (ground arith),
  contains_char-IsFree 0x5C t (ground arith),
)

not-IsAllowed : (t : Text) → forbidden t ≡ true → ¬ IsAllowed t
not-IsAllowed t h good = elim (Bool-cases (text_eq t dot)) [
  | inl one ↦ good.0 (text_eq-≡ t dot one)
  | inr first ↦ elim (Bool-cases (text_eq t dot_dot)) [
    | inl two ↦ good.1 (text_eq-≡ t dot_dot two)
    | inr second ↦ not_IsFree 0x5C t (ground (arith, h, first, second)) good.2
  ]
]

none_refused-All : (ts : List Text) → none_refused ts ≡ true → All IsAllowed ts
none_refused-All [] h = tt
none_refused-All (t ∷ ts) h = (allowed t (ground arith), none_refused-All ts (ground arith))

not_none_refused : (ts : List Text) → none_refused ts ≡ false → ¬ All IsAllowed ts
not_none_refused [] h good = cc
not_none_refused (t ∷ ts) h good = elim (Bool-cases (forbidden t)) [
  | inl bad ↦ not-IsAllowed t bad good.0
  | inr fine_part ↦ not_none_refused ts (ground (arith, h, fine_part)) good.1
]

-- Every path is taken or not found. It is taken when no part of the trimmed path is "." or ".." or
-- holds a backslash, and the parts, each behind one slash, have at most 128 bytes: then the
-- result is that text. Otherwise it is not found.
pub normalize_req_path-IsNormalized : (input : Text) → IsNormalized input
normalize_req_path-IsNormalized input =
    let ts = segments (trim input) in
    elim (Bool-cases (none_refused ts)) [
      | inr bad ↦
          not_taken (λ good. not_none_refused ts bad good.0)
            (normalize_req_path-taken input ∙ rw bad refl)
      | inl all ↦ elim (Bool-cases (leb (byte_len (show_parts ts)) fs_path_cap)) [
        | inl fits ↦
            taken_as (none_refused-All ts all) (ground (arith, fits))
              (normalize_req_path-taken input ∙ rw (all, fits) refl)
        | inr long ↦
            not_taken (λ good. too_long (byte_len (show_parts ts)) long good.1)
              (normalize_req_path-taken input ∙ rw (all, long) refl)
      ]
    ]
  where
    too_long : (n : ℕ) → leb n fs_path_cap ≡ false → ¬ (n ≤ 128)
    too_long n h small = ground arith
