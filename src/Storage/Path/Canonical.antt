-- ===== src/Storage/Path/Canonical.antt =====
-- What the device's normalisation gives.
use asteria_firmware.Prelude.{
  ◌+◌, ◌≤◌, ◌≡◌, refl, sym, ◌∙◌, ap, arith, Bool, true, false, List, [], ◌∷◌, ◌++◌, append_assoc,
  append-nil, ◌&&◌, ◌||◌, Bool-cases, inl, inr, if◌then◌else◌, not, leb,
}
use asteria_firmware.Storage.Text.{
  Text, root, dot, dot_dot, text_eq, contains_char, byte_len, trim, segments, absolute,
}
use asteria_firmware.Storage.Wire.{fs_path_cap, not_found}
use asteria_firmware.Storage.Path.{
  Checked, fine, refused, push_str, then_checked, is_refused, push_segments, normalize_req_path,
  show_parts,
}

pub byte_len-append : (t u : Text) → byte_len (t ++ u) ≡ byte_len t + byte_len u
unfolding byte_len
byte_len-append [] u = omega arith
byte_len-append (c ∷ t) u = omega (arith, byte_len-append t u)

-- A part that may not stand in a path of a request: ".", ".." or one with a backslash.
abbrev pub forbidden : Text → Bool
forbidden t = text_eq t dot || (text_eq t dot_dot || contains_char 0x5C t)

abbrev pub none_refused : List Text → Bool
none_refused [] = true
none_refused (t ∷ ts) = not (forbidden t) && none_refused ts

is_refused-forbidden : (t : Text) → is_refused t ≡ forbidden t
unfolding is_refused
is_refused-forbidden t = refl

-- A path that is taken if all its parts are and it fits.
abbrev pub taken : Bool → Text → Checked Text
taken all p = if all && leb (byte_len p) fs_path_cap then fine p else refused not_found

taken-long :
    (all : Bool) (out more : Text)
    → fs_path_cap + 1 ≤ byte_len out
    → taken all (out ++ more) ≡ refused not_found
taken-long true out more h =
    let over : leb (byte_len (out ++ more)) fs_path_cap ≡ false =
      ground (arith, byte_len-append out more) in
    rw over refl
taken-long false out more h = refl

push_str-taken :
    (all : Bool) (out t more : Text) (f : Text → Checked Text)
    → (byte_len (out ++ t) ≤ fs_path_cap → f (out ++ t) ≡ taken all ((out ++ t) ++ more))
    → then_checked (push_str out t not_found) f ≡ taken all ((out ++ t) ++ more)
push_str-taken all out t more f h = elim (Bool-cases (leb (byte_len (out ++ t)) fs_path_cap)) [
  | inl fits ↦ rw fits (h (ground (arith, fits)))
  | inr over ↦ rw over (sym (taken-long all (out ++ t) more (ground (arith, over))))
]

push_segments-taken :
    (ts : List Text) (out : Text)
    → byte_len out ≤ fs_path_cap
    → push_segments false out ts ≡ taken (none_refused ts) (out ++ absolute ts)
unfolding push_segments absolute
push_segments-taken [] out h =
    let fits : leb (byte_len out) fs_path_cap ≡ true = ground (arith, h) in
    rw (append-nil out, fits) refl
push_segments-taken (t ∷ ts) out h = elim (Bool-cases (forbidden t)) [
  | inl bad ↦ rw (is_refused-forbidden t, bad) refl
  | inr good ↦
      rw (is_refused-forbidden t, good)
        (push_str-taken (none_refused ts) out root (t ++ absolute ts) _ (λ fits.
            push_str-taken (none_refused ts) (out ++ root) t (absolute ts) _
              (push_segments-taken ts ((out ++ root) ++ t))
            ∙ ap (taken (none_refused ts)) (append_assoc (out ++ root) t (absolute ts)))
          ∙ ap (taken (none_refused ts)) (append_assoc out root (t ++ absolute ts)))
]

-- `normalize_req_path` in one test: it gives the parts of the request behind a slash each, if no part
-- is "." or ".." or holds a backslash, and if this fits the wire; any other request is "not found".
pub normalize_req_path-taken :
    (input : Text)
    → normalize_req_path input
      ≡ taken (none_refused (segments (trim input))) (show_parts (segments (trim input)))
unfolding normalize_req_path push_segments absolute byte_len
normalize_req_path-taken input = first (segments (trim input))
  where
    first : (ts : List Text) → push_segments true root ts ≡ taken (none_refused ts) (show_parts ts)
    first [] = refl
    first (t ∷ ts) = elim (Bool-cases (forbidden t)) [
      | inl bad ↦ rw (is_refused-forbidden t, bad) refl
      | inr good ↦
          rw (is_refused-forbidden t, good)
            (push_str-taken (none_refused ts) root t (absolute ts) _
              (push_segments-taken ts (root ++ t)))
    ]
