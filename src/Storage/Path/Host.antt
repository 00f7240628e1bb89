-- ===== src/Storage/Path/Host.antt =====
-- What the host's normalisation gives, and that the device takes it.
use asteria_firmware.Prelude.{
  ◌≤◌, ◌≡◌, refl, ◌∙◌, ap, arith, true, false, List, [], ◌∷◌, ◌++◌, append-nil, ◌||◌, Bool-cases,
  inl, inr, if◌then◌else◌, All, leb, some, none,
}
use asteria_firmware.Storage.Text.{
  Text, slash, backslash, dot, dot_dot, root, is_empty, text_eq, contains_char, starts_with_slash,
  byte_len, trim, split, segments, absolute, non_empty,
}
use asteria_firmware.Storage.Text.Segments.{
  IsPart, split-absolute, segments-absolute, split-NoSlash,
}
use asteria_firmware.Storage.Wire.{fs_path_cap}
use asteria_firmware.Storage.Path.{
  fine, is_refused, normalize_req_path, pop, keep, walk, onto, show_parts, base, normalize_path,
}
use asteria_firmware.Storage.Path.Canonical.{none_refused, normalize_req_path-taken}

-- A name that a path may be made of.
abbrev pub IsName : Text → Type 0
IsName t = IsPart t × ((text_eq t dot ≡ false) × (text_eq t dot_dot ≡ false))

abbrev NoSlash : Text → Type 0
NoSlash t = contains_char slash t ≡ false

pop-IsName : (ts : List Text) → All IsName ts → All IsName (pop ts)
pop-IsName [] h = tt
pop-IsName (t ∷ ts) h = h.1

keep-IsName : (t : Text) (ts : List Text) → NoSlash t → All IsName ts → All IsName (keep t ts)
keep-IsName t ts h p = elim (Bool-cases (is_empty t || text_eq t dot)) [
  | inl stays ↦ rw stays p
  | inr moves ↦ elim (Bool-cases (text_eq t dot_dot)) [
    | inl up ↦ rw (moves, up) (pop-IsName ts p)
    | inr down ↦ rw (moves, down) (((ground (arith, moves), h), (ground (arith, moves), down)), p)
  ]
]

walk-IsName :
    (ts parts : List Text) → All NoSlash ts → All IsName parts → All IsName (walk parts ts)
unfolding walk
walk-IsName [] parts h p = p
walk-IsName (t ∷ ts) parts h p = walk-IsName ts (keep t parts) h.1 (keep-IsName t parts h.0 p)

onto-IsName : (ts acc : List Text) → All IsName ts → All IsName acc → All IsName (onto ts acc)
onto-IsName [] acc h p = p
onto-IsName (t ∷ ts) acc h p = onto-IsName ts (t ∷ acc) h.1 (h.0, p)

IsName-IsPart : (ts : List Text) → All IsName ts → All IsPart ts
IsName-IsPart [] h = tt
IsName-IsPart (t ∷ ts) h = (h.0.0, IsName-IsPart ts h.1)

segments-show_parts : (ts : List Text) → All IsName ts → segments (show_parts ts) ≡ ts
unfolding segments split absolute non_empty
segments-show_parts [] h = refl
segments-show_parts (t ∷ ts) h = segments-absolute t ts (IsName-IsPart (t ∷ ts) h)

starts-show_parts : (ts : List Text) → starts_with_slash (show_parts ts) ≡ true
unfolding absolute
starts-show_parts [] = refl
starts-show_parts (t ∷ ts) = refl

-- The names are kept as they are.
walk-names : (ts parts : List Text) → All IsName ts → walk parts ts ≡ onto ts parts
unfolding walk
walk-names [] parts h = refl
walk-names (t ∷ ts) parts h = rw kept (walk-names ts (t ∷ parts) h.1)
  where
    kept : keep t parts ≡ t ∷ parts
    kept = ground (arith, h.0)

onto-onto : (ts acc us : List Text) → onto (onto ts acc) us ≡ onto acc (ts ++ us)
onto-onto [] acc us = refl
onto-onto (t ∷ ts) acc us = onto-onto ts (t ∷ acc) us

back : (ts : List Text) → onto (onto ts []) [] ≡ ts
back ts = onto-onto ts [] [] ∙ append-nil ts

-- The names that a relative or absolute input leads to, from the names of the current directory.
abbrev pub target_names : List Text → Text → List Text
target_names names input = onto (walk (base input names) (split input)) []

target_names-IsName :
    (names : List Text) (input : Text) → All IsName names → All IsName (target_names names input)
target_names-IsName names input h =
    onto-IsName _ [] (walk-IsName (split input) (base input names) (split-NoSlash input) start) tt
  where
    start : All IsName (base input names)
    start = elim (Bool-cases (starts_with_slash input)) [
      | inl slashed ↦ rw slashed tt
      | inr plain ↦ rw plain (onto-IsName names [] h tt)
    ]

-- From a directory whose path is made of names, every input is normalised, to a path made of names:
-- no part of it is empty, "." or "..".
pub normalize_path-names :
    (names : List Text) (input : Text)
    → All IsName names
    → (normalize_path (show_parts names) input ≡ some (show_parts (target_names names input)))
      × All IsName (target_names names input)
unfolding normalize_path absolute walk
normalize_path-names names input h = (found names h, target_names-IsName names input h)
  where
    found :
        (names : List Text)
        → All IsName names
        → (if starts_with_slash (if is_empty (show_parts names) then root else show_parts names)
            then some (
                show_parts (
                  onto
                    (walk
                      (base input
                        (segments (if is_empty (show_parts names) then root else show_parts names)))
                      (split input))
                    []))
            else none)
          ≡ some (show_parts (target_names names input))
    found [] h = rw (segments-show_parts [] tt) refl
    found (t ∷ ts) h = rw (segments-show_parts (t ∷ ts) h) refl

-- A normalised path is its own normalisation, from any directory.
normalize_path-again :
    (names cwd : List Text)
    → All IsName names
    → All IsName cwd
    → normalize_path (show_parts cwd) (show_parts names) ≡ some (show_parts names)
unfolding walk absolute split
normalize_path-again [] cwd h p = (normalize_path-names cwd root p).0
normalize_path-again (t ∷ ts) cwd h p =
    (normalize_path-names cwd (show_parts (t ∷ ts)) p).0 ∙ ap (λ us. some (show_parts us)) kept
  where
    kept : onto (walk [] (split (absolute (t ∷ ts)))) [] ≡ t ∷ ts
    kept =
        rw (split-absolute t ts (IsName-IsPart (t ∷ ts) h), walk-names (t ∷ ts) [] h)
          (back (t ∷ ts))

abbrev pub NoBackslash : Text → Type 0
NoBackslash t = contains_char backslash t ≡ false

names-none_refused : (ts : List Text) → All IsName ts → All NoBackslash ts → none_refused ts ≡ true
unfolding is_refused
names-none_refused [] h p = refl
names-none_refused (t ∷ ts) h p = ground (arith, h.0, p.0, names-none_refused ts h.1 p.1)

-- A path made of names is taken by the device as it is, if no name holds a backslash, the path ends in
-- no whitespace and it fits the wire.
pub normalize_req_path-names :
    (ts : List Text)
    → All IsName ts
    → All NoBackslash ts
    → trim (show_parts ts) ≡ show_parts ts
    → byte_len (show_parts ts) ≤ fs_path_cap
    → normalize_req_path (show_parts ts) ≡ fine (show_parts ts)
normalize_req_path-names ts h p trimmed fits =
    normalize_req_path-taken (show_parts ts)
    ∙ rw (trimmed, segments-show_parts ts h, names-none_refused ts h p, short) refl
  where
    short : leb (byte_len (show_parts ts)) fs_path_cap ≡ true
    short = ground (arith, fits)
