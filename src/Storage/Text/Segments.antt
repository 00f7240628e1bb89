-- ===== src/Storage/Text/Segments.antt =====
-- The parts of a path: splitting what was joined.
use asteria_firmware.Prelude.{
  ℕ, ◌≡◌, refl, ◌∙◌, ap, arith, false, List, [], ◌∷◌, ◌++◌, append-nil, ◌==◌, Bool-cases, inl, inr,
  All,
}
use asteria_firmware.Storage.Text.{
  Text, slash, is_empty, contains_char, onto_first, split, non_empty, segments, absolute,
}

-- A part of a path: not empty, without a slash.
abbrev pub IsPart : Text → Type 0
IsPart t = (is_empty t ≡ false) × (contains_char slash t ≡ false)

split-slash : (t : Text) → split (slash ∷ t) ≡ [] ∷ split t
unfolding split
split-slash t = refl

-- A part in front of a slash or of the end is split off.
split-part :
    (t rest : Text) → contains_char slash t ≡ false → split (t ++ (slash ∷ rest)) ≡ t ∷ split rest
unfolding split contains_char
split-part [] rest h = refl
split-part (c ∷ t) rest h =
    let parts : ((c == slash) ≡ false) × (contains_char slash t ≡ false) = ground (arith, h) in
    rw (parts.0, split-part t rest parts.1) refl

split-last : (t : Text) → contains_char slash t ≡ false → split t ≡ t ∷ []
unfolding split contains_char
split-last [] h = refl
split-last (c ∷ t) h =
    let parts : ((c == slash) ≡ false) × (contains_char slash t ≡ false) = ground (arith, h) in
    rw (parts.0, split-last t parts.1) refl

split-joined : (t : Text) (ts : List Text) → All IsPart (t ∷ ts) → split (t ++ absolute ts) ≡ t ∷ ts
unfolding absolute
split-joined t [] h = rw (append-nil t) (split-last t h.0.1)
split-joined t (u ∷ ts) h =
    split-part t (u ++ absolute ts) h.0.1 ∙ ap (λ rest. t ∷ rest) (split-joined u ts h.1)

pub split-absolute :
    (t : Text) (ts : List Text) → All IsPart (t ∷ ts) → split (absolute (t ∷ ts)) ≡ [] ∷ t ∷ ts
unfolding absolute
split-absolute t ts h =
    split-slash (t ++ absolute ts) ∙ ap (λ rest. [] ∷ rest) (split-joined t ts h)

non_empty-parts : (ts : List Text) → All IsPart ts → non_empty ts ≡ ts
unfolding non_empty
non_empty-parts [] h = refl
non_empty-parts ([] ∷ ts) h = absurd (ground (arith, h.0.0))
non_empty-parts ((c ∷ t) ∷ ts) h = ap (λ rest. (c ∷ t) ∷ rest) (non_empty-parts ts h.1)

-- The parts of a path come back from it.
pub segments-absolute :
    (t : Text) (ts : List Text) → All IsPart (t ∷ ts) → segments (absolute (t ∷ ts)) ≡ t ∷ ts
unfolding segments non_empty
segments-absolute t ts h = rw (split-absolute t ts h) (non_empty-parts (t ∷ ts) h)

abbrev pub NoSlash : Text → Type 0
NoSlash t = contains_char slash t ≡ false

onto_first-NoSlash :
    (c : ℕ) (ts : List Text) → (c == slash) ≡ false → All NoSlash ts → All NoSlash (onto_first c ts)
unfolding contains_char
onto_first-NoSlash c [] h p = (ground (arith, h), tt)
onto_first-NoSlash c (t ∷ ts) h p = (ground (arith, h, p.0), p.1)

pub split-NoSlash : (t : Text) → All NoSlash (split t)
unfolding split contains_char
split-NoSlash [] = (refl, tt)
split-NoSlash (c ∷ t) = elim (Bool-cases (c == slash)) [
  | inl here ↦ rw here (refl, split-NoSlash t)
  | inr other ↦ rw other (onto_first-NoSlash c (split t) other (split-NoSlash t))
]

non_empty-IsPart : (ts : List Text) → All NoSlash ts → All IsPart (non_empty ts)
unfolding non_empty
non_empty-IsPart [] h = tt
non_empty-IsPart ([] ∷ ts) h = non_empty-IsPart ts h.1
non_empty-IsPart ((c ∷ t) ∷ ts) h = ((refl, h.0), non_empty-IsPart ts h.1)

pub segments-IsPart : (t : Text) → All IsPart (segments t)
unfolding segments
segments-IsPart t = non_empty-IsPart (split t) (split-NoSlash t)
