-- ===== src/Storage/Text/Equal.antt =====
-- What the tests of strings say.
use asteria_firmware.Prelude.{
  ℕ, ◌≡◌, refl, sym, ap, ◌∙◌, arith, true, false, [], ◌∷◌, ◌==◌, ◌||◌, All,
}
use asteria_firmware.Storage.Text.{Text, text_eq, contains_char}

text_eq_refl : (t : Text) → text_eq t t ≡ true
unfolding text_eq
text_eq_refl [] = refl
text_eq_refl (c ∷ t) = let rest = text_eq_refl t in ground arith

pub text_eq-≡ : (t u : Text) → text_eq t u ≡ true → t ≡ u
unfolding text_eq
text_eq-≡ [] [] h = refl
text_eq-≡ [] (d ∷ u) h = cc
text_eq-≡ (c ∷ t) [] h = cc
text_eq-≡ (c ∷ t) (d ∷ u) h =
    let both : (c ≡ d) × (text_eq t u ≡ true) = ground arith in
    ap (λ x. x ∷ t) both.0 ∙ ap (◌∷◌ d) (text_eq-≡ t u both.1)

pub not_text_eq : (t u : Text) → text_eq t u ≡ false → ¬ (t ≡ u)
not_text_eq t u h same = false-true (sym h ∙ ap (text_eq t) (sym same) ∙ text_eq_refl t)
  where
    false-true : ¬ (false ≡ true)
    false-true p = cc

-- No character of the text is `c`.
abbrev pub IsFree : ℕ → Text → Type 0
IsFree c t = All (λ d. ¬ (d ≡ c)) t

pub contains_char-IsFree : (c : ℕ) (t : Text) → contains_char c t ≡ false → IsFree c t
unfolding contains_char
contains_char-IsFree c [] h = tt
contains_char-IsFree c (d ∷ t) h =
    let parts : (¬ (d ≡ c)) × (contains_char c t ≡ false) = (differs d c t h, behind d c t h) in
    (parts.0, contains_char-IsFree c t parts.1)
  where
    differs : (d c : ℕ) (t : Text) → (d == c || contains_char c t) ≡ false → ¬ (d ≡ c)
    differs d c t h same = ground arith

    behind :
        (d c : ℕ) (t : Text) → (d == c || contains_char c t) ≡ false → contains_char c t ≡ false
    behind d c t h = ground arith

pub not_IsFree : (c : ℕ) (t : Text) → contains_char c t ≡ true → ¬ IsFree c t
unfolding contains_char
not_IsFree c [] h free = cc
not_IsFree c (d ∷ t) h free = not_IsFree c t (ground (arith, h, free.0)) free.1
