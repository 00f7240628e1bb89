-- ===== src/Storage/Natural/Numbered.antt =====
-- Names that are numbered are in the order of their numbers.
use Prim.Native.Nat.{Ordering, compare}
use asteria_firmware.Prelude.{
  ℕ, ◌<◌, ◌≤◌, ◌≡◌, refl, ap, ◌∙◌, arith, true, false, List, [], ◌∷◌, ◌++◌, ◌⊎◌, inl, inr, length,
  ltb, All,
}
use asteria_firmware.Storage.Text.{Text, as_bytes}
use asteria_firmware.Storage.Natural.{
  is_digit, to_lower, digits, cmp_loop, bytes_cmp, natural_cmp_ascii,
}
use asteria_firmware.Storage.Natural.Flip.{flip, natural_cmp_ascii-flip}
use asteria_firmware.Storage.Natural.Decimal.{IsDigit, number, digits_cmp-less}

-- An ASCII character that is no digit.
abbrev pub IsPlain : ℕ → Type 0
IsPlain c = (c < 128) × ((c < 0x30) ⊎ (0x39 < c))

-- ASCII text that does not go on with a digit.
abbrev pub IsRest : Text → Type 0
IsRest [] = Unit {0}
IsRest (c ∷ t) = IsPlain c × All (λ b. b < 128) t

plain-false : (c : ℕ) → IsPlain c → is_digit c ≡ false
plain-false c (small, inl below) = ground arith
plain-false c (small, inr above) = ground arith

digit-true : (c : ℕ) → IsDigit c → is_digit c ≡ true
digit-true c h = ground arith

compare_refl : (n : ℕ) → compare n n ≡ Ordering.eq
compare_refl n = ground arith

as_bytes-ascii : (t : Text) → All (λ c. c < 128) t → as_bytes t ≡ t
unfolding as_bytes
as_bytes-ascii [] h = refl
as_bytes-ascii (c ∷ t) h = rw (is_small h.0) (ap (◌∷◌ c) (as_bytes-ascii t h.1))
  where
    is_small : c < 128 → ltb c 0x80 ≡ true
    is_small k = ground arith

digits-run : (ds rest : List ℕ) → All IsDigit ds → IsRest rest → digits (ds ++ rest) ≡ ds
unfolding digits
digits-run [] [] h k = refl
digits-run [] (c ∷ rest) h k = rw (plain-false c k.0) refl
digits-run (d ∷ ds) rest h k = rw (digit-true d h.0) (ap (◌∷◌ d) (digits-run ds rest h.1 k))

-- A common beginning without digits is passed over.
past_prefix :
    (prefix xs ys : List ℕ) (at_end : Ordering)
    → All IsPlain prefix
    → cmp_loop (length (prefix ++ xs)) at_end (prefix ++ xs) (prefix ++ ys)
      ≡ cmp_loop (length xs) at_end xs ys
unfolding cmp_loop
past_prefix [] xs ys at_end h = refl
past_prefix (c ∷ prefix) xs ys at_end h =
    rw (plain-false c h.0, compare_refl (to_lower c)) (past_prefix prefix xs ys at_end h.1)

at_numbers :
    (d e : ℕ) (ds es rest others : List ℕ) (at_end : Ordering)
    → All IsDigit (d ∷ ds)
    → All IsDigit (e ∷ es)
    → IsRest rest
    → IsRest others
    → number (d ∷ ds) < number (e ∷ es)
    → cmp_loop (length (d ∷ ds ++ rest)) at_end (d ∷ ds ++ rest) (e ∷ es ++ others) ≡ Ordering.lt
unfolding cmp_loop
at_numbers d e ds es rest others at_end h k stop also less =
    rw
      (
        digit-true d h.0,
        digit-true e k.0,
        digits-run (d ∷ ds) rest h stop,
        digits-run (e ∷ es) others k also,
        digits_cmp-less (d ∷ ds) (e ∷ es) h k less,
      )
      refl

name-ascii :
    (prefix ds rest : List ℕ)
    → All IsPlain prefix
    → All IsDigit ds
    → IsRest rest
    → All (λ c. c < 128) (prefix ++ (ds ++ rest))
name-ascii [] [] [] h k stop = tt
name-ascii [] [] (c ∷ rest) h k stop = (stop.0.0, stop.1)
name-ascii [] (d ∷ ds) rest h k stop = (omega arith, name-ascii [] ds rest h k.1 stop)
name-ascii (c ∷ prefix) ds rest h k stop = (h.0.0, name-ascii prefix ds rest h.1 k stop)

-- Two names of ASCII characters that begin with the same characters, none of them a digit, and go on
-- with a number each, of at least one digit, are in the order of the numbers, whatever stands behind
-- them: "log_9" is in front of "log_10".
pub natural_cmp_ascii-numbered :
    (prefix ds es rest others : Text)
    → All IsPlain prefix
    → All IsDigit ds
    → All IsDigit es
    → IsRest rest
    → IsRest others
    → 1 ≤ length ds
    → number ds < number es
    → (natural_cmp_ascii (prefix ++ (ds ++ rest)) (prefix ++ (es ++ others)) ≡ Ordering.lt)
      × (natural_cmp_ascii (prefix ++ (es ++ others)) (prefix ++ (ds ++ rest)) ≡ Ordering.gt)
unfolding natural_cmp_ascii bytes_cmp
natural_cmp_ascii-numbered prefix ds es rest others plain h k stop also some_digit less =
    (forward, natural_cmp_ascii-flip _ _ ∙ ap flip forward)
  where
    compared :
        (ds es : List ℕ)
        → All IsDigit ds
        → All IsDigit es
        → 1 ≤ length ds
        → number ds < number es
        → (at_end : Ordering)
        → cmp_loop (length (ds ++ rest)) at_end (ds ++ rest) (es ++ others) ≡ Ordering.lt
    compared [] es h k some_digit less at_end = absurd (omega arith)
    compared (d ∷ ds) [] h k some_digit less at_end = absurd (omega arith)
    compared (d ∷ ds) (e ∷ es) h k some_digit less at_end =
        at_numbers d e ds es rest others at_end h k stop also less

    forward : natural_cmp_ascii (prefix ++ (ds ++ rest)) (prefix ++ (es ++ others)) ≡ Ordering.lt
    forward =
        rw
          (
            as_bytes-ascii _ (name-ascii prefix ds rest plain h stop),
            as_bytes-ascii _ (name-ascii prefix es others plain k also),
          )
          (past_prefix prefix (ds ++ rest) (es ++ others) _ plain
            ∙ compared ds es h k some_digit less _)
