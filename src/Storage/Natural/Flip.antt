-- ===== src/Storage/Natural/Flip.antt =====
-- The order of names with its arguments swapped.
use Prim.Native.Nat.compare
use Prim.Native.Nat.{Ordering, compare, min}
use asteria_firmware.Prelude.{
  ℕ, zero, suc, ◌≤◌, ◌≡◌, refl, ◌∙◌, ap, arith, List, [], ◌∷◌, true, ◌&&◌, Bool-cases, inl, inr,
  length,
}
use asteria_firmware.Storage.Text.{Text, as_bytes}
use asteria_firmware.Storage.Natural.{
  is_digit, to_lower, digits, after_digits, skip_zeros, or_else, slice_cmp, digits_cmp, cmp_loop,
  bytes_cmp, natural_cmp_ascii,
}

abbrev pub flip : Ordering → Ordering
flip Ordering.lt = Ordering.gt
flip Ordering.eq = Ordering.eq
flip Ordering.gt = Ordering.lt

flip-or_else : (o rest : Ordering) → or_else (flip o) (flip rest) ≡ flip (or_else o rest)
flip-or_else Ordering.lt rest = refl
flip-or_else Ordering.eq rest = refl
flip-or_else Ordering.gt rest = refl

compare-flip : (a b : ℕ) → compare b a ≡ flip (compare a b)
compare-flip zero zero = rw compare.zero-zero refl
compare-flip zero (suc b) = rw (compare.zero-suc b, compare.suc-zero b) refl
compare-flip (suc a) zero = rw (compare.zero-suc a, compare.suc-zero a) refl
compare-flip (suc a) (suc b) = rw (compare.suc-suc a b, compare.suc-suc b a) (compare-flip a b)

or_else-flip : (p q r s : Ordering) → p ≡ flip q → r ≡ flip s → or_else p r ≡ flip (or_else q s)
or_else-flip p q r s h k = rw (h, k) (flip-or_else q s)

slice_cmp-flip : (xs bs : List ℕ) → slice_cmp bs xs ≡ flip (slice_cmp xs bs)
unfolding slice_cmp
slice_cmp-flip [] [] = refl
slice_cmp-flip [] (b ∷ bs) = refl
slice_cmp-flip (a ∷ xs) [] = refl
slice_cmp-flip (a ∷ xs) (b ∷ bs) = or_else-flip _ _ _ _ (compare-flip a b) (slice_cmp-flip xs bs)

digits_cmp-flip : (da db : List ℕ) → digits_cmp db da ≡ flip (digits_cmp da db)
unfolding digits_cmp
digits_cmp-flip da db =
    or_else-flip _ _ _ _ (compare-flip _ _)
      (or_else-flip _ _ _ _ (slice_cmp-flip (skip_zeros da) (skip_zeros db)) (compare-flip _ _))

cmp_loop-flip :
    (fuel : ℕ) (at_end : Ordering) (xs bs : List ℕ)
    → cmp_loop fuel (flip at_end) bs xs ≡ flip (cmp_loop fuel at_end xs bs)
unfolding cmp_loop
cmp_loop-flip zero at_end xs bs = refl
cmp_loop-flip (suc fuel) at_end [] [] = refl
cmp_loop-flip (suc fuel) at_end [] (b ∷ bs) = refl
cmp_loop-flip (suc fuel) at_end (a ∷ xs) [] = refl
cmp_loop-flip (suc fuel) at_end (a ∷ xs) (b ∷ bs) =
    let runs = cmp_loop-flip fuel at_end (after_digits (a ∷ xs)) (after_digits (b ∷ bs)) in
    let by_digits =
      or_else-flip _ _ _ _ (digits_cmp-flip (digits (a ∷ xs)) (digits (b ∷ bs))) runs in
    let by_letters =
      or_else-flip _ _ _ _ (compare-flip (to_lower a) (to_lower b))
        (cmp_loop-flip fuel at_end xs bs) in
    elim (Bool-cases (is_digit a)) [
      | inr plain ↦ elim (Bool-cases (is_digit b)) [
        | inl digit ↦ rw (plain, digit) by_letters
        | inr other ↦ rw (plain, other) by_letters
      ]
      | inl digit ↦ elim (Bool-cases (is_digit b)) [
        | inl too ↦ rw (digit, too) by_digits
        | inr other ↦ rw (digit, other) by_letters
      ]
    ]

length-after_digits : (xs : List ℕ) → length (after_digits xs) ≤ length xs
unfolding after_digits
length-after_digits [] = omega arith
length-after_digits (a ∷ xs) = ground (arith, length-after_digits xs)

length-after_digits_cons :
    (a : ℕ) (xs : List ℕ) → is_digit a ≡ true → length (after_digits (a ∷ xs)) ≤ length xs
unfolding after_digits
length-after_digits_cons a xs digit = rw digit (length-after_digits xs)

-- The comparison ends before its fuel does.
cmp_loop-fuel :
    (f g : ℕ) (at_end : Ordering) (xs bs : List ℕ)
    → min (length xs) (length bs) ≤ f
    → min (length xs) (length bs) ≤ g
    → cmp_loop f at_end xs bs ≡ cmp_loop g at_end xs bs
unfolding cmp_loop
cmp_loop-fuel zero zero at_end xs bs h k = refl
cmp_loop-fuel zero (suc g) at_end [] bs h k = refl
cmp_loop-fuel zero (suc g) at_end (a ∷ xs) [] h k = refl
cmp_loop-fuel zero (suc g) at_end (a ∷ xs) (b ∷ bs) h k = absurd (omega arith)
cmp_loop-fuel (suc f) zero at_end [] bs h k = refl
cmp_loop-fuel (suc f) zero at_end (a ∷ xs) [] h k = refl
cmp_loop-fuel (suc f) zero at_end (a ∷ xs) (b ∷ bs) h k = absurd (omega arith)
cmp_loop-fuel (suc f) (suc g) at_end [] bs h k = refl
cmp_loop-fuel (suc f) (suc g) at_end (a ∷ xs) [] h k = refl
cmp_loop-fuel (suc f) (suc g) at_end (a ∷ xs) (b ∷ bs) h k =
    elim (Bool-cases (is_digit a && is_digit b)) [
      | inr letters ↦ rw letters (
          ap (or_else (compare (to_lower a) (to_lower b)))
            (cmp_loop-fuel f g at_end xs bs (omega arith) (omega arith)))
      | inl both ↦
          let shorter = length-after_digits_cons a xs (ground (arith, both)) in
          let also = length-after_digits_cons b bs (ground (arith, both)) in
          rw both (
            ap (or_else (digits_cmp (digits (a ∷ xs)) (digits (b ∷ bs)))) (
              cmp_loop-fuel f g at_end (after_digits (a ∷ xs)) (after_digits (b ∷ bs))
                (omega (arith, shorter, also)) (omega (arith, shorter, also))))
    ]

-- Comparing two names the other way round gives the opposite answer.
pub natural_cmp_ascii-flip : (a b : Text) → natural_cmp_ascii b a ≡ flip (natural_cmp_ascii a b)
unfolding natural_cmp_ascii bytes_cmp
natural_cmp_ascii-flip a b = flipped (as_bytes a) (as_bytes b)
  where
    flipped : (xs bs : List ℕ) → bytes_cmp bs xs ≡ flip (bytes_cmp xs bs)
    flipped xs bs = rw (compare-flip (length xs) (length bs)) (
        cmp_loop-fuel (length bs) (length xs) _ bs xs (omega arith) (omega arith)
        ∙ cmp_loop-flip (length xs) (compare (length xs) (length bs)) xs bs)
