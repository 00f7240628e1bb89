-- ===== src/Storage/Natural/Decimal.antt =====
-- The comparison of two runs of digits is that of the decimal numbers.
use Prim.Native.Nat.{Ordering, compare}
use native.Mathlib.Nat.{mul-le-mul_right, pow-le-pow_right}
use asteria_firmware.Prelude.{
  ℕ, suc, ◌+◌, ◌-◌, ◌*◌, ◌^◌, ◌≤◌, ◌<◌, ◌≡◌, refl, ap, ◌∙◌, arith, true, false, List, [], ◌∷◌, ◌==◌,
  Bool-cases, inl, inr, ◌⊎◌, if◌then◌else◌, length, All,
}
use asteria_firmware.Storage.Natural.{skip_zeros, slice_cmp, digits_cmp}

abbrev pub IsDigit : ℕ → Type 0
IsDigit c = (0x30 ≤ c) × (c ≤ 0x39)

-- What a run of decimal digits stands for.
abbrev pub number : List ℕ → ℕ
number [] = 0
number (c ∷ cs) = (c - 0x30) * 10 ^ length cs + number cs

one_more : (k p n : ℕ) → k ≤ 9 → n < p → k * p + n < 10 * p
one_more k p n h less = omega (arith, mul-le-mul_right p h)

power_suc : (n : ℕ) → 10 ^ suc n ≡ 10 * 10 ^ n
power_suc n = omega arith

number-lt : (cs : List ℕ) → All IsDigit cs → number cs < 10 ^ length cs
number-lt [] h = omega arith
number-lt (c ∷ cs) h =
    let rest = number-lt cs h.1 in
    let bound = one_more (c - 0x30) (10 ^ length cs) (number cs) (omega arith) rest in
    omega (arith, bound, power_suc (length cs))

compare-less : (a b : ℕ) → a < b → compare a b ≡ Ordering.lt
compare-less a b h = ground arith

compare-same : (a b : ℕ) → a ≡ b → compare a b ≡ Ordering.eq
compare-same a b h = ground arith

-- A greater leading digit, with whatever follows.
leading : (j k p x y : ℕ) → j < k → x < p → j * p + x < k * p + y
leading j k p x y h less =
    let steps : suc j * p ≤ k * p = mul-le-mul_right p h in omega (arith, steps)

three_ways : (a b : ℕ) → (a < b) ⊎ ((a ≡ b) ⊎ (b < a))
three_ways a b = omega arith

slice_cmp-less :
    (xs ys : List ℕ)
    → All IsDigit xs
    → All IsDigit ys
    → length xs ≡ length ys
    → number xs < number ys
    → slice_cmp xs ys ≡ Ordering.lt
unfolding slice_cmp
slice_cmp-less [] [] h k same less = absurd (omega arith)
slice_cmp-less [] (b ∷ ys) h k same less = absurd (omega arith)
slice_cmp-less (a ∷ xs) [] h k same less = absurd (omega arith)
slice_cmp-less (a ∷ xs) (b ∷ ys) h k same less = elim (three_ways a b) [
  | inl below ↦ rw (compare-less a b below) refl
  | inr (inl equal) ↦
      rw (compare-same a b equal)
        (slice_cmp-less xs ys h.1 k.1 (omega arith) (behind equal (omega arith) less))
  | inr (inr above) ↦ absurd (wrong_way above (omega arith) less)
]
  where
    behind :
        a ≡ b → length xs ≡ length ys → number (a ∷ xs) < number (b ∷ ys) → number xs < number ys
    behind equal same less =
        let written : (a - 0x30) * 10 ^ length xs ≡ (b - 0x30) * 10 ^ length ys =
          rw (equal, same) refl in
        omega (arith, less, written)

    wrong_way : b < a → length xs ≡ length ys → ¬ (number (a ∷ xs) < number (b ∷ ys))
    wrong_way above same less =
        let scaled : 10 ^ length xs ≡ 10 ^ length ys = ap (λ n. 10 ^ n) same in
        let over =
          leading (b - 0x30) (a - 0x30) (10 ^ length ys) (number ys) (number xs)
            (omega (arith, above, h.0, k.0)) (number-lt ys k.1) in
        let written : (a - 0x30) * 10 ^ length xs ≡ (a - 0x30) * 10 ^ length ys =
          ap (λ p. (a - 0x30) * p) scaled in
        omega (arith, over, written, less)

skip_zeros-number : (cs : List ℕ) → number (skip_zeros cs) ≡ number cs
unfolding skip_zeros
skip_zeros-number [] = refl
skip_zeros-number (c ∷ cs) = elim (Bool-cases (c == 0x30)) [
  | inl nought ↦
      let first : (c - 0x30) * 10 ^ length cs ≡ 0 =
        ap (λ k. k * 10 ^ length cs) (is_nought nought) ∙ omega arith in
      rw nought (omega (arith, skip_zeros-number cs, first))
  | inr other ↦ rw other refl
]
  where
    is_nought : (c == 0x30) ≡ true → c - 0x30 ≡ 0
    is_nought h = ground arith

skip_zeros-IsDigit : (cs : List ℕ) → All IsDigit cs → All IsDigit (skip_zeros cs)
unfolding skip_zeros
skip_zeros-IsDigit [] h = tt
skip_zeros-IsDigit (c ∷ cs) h = elim (Bool-cases (c == 0x30)) [
  | inl nought ↦ rw nought (skip_zeros-IsDigit cs h.1)
  | inr other ↦ rw other h
]

power-le : (m k : ℕ) → m ≤ k → 10 ^ m ≤ 10 ^ k
power-le m k h = pow-le-pow_right (omega arith) h

-- A run without leading zeros that is longer stands for more.
longer :
    (xs cs : List ℕ)
    → All IsDigit xs
    → All IsDigit cs
    → length xs < length (skip_zeros cs)
    → number xs < number cs
unfolding skip_zeros
longer xs [] h k less = absurd (omega arith)
longer xs (c ∷ cs) h k less = elim (Bool-cases (c == 0x30)) [
  | inl nought ↦ let more = longer xs cs h k.1 (shorter nought less) in omega (arith, more)
  | inr other ↦
      let bound = number-lt xs h in
      let wide = power-le (length xs) (length cs) (shift other less) in
      let many : 1 * 10 ^ length cs ≤ (c - 0x30) * 10 ^ length cs =
        mul-le-mul_right (10 ^ length cs) (not_nought other k.0) in
      omega (arith, bound, wide, many)
]
  where
    shorter :
        (c == 0x30) ≡ true
        → length xs < length (if c == 0x30 then skip_zeros cs else c ∷ cs)
        → length xs < length (skip_zeros cs)
    shorter nought less = rw nought at less

    shift :
        (c == 0x30) ≡ false
        → length xs < length (if c == 0x30 then skip_zeros cs else c ∷ cs)
        → length xs ≤ length cs
    shift other less =
        let there : length xs < length (c ∷ cs) = rw other at less in omega (arith, there)

    not_nought : (c == 0x30) ≡ false → IsDigit c → 1 ≤ c - 0x30
    not_nought h k = ground arith

pub digits_cmp-less :
    (da db : List ℕ)
    → All IsDigit da
    → All IsDigit db
    → number da < number db
    → digits_cmp da db ≡ Ordering.lt
unfolding digits_cmp
digits_cmp-less da db h k less =
    elim (three_ways (length (skip_zeros da)) (length (skip_zeros db))) [
      | inl shorter ↦ rw (compare-less _ _ shorter) refl
      | inr (inl same) ↦
          rw
            (
              compare-same _ _ same,
              slice_cmp-less (skip_zeros da) (skip_zeros db) (skip_zeros-IsDigit da h)
                  (skip_zeros-IsDigit db k) same
                  (omega (arith, less, skip_zeros-number da, skip_zeros-number db)),
            )
            refl
      | inr (inr more) ↦ absurd (
          omega (
            arith,
            longer (skip_zeros db) da (skip_zeros-IsDigit db k) h more,
            skip_zeros-number db,
            less,
          ))
    ]
