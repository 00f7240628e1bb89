-- ===== src/Ms5607/Compensation/Bounded.antt =====
-- What the arithmetic on 64-bit integers does to bounded values.
use native.Mathlib.Nat.{mul-le-mul, div-le_of_le-mul}
use asteria_firmware.Prelude.{ℕ, suc, ◌+◌, ◌*◌, ◌/◌, ◌^◌, ◌≤◌, ◌≡◌, refl, ◌∙◌, ap, ap₂, arith}
use asteria_firmware.Prelude.Int.{ℤ, pos, negsuc, sub_ℕ, ◌+ℤ◌, ◌-ℤ◌, ◌*ℤ◌}
use asteria_firmware.Words.{magnitude, wrap_i32, as_u32, as_i32}
use asteria_firmware.Ms5607.Compensation.{as_u64, as_i64, wrap_i64, shr, div}

-- A computed value is the exact one, which is bounded.
pub record Near (bound : ℕ) (x y : ℤ) : Type 0 where
  pub same : x ≡ y
  pub small : magnitude y ≤ bound

pub near : {bound : ℕ} {x y : ℤ} → x ≡ y → magnitude y ≤ bound → Near bound x y
near p h = record { same = p; small = h }

wrap_i64-fits : (z : ℤ) → magnitude z ≤ 2 ^ 62 → wrap_i64 z ≡ z
unfolding wrap_i64 as_u64 as_i64
wrap_i64-fits (pos n) h = ground arith
wrap_i64-fits (negsuc n) h = ground arith

pub wrap_i32-fits : (z : ℤ) → magnitude z ≤ 2 ^ 30 → wrap_i32 z ≡ z
unfolding wrap_i32 as_u32 as_i32
wrap_i32-fits (pos n) h = ground arith
wrap_i32-fits (negsuc n) h = ground arith

magnitude-add : (a b : ℤ) → magnitude (a +ℤ b) ≤ magnitude a + magnitude b
unfolding ◌+ℤ◌
magnitude-add (pos m) (pos n) = ground arith
magnitude-add (pos m) (negsuc n) = ground arith
magnitude-add (negsuc m) (pos n) = ground arith
magnitude-add (negsuc m) (negsuc n) = ground arith

magnitude-sub : (a b : ℤ) → magnitude (a -ℤ b) ≤ magnitude a + magnitude b
unfolding ◌-ℤ◌
magnitude-sub (pos m) (pos n) = ground arith
magnitude-sub (pos m) (negsuc n) = ground arith
magnitude-sub (negsuc m) (pos n) = ground arith
magnitude-sub (negsuc m) (negsuc n) = ground arith

magnitude-sub_ℕ : (a b : ℕ) → magnitude (sub_ℕ a b) ≤ a + b
magnitude-sub_ℕ a b = ground arith

magnitude-mul : (a b : ℤ) → magnitude (a *ℤ b) ≤ magnitude a * magnitude b
unfolding ◌*ℤ◌
magnitude-mul (pos m) (pos n) = omega (arith, magnitude-sub_ℕ (m * n + 0 * 0) (m * 0 + 0 * n))
magnitude-mul (pos m) (negsuc n) =
    omega (arith, magnitude-sub_ℕ (m * 0 + 0 * suc n) (m * suc n + 0 * 0))
magnitude-mul (negsuc m) (pos n) =
    omega (arith, magnitude-sub_ℕ (0 * n + suc m * 0) (0 * 0 + suc m * n))
magnitude-mul (negsuc m) (negsuc n) =
    omega (arith, magnitude-sub_ℕ (0 * 0 + suc m * suc n) (0 * suc n + suc m * 0))

pub add-Near :
    {a b : ℕ} {x x' y y' : ℤ}
    → Near a x x'
    → Near b y y'
    → a + b ≤ 2 ^ 62
    → Near (a + b) (wrap_i64 (x +ℤ y)) (x' +ℤ y')
add-Near {a} {b} {x} {x'} {y} {y'} p q h =
    let bound : magnitude (x' +ℤ y') ≤ a + b =
      omega (arith, magnitude-add x' y', p.small, q.small) in
    near
      (ap₂ (λ u v. wrap_i64 (u +ℤ v)) p.same q.same
        ∙ wrap_i64-fits (x' +ℤ y') (omega (arith, bound, h)))
      bound

pub sub-Near :
    {a b : ℕ} {x x' y y' : ℤ}
    → Near a x x'
    → Near b y y'
    → a + b ≤ 2 ^ 62
    → Near (a + b) (wrap_i64 (x -ℤ y)) (x' -ℤ y')
sub-Near {a} {b} {x} {x'} {y} {y'} p q h =
    let bound : magnitude (x' -ℤ y') ≤ a + b =
      omega (arith, magnitude-sub x' y', p.small, q.small) in
    near
      (ap₂ (λ u v. wrap_i64 (u -ℤ v)) p.same q.same
        ∙ wrap_i64-fits (x' -ℤ y') (omega (arith, bound, h)))
      bound

pub mul-Near :
    {a b : ℕ} {x x' y y' : ℤ}
    → Near a x x'
    → Near b y y'
    → a * b ≤ 2 ^ 62
    → Near (a * b) (wrap_i64 (x *ℤ y)) (x' *ℤ y')
mul-Near {a} {b} {x} {x'} {y} {y'} p q h =
    let factors : magnitude x' * magnitude y' ≤ a * b = mul-le-mul p.small q.small in
    let bound : magnitude (x' *ℤ y') ≤ a * b = omega (arith, magnitude-mul x' y', factors) in
    near
      (ap₂ (λ u v. wrap_i64 (u *ℤ v)) p.same q.same
        ∙ wrap_i64-fits (x' *ℤ y') (omega (arith, bound, h)))
      bound

magnitude-shr : (d n : ℕ) (z : ℤ) → magnitude z ≤ d * n → magnitude (shr d z) ≤ n + 1
unfolding shr
magnitude-shr d n (pos m) h = omega (arith, div-le_of_le-mul d h)
magnitude-shr d n (negsuc m) h =
    let below : m ≤ d * n = omega (arith, h) in omega (arith, div-le_of_le-mul d below)

pub shr-Near :
    {a : ℕ} (d n : ℕ) {x x' : ℤ} → Near a x x' → a ≤ d * n → Near (n + 1) (shr d x) (shr d x')
shr-Near d n {x} {x'} p h =
    near (ap (shr d) p.same) (magnitude-shr d n x' (omega (arith, p.small, h)))

magnitude-div : (d n : ℕ) (z : ℤ) → magnitude z ≤ d * n → magnitude (div z d) ≤ n
unfolding div
magnitude-div d n (pos m) h = div-le_of_le-mul d h
magnitude-div d n (negsuc m) h = omega (arith, magnitude-sub_ℕ 0 (suc m / d), div-le_of_le-mul d h)

pub div-Near : {a : ℕ} (d n : ℕ) {x x' : ℤ} → Near a x x' → a ≤ d * n → Near n (div x d) (div x' d)
div-Near d n {x} {x'} p h =
    near (ap (λ z. div z d) p.same) (magnitude-div d n x' (omega (arith, p.small, h)))

pub pos-Near : {a n : ℕ} → n ≤ a → Near a (pos n) (pos n)
pos-Near h = near refl h

pub word-Near : {a n : ℕ} → n ≤ a → a ≤ 2 ^ 62 → Near a (wrap_i64 (pos n)) (pos n)
word-Near {a} {n} h k = near (wrap_i64-fits (pos n) (omega (arith, h, k))) h

-- A bound may be larger.
pub loosen : {a b : ℕ} {x y : ℤ} → Near a x y → a ≤ b → Near b x y
loosen p h = near p.same (omega (arith, p.small, h))
