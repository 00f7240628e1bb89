-- ===== src/Epos4/Crc/Linear.antt =====
-- `update_crc` is a linear map over exclusive or: a word that is fed in is added at the end.
use native.Mathlib.Nat.{pow-suc, add-zero, pow-le-pow_right, one-le-pow, mod-one}
use asteria_firmware.Prelude.{
  ℕ, zero, suc, ◌+◌, ◌*◌, ◌/◌, ◌%◌, ◌^◌, ◌<◌, bit_xor, ◌≡◌, refl, sym, ap, ◌∙◌, arith, leb,
  if◌then◌else◌, ◌==◌, Bool, true, false,
}
use asteria_firmware.Bits.Xor.{
  xor-mod, xor-div, xor-zero, xor-lt, xor_swap, double-xor_digit, xor_parity, xor_injective,
}
use asteria_firmware.Bits.Fields.{test_bit}
use asteria_firmware.Bits.Step.{mod_top}
use asteria_firmware.Epos4.Crc.{crc_round, crc_loop, update_crc}

-- One round as arithmetic, fed with the bit `x`.
pub shift_in : ℕ → ℕ → ℕ
shift_in crc x = if leb 32768 crc then bit_xor (crc * 2 % 65536 + x) 0x1021 else crc * 2 % 65536 + x

pub shift_in-lt : (c x : ℕ) → x < 2 → shift_in c x < 65536
unfolding shift_in
shift_in-lt c x h = ground (arith, xor-lt 16 (c * 2 % 65536 + x) 0x1021)

-- The mask `2 ^ k` picks bit `k`.
crc_round-shift_in : (k c v : ℕ) → c < 65536 → crc_round c v (2 ^ k) ≡ shift_in c (v / 2 ^ k % 2)
unfolding crc_round shift_in
crc_round-shift_in k c v h = rw (test_bit k v, test_bit 15 c) (fed (v / 2 ^ k % 2) (omega arith))
  where
    fed :
        (x : ℕ)
        → x < 2
        → (if c / 32768 % 2 == 1
            then bit_xor (if x == 1 then c * 2 % 65536 + 1 else c * 2 % 65536) 0x1021
            else if x == 1
            then c * 2 % 65536 + 1
            else c * 2 % 65536)
          ≡ (if leb 32768 c then bit_xor (c * 2 % 65536 + x) 0x1021 else c * 2 % 65536 + x)
    fed x p = ground arith

-- The rounds left from bit `k - 1` down.
pub rounds : ℕ → ℕ → ℕ → ℕ
rounds zero c v = c
rounds (suc k) c v = rounds k (shift_in c (v / 2 ^ k % 2)) v

crc_loop-zero : (n c v : ℕ) → crc_loop n c v 0 ≡ c
unfolding crc_loop
crc_loop-zero zero c v = refl
crc_loop-zero (suc n) c v = refl

crc_loop-step :
    (n c v shifter : ℕ)
    → 0 < shifter
    → crc_loop (suc n) c v shifter ≡ crc_loop n (crc_round c v shifter) v (shifter / 2)
unfolding crc_loop
crc_loop-step n c v shifter h = ground arith

-- From the mask `2 ^ k` the loop makes `k + 1` rounds and ends; more fuel changes nothing.
pub crc_loop-rounds :
    (k n c v : ℕ) → c < 65536 → k < n → crc_loop (suc n) c v (2 ^ k) ≡ rounds (suc k) c v
unfolding rounds
crc_loop-rounds k zero c v h p = absurd (omega arith)
crc_loop-rounds zero (suc n) c v h p =
    crc_loop-step (suc n) c v 1 (omega arith)
    ∙ crc_loop-zero (suc n) (crc_round c v 1) v
    ∙ crc_round-shift_in 0 c v h
crc_loop-rounds (suc k) (suc n) c v h p =
    crc_loop-step (suc n) c v (2 ^ suc k) (one-le-pow (suc k) 2 (omega arith))
    ∙ rw (crc_round-shift_in (suc k) c v h, half)
        (crc_loop-rounds k n (shift_in c (v / 2 ^ suc k % 2)) v
          (shift_in-lt c (v / 2 ^ suc k % 2) (omega arith)) (omega arith))
  where
    half : 2 ^ suc k / 2 ≡ 2 ^ k
    half = omega (arith, pow-suc 2 k)

pub update_crc-rounds : (c v : ℕ) → c < 65536 → update_crc c v ≡ rounds 16 c v
unfolding update_crc
update_crc-rounds c v h = crc_loop-rounds 15 16 c v h (omega arith)

-- A value below `2 ^ 15` that is added before the shift is doubled behind it, with the bit.
shift_in-xor :
    (c t x : ℕ)
    → c < 65536
    → t < 32768
    → x < 2
    → shift_in (bit_xor c t) x ≡ bit_xor (shift_in c 0) (2 * t + x)
unfolding shift_in
shift_in-xor c t x hc ht hx = rw (shifted, same_carry) (added (leb 32768 c))
  where
    body : ℕ
    body = c * 2 % 65536

    no_top : t / 32768 ≡ 0
    no_top = omega arith

    kept : t % 32768 ≡ t
    kept = omega arith

    low : bit_xor c t % 32768 ≡ bit_xor (c % 32768) t
    low = xor-mod 15 c t ∙ rw kept refl

    twice : (n : ℕ) → n * 2 % 65536 ≡ 2 * (n % 32768)
    twice n = omega arith

    same_carry : leb 32768 (bit_xor c t) ≡ leb 32768 c
    same_carry =
        let top : bit_xor c t / 32768 ≡ c / 32768 =
          xor-div 15 c t ∙ rw no_top (xor-zero (c / 32768)) in
        ground (arith, top)

    shifted : bit_xor c t * 2 % 65536 + x ≡ bit_xor body (2 * t + x)
    shifted = rw (twice (bit_xor c t), twice c, low) (sym (double-xor_digit (c % 32768) t x hx))

    added :
        (carry : Bool)
        → (if carry then bit_xor (bit_xor body (2 * t + x)) 0x1021 else bit_xor body (2 * t + x))
          ≡ bit_xor (if carry then bit_xor (body + 0) 0x1021 else body + 0) (2 * t + x)
    added true = rw (add-zero body) (xor_swap body (2 * t + x) 0x1021)
    added false = rw (add-zero body)

-- A value `t` of `16 - k` bits that is added before the last `k` rounds ends on top of the bits
-- that they feed in.
rounds-xor :
    (k j c t v : ℕ)
    → j + k ≡ 16
    → c < 65536
    → t < 2 ^ j
    → rounds k (bit_xor c t) v ≡ bit_xor (rounds k c 0) (t * 2 ^ k + v % 2 ^ k)
unfolding rounds
rounds-xor zero j c t v e hc ht = ap (bit_xor c) (rw (mod-one v) (omega arith))
rounds-xor (suc k) j c t v e hc ht =
    rw (no_bit, shift_in-xor c t x hc narrow (omega arith))
      (rounds-xor k (suc j) (shift_in c 0) (2 * t + x) v (omega arith)
          (shift_in-lt c 0 (omega arith)) (omega (arith, pow-suc 2 j))
        ∙ ap (bit_xor (rounds k (shift_in c 0) 0)) regroup)
  where
    x : ℕ
    x = v / 2 ^ k % 2

    no_bit : 0 / 2 ^ k % 2 ≡ 0
    no_bit = omega arith

    narrow : t < 32768
    narrow = omega (arith, pow-le-pow_right {n = 2} (omega arith) {i = j} {j = 15} (omega arith))

    regroup : (2 * t + x) * 2 ^ k + v % 2 ^ k ≡ t * 2 ^ suc k + v % 2 ^ suc k
    regroup = omega (arith, mod_top k v, ap (λ (p : ℕ). t * p) (pow-suc 2 k))

-- Feeding a word adds it to what feeding 0 gives.
pub update_crc-xor : (c v : ℕ) → c < 65536 → v < 65536 → update_crc c v ≡ bit_xor (update_crc c 0) v
update_crc-xor c v hc hv =
    update_crc-rounds c v hc
    ∙ ap (λ t. rounds 16 t v) (sym (xor-zero c))
    ∙ rounds-xor 16 0 c 0 v refl hc (omega arith)
    ∙ rw (sym (update_crc-rounds c 0 hc)) (ap (bit_xor (update_crc c 0)) (omega arith))

rounds-lt : (k c v : ℕ) → c < 65536 → rounds k c v < 65536
unfolding rounds
rounds-lt zero c v h = h
rounds-lt (suc k) c v h =
    rounds-lt k (shift_in c (v / 2 ^ k % 2)) v (shift_in-lt c (v / 2 ^ k % 2) (omega arith))

pub update_crc-lt : (c v : ℕ) → c < 65536 → update_crc c v < 65536
update_crc-lt c v h = rw (update_crc-rounds c v h) (rounds-lt 16 c v h)

-- The lowest bit of the result shows whether a 1 was shifted out, so no two states meet.
shift_in_injective :
    (a b x : ℕ) → a < 65536 → b < 65536 → x < 2 → shift_in a x ≡ shift_in b x → a ≡ b
unfolding shift_in
shift_in_injective a b x ha hb hx e = ground (
  arith,
  xor_parity (a * 2 % 65536 + x) 0x1021,
  xor_parity (b * 2 % 65536 + x) 0x1021,
  xor_injective (a * 2 % 65536 + x) (b * 2 % 65536 + x) 0x1021,
)

rounds_injective : (k a b v : ℕ) → a < 65536 → b < 65536 → rounds k a v ≡ rounds k b v → a ≡ b
unfolding rounds
rounds_injective zero a b v ha hb e = e
rounds_injective (suc k) a b v ha hb e = shift_in_injective a b x ha hb (omega arith) (
    rounds_injective k (shift_in a x) (shift_in b x) v (shift_in-lt a x (omega arith))
      (shift_in-lt b x (omega arith)) e)
  where
    x : ℕ
    x = v / 2 ^ k % 2

-- Two states stay apart under the same word.
pub update_crc_injective :
    (a b v : ℕ) → a < 65536 → b < 65536 → update_crc a v ≡ update_crc b v → a ≡ b
update_crc_injective a b v ha hb e =
    rounds_injective 16 a b v ha hb (sym (update_crc-rounds a v ha) ∙ e ∙ update_crc-rounds b v hb)
