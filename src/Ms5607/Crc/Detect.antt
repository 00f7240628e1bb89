-- ===== src/Ms5607/Crc/Detect.antt =====
-- What the checksum of the calibration memory detects.
use asteria_firmware.Prelude.{
  ℕ, zero, suc, ◌+◌, ◌*◌, ◌^◌, ◌<◌, ◌≡◌, refl, sym, ap, ap₂, ◌∙◌, arith, bit_and, bit_xor, Bool,
  true, false, ◌&&◌, List, [], ◌∷◌, ◌==◌, ◌!=◌, Bool-cases, inl, inr, length,
}
use asteria_firmware.Bits.Xor.{xor-zero, zero-xor, xor_injective, xor_comm}
use asteria_firmware.Ms5607.Prom.{Prom, update_word}
use asteria_firmware.Ms5607.Crc.{
  crc_bit, crc_bits, crc_byte, crc_word, crc_words, covered, final_nibble, calculate_crc4,
  check_crc4,
}
use asteria_firmware.Ms5607.Crc.Linear.{xor_words, crc_words-xor, final_nibble-xor}

abbrev modify : ℕ → (ℕ → ℕ) → List ℕ → List ℕ
modify i f [] = []
modify zero f (v ∷ vs) = f v ∷ vs
modify (suc i) f (v ∷ vs) = v ∷ modify i f vs

-- So many words that are 0 but for one.
abbrev zeros : ℕ → List ℕ
zeros zero = []
zeros (suc n) = 0 ∷ zeros n

abbrev lone : ℕ → ℕ → ℕ → List ℕ
lone zero i x = []
lone (suc n) zero x = x ∷ zeros n
lone (suc n) (suc i) x = 0 ∷ lone n i x

covered-update_word :
    (i : ℕ) (f : ℕ → ℕ) (p : Prom) → i < 7 → covered (update_word i f p) ≡ modify i f (covered p)
covered-update_word zero f p h = refl
covered-update_word (suc zero) f p h = refl
covered-update_word (suc (suc zero)) f p h = refl
covered-update_word (suc (suc (suc zero))) f p h = refl
covered-update_word (suc (suc (suc (suc zero)))) f p h = refl
covered-update_word (suc (suc (suc (suc (suc zero))))) f p h = refl
covered-update_word (suc (suc (suc (suc (suc (suc zero)))))) f p h = refl
covered-update_word (suc (suc (suc (suc (suc (suc (suc i))))))) f p h = absurd (omega arith)

xor_words-zeros : (vs : List ℕ) (n : ℕ) → xor_words vs (zeros n) ≡ vs
xor_words-zeros [] n = refl
xor_words-zeros (v ∷ vs) zero = refl
xor_words-zeros (v ∷ vs) (suc n) = ap₂ (λ u us. u ∷ us) (xor-zero v) (xor_words-zeros vs n)

modify-lone :
    (n i x : ℕ) (vs : List ℕ)
    → length vs ≡ n
    → modify i (λ v. bit_xor v x) vs ≡ xor_words vs (lone n i x)
modify-lone n i x [] h = refl
modify-lone zero i x (v ∷ vs) h = absurd (omega arith)
modify-lone (suc n) zero x (v ∷ vs) h = ap (λ us. bit_xor v x ∷ us) (sym (xor_words-zeros vs n))
modify-lone (suc n) (suc i) x (v ∷ vs) h =
    ap₂ (λ u us. u ∷ us) (sym (xor-zero v)) (modify-lone n i x vs (omega arith))

length-zeros : (n : ℕ) → length (zeros n) ≡ n
length-zeros zero = refl
length-zeros (suc n) = omega (arith, length-zeros n)

length-lone : (n i x : ℕ) → length (lone n i x) ≡ n
length-lone zero i x = refl
length-lone (suc n) zero x = omega (arith, length-zeros n)
length-lone (suc n) (suc i) x = omega (arith, length-lone n i x)

-- The checksum of an error alone.
syndrome : ℕ → ℕ → ℕ
syndrome i x = final_nibble (crc_words 0 (lone 8 i x))

calculate_crc4-flipped :
    (p : Prom) (i x : ℕ)
    → i < 7
    → calculate_crc4 (update_word i (λ w. bit_xor w x) p)
      ≡ bit_xor (calculate_crc4 p) (syndrome i x)
unfolding calculate_crc4 syndrome
calculate_crc4-flipped p i x h =
    ap (λ ws. final_nibble (crc_words 0 ws))
      (covered-update_word i (λ w. bit_xor w x) p h ∙ modify-lone 8 i x (covered p) refl)
    ∙ ap final_nibble (crc_words-xor 0 0 (covered p) (lone 8 i x) (sym (length-lone 8 i x)))
    ∙ final_nibble-xor (crc_words 0 (covered p)) (crc_words 0 (lone 8 i x))

-- A test of all numbers below a bound.
all_below : ℕ → (ℕ → Bool) → Bool
all_below zero f = true
all_below (suc n) f = f n && all_below n f

all_below-at : (n i : ℕ) (f : ℕ → Bool) → all_below n f ≡ true → i < n → f i ≡ true
unfolding all_below
all_below-at zero i f h k = absurd (omega arith)
all_below-at (suc n) i f h k = elim (Bool-cases (i == n)) [
  | inl here ↦ let same : i ≡ n = ground (arith, here) in rw same (ground (arith, h))
  | inr below ↦ all_below-at n i f (ground (arith, h)) (ground (arith, below, k))
]

abbrev burst_seen : ℕ → ℕ → ℕ → Bool
burst_seen i k y = syndrome i ((y + 1) * 2 ^ k) != 0

bursts_seen : all_below 7 (λ i. all_below 13 (λ k. all_below 15 (λ y. burst_seen i k y))) ≡ true
unfolding all_below syndrome final_nibble crc_words crc_word crc_byte crc_bits crc_bit
bursts_seen = refl

syndrome_ne : (i k y : ℕ) → i < 7 → k < 13 → y < 15 → (syndrome i ((y + 1) * 2 ^ k) != 0) ≡ true
syndrome_ne i k y hi hk hy =
    all_below-at 15 y (λ z. burst_seen i k z)
      (all_below-at 13 k (λ m. all_below 15 (λ z. burst_seen i m z))
        (all_below-at 7 i (λ j. all_below 13 (λ m. all_below 15 (λ z. burst_seen j m z)))
          bursts_seen hi)
        hk)
      hy

last_word : (i : ℕ) (f : ℕ → ℕ) (p : Prom) → i < 7 → (update_word i f p).c7 ≡ p.c7
last_word zero f p h = refl
last_word (suc zero) f p h = refl
last_word (suc (suc zero)) f p h = refl
last_word (suc (suc (suc zero))) f p h = refl
last_word (suc (suc (suc (suc zero)))) f p h = refl
last_word (suc (suc (suc (suc (suc zero))))) f p h = refl
last_word (suc (suc (suc (suc (suc (suc zero)))))) f p h = refl
last_word (suc (suc (suc (suc (suc (suc (suc i))))))) f p h = absurd (omega arith)

xor_fixed : (a s : ℕ) → bit_xor a s ≡ a → s ≡ 0
xor_fixed a s e = xor_injective s 0 a (xor_comm s a ∙ e ∙ sym (zero-xor a))

differs : (a s : ℕ) → (s != 0) ≡ true → (bit_xor a s == a) ≡ false
differs a s h = elim (Bool-cases (bit_xor a s == a)) [
  | inr other ↦ other
  | inl same ↦
      let none_left = xor_fixed a s (ground (arith, same)) in absurd (ground (arith, none_left, h))
]

-- If the calibration memory passes the check, then with up to four adjacent bits of one of the words
-- before the last changed, at least one of them, it does not pass: `y + 1` is the pattern of the
-- changed bits and `k` the lowest place.
pub check_crc4_detects :
    (p : Prom) (i k y : ℕ)
    → i < 7
    → k < 13
    → y < 15
    → check_crc4 p ≡ true
    → check_crc4 (update_word i (λ w. bit_xor w ((y + 1) * 2 ^ k)) p) ≡ false
unfolding check_crc4
check_crc4_detects p i k y hi hk hy passed =
    let stored : bit_and p.c7 0xF ≡ calculate_crc4 p = ground (arith, passed) in
    rw
      (
        last_word i (λ w. bit_xor w ((y + 1) * 2 ^ k)) p hi,
        calculate_crc4-flipped p i ((y + 1) * 2 ^ k) hi,
        stored,
      )
      (differs (calculate_crc4 p) (syndrome i ((y + 1) * 2 ^ k)) (syndrome_ne i k y hi hk hy))
