-- ===== src/Ms5607/Crc/Linear.antt =====
-- The checksum of the calibration memory is a linear map over exclusive or.
use asteria_firmware.Prelude.{
  ℕ, zero, suc, ◌+◌, ◌*◌, ◌/◌, ◌%◌, ◌^◌, ◌<◌, ◌≡◌, refl, sym, ap, ap₂, ◌∙◌, arith, bit_and, bit_xor,
  List, [], ◌∷◌, ◌==◌, if◌then◌else◌, Bool-cases, inl, inr, length,
}
use asteria_firmware.Bits.Xor.{
  xor-mod, xor-div, xor-zero, xor_assoc, xor_swap, xor_parity, double-xor,
}
use asteria_firmware.Bits.Fields.{test_bit, and_mask}
use asteria_firmware.Ms5607.Crc.{crc_bit, crc_bits, crc_byte, crc_word, crc_words, final_nibble}

xor_four : (a b c d : ℕ) → bit_xor (bit_xor a b) (bit_xor c d) ≡ bit_xor (bit_xor a c) (bit_xor b d)
xor_four a b c d =
    sym (xor_assoc (bit_xor a b) c d)
    ∙ ap (λ t. bit_xor t d) (xor_swap a b c)
    ∙ xor_assoc (bit_xor a c) b d

abbrev carry : ℕ → ℕ
carry top = if top == 1 then 0x3000 else 0

carry-xor : (a b : ℕ) → a < 2 → b < 2 → carry ((a + b) % 2) ≡ bit_xor (carry a) (carry b)
carry-xor zero zero h k = refl
carry-xor zero (suc zero) h k = refl
carry-xor (suc zero) zero h k = refl
carry-xor (suc zero) (suc zero) h k = refl
carry-xor (suc (suc a)) b h k = absurd (omega arith)
carry-xor a (suc (suc b)) h k = absurd (omega arith)

crc_bit-carry : (r : ℕ) → crc_bit r ≡ bit_xor (2 * (r % 2 ^ 15)) (carry (r / 2 ^ 15 % 2))
unfolding crc_bit
crc_bit-carry r =
    let twice : r * 2 % 2 ^ 16 ≡ 2 * (r % 2 ^ 15) = omega arith in
    rw (test_bit 15 r, twice)
      (elim (Bool-cases (r / 2 ^ 15 % 2 == 1)) [
        | inl set ↦ rw set refl
        | inr clear ↦ rw clear (sym (xor-zero (2 * (r % 2 ^ 15))))
      ])

crc_bit-xor : (r s : ℕ) → crc_bit (bit_xor r s) ≡ bit_xor (crc_bit r) (crc_bit s)
crc_bit-xor r s =
    rw (crc_bit-carry (bit_xor r s), crc_bit-carry r, crc_bit-carry s)
      (ap₂ bit_xor low top
        ∙ xor_four (2 * (r % 2 ^ 15)) (2 * (s % 2 ^ 15)) (carry (r / 2 ^ 15 % 2))
            (carry (s / 2 ^ 15 % 2)))
  where
    low : 2 * (bit_xor r s % 2 ^ 15) ≡ bit_xor (2 * (r % 2 ^ 15)) (2 * (s % 2 ^ 15))
    low = ap (λ t. 2 * t) (xor-mod 15 r s) ∙ sym (double-xor (r % 2 ^ 15) (s % 2 ^ 15))

    parity : bit_xor r s / 2 ^ 15 % 2 ≡ (r / 2 ^ 15 % 2 + s / 2 ^ 15 % 2) % 2
    parity = ap (λ t. t % 2) (xor-div 15 r s) ∙ xor_parity (r / 2 ^ 15) (s / 2 ^ 15) ∙ omega arith

    top :
        carry (bit_xor r s / 2 ^ 15 % 2) ≡ bit_xor (carry (r / 2 ^ 15 % 2)) (carry (s / 2 ^ 15 % 2))
    top = ap carry parity ∙ carry-xor (r / 2 ^ 15 % 2) (s / 2 ^ 15 % 2) (omega arith) (omega arith)

crc_bits-xor : (n r s : ℕ) → crc_bits n (bit_xor r s) ≡ bit_xor (crc_bits n r) (crc_bits n s)
unfolding crc_bits
crc_bits-xor zero r s = refl
crc_bits-xor (suc n) r s =
    ap (crc_bits n) (crc_bit-xor r s) ∙ crc_bits-xor n (crc_bit r) (crc_bit s)

crc_byte-xor :
    (r s a b : ℕ) → crc_byte (bit_xor r s) (bit_xor a b) ≡ bit_xor (crc_byte r a) (crc_byte s b)
unfolding crc_byte
crc_byte-xor r s a b =
    ap (crc_bits 8) (xor_four r s a b) ∙ crc_bits-xor 8 (bit_xor r a) (bit_xor s b)

and_byte-xor : (v w : ℕ) → bit_and (bit_xor v w) 0xFF ≡ bit_xor (bit_and v 0xFF) (bit_and w 0xFF)
and_byte-xor v w =
    and_mask 8 (bit_xor v w) ∙ xor-mod 8 v w ∙ sym (ap₂ bit_xor (and_mask 8 v) (and_mask 8 w))

crc_word-xor :
    (r s v w : ℕ) → crc_word (bit_xor r s) (bit_xor v w) ≡ bit_xor (crc_word r v) (crc_word s w)
unfolding crc_word
crc_word-xor r s v w =
    ap₂ crc_byte
      (ap (crc_byte (bit_xor r s)) (xor-div 8 v w) ∙ crc_byte-xor r s (v / 2 ^ 8) (w / 2 ^ 8))
      (and_byte-xor v w)
    ∙ crc_byte-xor (crc_byte r (v / 2 ^ 8)) (crc_byte s (w / 2 ^ 8)) (bit_and v 0xFF)
        (bit_and w 0xFF)

-- The words with an error in each.
abbrev pub xor_words : List ℕ → List ℕ → List ℕ
xor_words [] es = []
xor_words (v ∷ vs) [] = v ∷ vs
xor_words (v ∷ vs) (e ∷ es) = bit_xor v e ∷ xor_words vs es

pub crc_words-xor :
    (r s : ℕ) (vs es : List ℕ)
    → length vs ≡ length es
    → crc_words (bit_xor r s) (xor_words vs es) ≡ bit_xor (crc_words r vs) (crc_words s es)
unfolding crc_words
crc_words-xor r s [] [] h = refl
crc_words-xor r s [] (e ∷ es) h = absurd (omega arith)
crc_words-xor r s (v ∷ vs) [] h = absurd (omega arith)
crc_words-xor r s (v ∷ vs) (e ∷ es) h =
    ap (λ t. crc_words t (xor_words vs es)) (crc_word-xor r s v e)
    ∙ crc_words-xor (crc_word r v) (crc_word s e) vs es (omega arith)

pub final_nibble-xor :
    (r s : ℕ) → final_nibble (bit_xor r s) ≡ bit_xor (final_nibble r) (final_nibble s)
unfolding final_nibble
final_nibble-xor r s =
    and_mask 4 (bit_xor r s / 2 ^ 12)
    ∙ ap (λ t. t % 2 ^ 4) (xor-div 12 r s)
    ∙ xor-mod 4 (r / 2 ^ 12) (s / 2 ^ 12)
    ∙ sym (ap₂ bit_xor (and_mask 4 (r / 2 ^ 12)) (and_mask 4 (s / 2 ^ 12)))
