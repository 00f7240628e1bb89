-- ===== src/Epos4/Crc/Detect.antt =====
-- What the CRC accepts and what it detects.
use asteria_firmware.Prelude.{
  ℕ, ◌<◌, bit_xor, ◌≡◌, ◌≢◌, ◌↔◌, refl, sym, ◌∙◌, arith, true, false, List, [], ◌∷◌, ◌++◌, ◌==◌,
  Bool-cases, inl, inr,
}
use asteria_firmware.Bits.Xor.{xor_self, xor_comm, xor_injective}
use asteria_firmware.Epos4.Crc.{update_crc, update_all, calculate_crc, check_crc}
use asteria_firmware.Epos4.Crc.Linear.{update_crc-xor, update_crc-lt, update_crc_injective}

pub update_all-append :
    (c : ℕ) (xs ys : List ℕ) → update_all c (xs ++ ys) ≡ update_all (update_all c xs) ys
unfolding update_all
update_all-append c [] ys = refl
update_all-append c (x ∷ xs) ys = update_all-append (update_crc c x) xs ys

pub update_all-lt : (c : ℕ) (xs : List ℕ) → c < 65536 → update_all c xs < 65536
unfolding update_all
update_all-lt c [] h = h
update_all-lt c (x ∷ xs) h = update_all-lt (update_crc c x) xs (update_crc-lt c x h)

-- Two states that differ stay different under the same words.
update_all_injective :
    (a b : ℕ) (xs : List ℕ) → a < 65536 → b < 65536 → update_all a xs ≡ update_all b xs → a ≡ b
unfolding update_all
update_all_injective a b [] ha hb e = e
update_all_injective a b (x ∷ xs) ha hb e = update_crc_injective a b x ha hb (
    update_all_injective (update_crc a x) (update_crc b x) xs (update_crc-lt a x ha)
      (update_crc-lt b x hb) e)

-- The words that a response's CRC covers, in the order in which they arrive, and the CRC.
abbrev pub covered : ℕ → List ℕ → List ℕ → ℕ → List ℕ
covered header error_code words target = header ∷ (error_code ++ (words ++ target ∷ []))

check_crc-covered :
    (header : ℕ) (error_code words : List ℕ) (target : ℕ)
    → check_crc header error_code words target
      ≡ (update_all 0 (covered header error_code words target) == 0)
unfolding check_crc update_all
check_crc-covered header error_code words target = rw (
  update_all-append (update_crc 0 header) error_code (words ++ target ∷ []),
  update_all-append (update_all (update_crc 0 header) error_code) words (target ∷ []),
)

xor_eq_zero : (a b : ℕ) → bit_xor a b ≡ 0 → a ≡ b
xor_eq_zero a b e = xor_injective a b b (e ∙ sym (xor_self b))

-- A response passes the check exactly when its last word is the CRC that `calculate_crc` gives for
-- its header, error code and data, whatever these are.
pub check_crc-calculate_crc :
    (header : ℕ) (error_code words : List ℕ) (target : ℕ)
    → target < 65536
    → (check_crc header error_code words target ≡ true)
      ↔ (target ≡ calculate_crc header (error_code ++ words))
unfolding check_crc calculate_crc
check_crc-calculate_crc header error_code words target h =
    rw (update_all-append (update_crc 0 header) error_code words)
      (only (update_all before words) ok)
  where
    before : ℕ
    before = update_all (update_crc 0 header) error_code

    ok : update_all before words < 65536
    ok =
        update_all-lt before words
          (update_all-lt (update_crc 0 header) error_code (update_crc-lt 0 header (omega arith)))

    only : (c : ℕ) → c < 65536 → ((update_crc c target == 0) ≡ true) ↔ (target ≡ update_crc c 0)
    only c hc =
        ground (
          arith,
          update_crc-xor c target hc h,
          xor_eq_zero (update_crc c 0) target,
          xor_self target,
        )

word_injective :
    (pre post : List ℕ) (x y : ℕ)
    → x < 65536
    → y < 65536
    → update_all 0 (pre ++ x ∷ post) ≡ update_all 0 (pre ++ y ∷ post)
    → x ≡ y
unfolding update_all
word_injective pre post x y hx hy e = xor_injective x y base (
    xor_comm x base
    ∙ sym (update_crc-xor c x hc hx)
    ∙ same
    ∙ update_crc-xor c y hc hy
    ∙ xor_comm base y)
  where
    c : ℕ
    c = update_all 0 pre

    base : ℕ
    base = update_crc c 0

    hc : c < 65536
    hc = update_all-lt 0 pre (omega arith)

    same : update_crc c x ≡ update_crc c y
    same =
        update_all_injective (update_crc c x) (update_crc c y) post (update_crc-lt c x hc)
          (update_crc-lt c y hc)
          (sym (update_all-append 0 pre (x ∷ post)) ∙ e ∙ update_all-append 0 pre (y ∷ post))

zero_of_test : (n : ℕ) → (n == 0) ≡ true → n ≡ 0
zero_of_test n h = ground arith

-- An error that is confined to one 16-bit word of a response, be it the header, the error code, the
-- data or the CRC, is always detected.
pub check_crc_detects :
    (pre post : List ℕ) (x y : ℕ) (header header' : ℕ) (error_code error_code' : List ℕ)
    (words words' : List ℕ) (target target' : ℕ)
    → covered header error_code words target ≡ pre ++ x ∷ post
    → covered header' error_code' words' target' ≡ pre ++ y ∷ post
    → x < 65536
    → y < 65536
    → x ≢ y
    → check_crc header error_code words target ≡ true
    → check_crc header' error_code' words' target' ≡ false
check_crc_detects pre post x y header header' error_code error_code' words words' target target'
      sent received hx hy ne accepted =
    elim (Bool-cases (check_crc header' error_code' words' target')) [
      | inr rejected ↦ rejected
      | inl passed ↦ absurd (ne (word_injective pre post x y hx hy (first ∙ sym (second passed))))
    ]
  where
    first : update_all 0 (pre ++ x ∷ post) ≡ 0
    first =
        zero_of_test _
          (rw (← sent) (sym (check_crc-covered header error_code words target) ∙ accepted))

    second :
        check_crc header' error_code' words' target' ≡ true → update_all 0 (pre ++ y ∷ post) ≡ 0
    second passed =
        zero_of_test _
          (rw (← received) (sym (check_crc-covered header' error_code' words' target') ∙ passed))

pub calculate_crc-lt : (header : ℕ) (words : List ℕ) → calculate_crc header words < 65536
unfolding calculate_crc
calculate_crc-lt header words =
    update_crc-lt (update_all (update_crc 0 header) words) 0
      (update_all-lt (update_crc 0 header) words (update_crc-lt 0 header (omega arith)))
