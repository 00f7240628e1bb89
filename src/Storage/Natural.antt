-- ===== src/Storage/Natural.antt =====
-- The natural order of names (tools/asteria-tool/src/ops.rs), on bytes.
pub mod Flip
pub mod Decimal
pub mod Numbered
mod Examples
use Prim.Native.Nat.{Ordering, compare}
use asteria_firmware.Prelude.{
  ℕ, zero, suc, ◌+◌, Bool, List, [], ◌∷◌, ◌&&◌, leb, ◌==◌, if◌then◌else◌, length,
}
use asteria_firmware.Storage.Text.{Text, as_bytes}

-- `is_ascii_digit` and `to_ascii_lowercase`.
abbrev pub is_digit : ℕ → Bool
is_digit b = leb 0x30 b && leb b 0x39

abbrev pub to_lower : ℕ → ℕ
to_lower b = if leb 0x41 b && leb b 0x5A then b + 32 else b

-- The run of digits at the front, and what stands behind it.
unfoldable pub digits : List ℕ → List ℕ
digits [] = []
digits (b ∷ bs) = if is_digit b then b ∷ digits bs else []

unfoldable pub after_digits : List ℕ → List ℕ
after_digits [] = []
after_digits (b ∷ bs) = if is_digit b then after_digits bs else b ∷ bs

unfoldable pub skip_zeros : List ℕ → List ℕ
skip_zeros [] = []
skip_zeros (b ∷ bs) = if b == 0x30 then skip_zeros bs else b ∷ bs

-- A comparison that is decided, or goes on.
abbrev pub or_else : Ordering → Ordering → Ordering
or_else Ordering.lt rest = Ordering.lt
or_else Ordering.gt rest = Ordering.gt
or_else Ordering.eq rest = rest

-- The comparison of byte slices.
unfoldable pub slice_cmp : List ℕ → List ℕ → Ordering
slice_cmp [] [] = Ordering.eq
slice_cmp [] (b ∷ bs) = Ordering.lt
slice_cmp (a ∷ xs) [] = Ordering.gt
slice_cmp (a ∷ xs) (b ∷ bs) = or_else (compare a b) (slice_cmp xs bs)

-- Two runs of digits: by the length without leading zeros, by these digits, by the whole length.
unfoldable pub digits_cmp : List ℕ → List ℕ → Ordering
digits_cmp da db =
    or_else (compare (length (skip_zeros da)) (length (skip_zeros db)))
      (or_else (slice_cmp (skip_zeros da) (skip_zeros db)) (compare (length da) (length db)))

-- The loop, with what is left of both names; a round takes a byte of each, so the length of the first
-- is enough fuel. `at_end` is the comparison of the whole lengths.
unfoldable pub cmp_loop : ℕ → Ordering → List ℕ → List ℕ → Ordering
cmp_loop zero at_end xs bs = at_end
cmp_loop (suc fuel) at_end [] bs = at_end
cmp_loop (suc fuel) at_end (a ∷ xs) [] = at_end
cmp_loop (suc fuel) at_end (a ∷ xs) (b ∷ bs) =
    let runs = cmp_loop fuel at_end (after_digits (a ∷ xs)) (after_digits (b ∷ bs)) in
    let letters = cmp_loop fuel at_end xs bs in
    if is_digit a && is_digit b
    then or_else (digits_cmp (digits (a ∷ xs)) (digits (b ∷ bs))) runs
    else or_else (compare (to_lower a) (to_lower b)) letters

unfoldable pub bytes_cmp : List ℕ → List ℕ → Ordering
bytes_cmp xs bs = cmp_loop (length xs) (compare (length xs) (length bs)) xs bs

unfoldable pub natural_cmp_ascii : Text → Text → Ordering
natural_cmp_ascii a b = bytes_cmp (as_bytes a) (as_bytes b)
