-- ===== src/Storage/Session/Index.antt =====
-- The index of a session is new.
use mathlib.Core.Option.{some-injective}
use asteria_firmware.Prelude.{
  ℕ, ◌+◌, ◌-◌, ◌*◌, ◌^◌, ◌≤◌, ◌<◌, ◌≡◌, ◌⊎◌, refl, sym, ◌∙◌, ap, arith, true, false, List, [], ◌∷◌,
  ◌++◌, Option, none, some, All, Bool-cases, inl, inr, ltb, leb, if◌then◌else◌,
}
use asteria_firmware.Storage.Text.{Text, root, is_empty, as_bytes}
use asteria_firmware.Storage.Natural.{is_digit}
use asteria_firmware.Storage.Littlefs.{Littlefs, LfsEntry}
use asteria_firmware.Storage.Device.{u32_max}
use asteria_firmware.Storage.Session.{
  log_dir_name_prefix, strip_prefix, parse_digits, parse_log_dir_index, parse_suffix, larger,
  scan_root, next_index, select_next_log_index,
}

-- The number that decimal digits stand for, behind those read.
unfoldable pub decimal : ℕ → Text → ℕ
decimal v [] = v
decimal v (c ∷ t) = decimal (v * 10 + (c - 0x30)) t

-- What the library that writes numbers is documented to do.
pub record IsItoa (itoa : ℕ → Text) : Type 0 where
  pub some_digits : (n : ℕ) → is_empty (itoa n) ≡ false
  pub all_digits : (n : ℕ) → All (λ c. is_digit c ≡ true) (itoa n)
  pub value : (n : ℕ) → decimal 0 (itoa n) ≡ n

decimal-grows : (v : ℕ) (t : Text) → v ≤ decimal v t
unfolding decimal
decimal-grows v [] = omega arith
decimal-grows v (c ∷ t) = omega (arith, decimal-grows (v * 10 + (c - 0x30)) t)

parse_digits-decimal :
    (v : ℕ) (t : Text)
    → All (λ c. is_digit c ≡ true) t
    → decimal v t < 2 ^ 32
    → parse_digits v (as_bytes t) ≡ some (decimal v t)
unfolding parse_digits decimal as_bytes
parse_digits-decimal v [] h p = refl
parse_digits-decimal v (c ∷ t) h p =
    let grows = decimal-grows (v * 10 + (c - 0x30)) t in
    let ascii : ltb c 0x80 ≡ true = ground (arith, h.0) in
    let tens : leb (2 ^ 32) (v * 10) ≡ false = ground (arith, grows, p) in
    let fits : leb (2 ^ 32) (v * 10 + (c - 0x30)) ≡ false = ground (arith, grows, p) in
    rw (ascii, h.0, tens, fits) (parse_digits-decimal (v * 10 + (c - 0x30)) t h.1 p)

-- The name of a session directory has the index that it was made of, for a library that writes
-- numbers in decimal and an index of 32 bits.
parse_log_dir_index-itoa :
    (itoa : ℕ → Text) (n : ℕ)
    → IsItoa itoa
    → n < 2 ^ 32
    → parse_log_dir_index (log_dir_name_prefix ++ itoa n) ≡ some n
unfolding parse_log_dir_index strip_prefix
parse_log_dir_index-itoa itoa n laws h =
    suffix (itoa n) (laws.some_digits n)
    ∙ parse_digits-decimal 0 (itoa n) (laws.all_digits n) (omega (arith, laws.value n, h))
    ∙ ap some (laws.value n)
  where
    suffix : (t : Text) → is_empty t ≡ false → parse_suffix (some t) ≡ parse_digits 0 (as_bytes t)
    suffix [] p = ground (arith, p)
    suffix (c ∷ t) p = refl

-- The largest index so far is not below an index.
abbrev Covers : Option ℕ → ℕ → Type 0
Covers none i = ⊥
Covers (some m) i = i ≤ m

larger-Covers : (m index : Option ℕ) (i : ℕ) → Covers m i → Covers (larger m index) i
larger-Covers none index i h = absurd h
larger-Covers (some n) none i h = h
larger-Covers (some n) (some k) i h = omega arith

scan_root-Covers :
    (m : Option ℕ) (es : List LfsEntry) (i : ℕ) → Covers m i → Covers (scan_root m es) i
unfolding scan_root
scan_root-Covers m [] i h = h
scan_root-Covers m (e ∷ es) i h =
    scan_root-Covers (if e.is_dir then larger m (parse_log_dir_index e.name) else m) es i
      (elim (Bool-cases e.is_dir) [
        | inl folder ↦ rw folder (larger-Covers m (parse_log_dir_index e.name) i h)
        | inr other ↦ rw other h
      ])

larger-of : (m : Option ℕ) (i : ℕ) → Covers (larger m (some i)) i
larger-of none i = omega arith
larger-of (some n) i = omega arith

-- An index in the root directory is covered by the scan.
scan_root-among :
    (m : Option ℕ) (before after : List LfsEntry) (e : LfsEntry) (i : ℕ)
    → e.is_dir ≡ true
    → parse_log_dir_index e.name ≡ some i
    → Covers (scan_root m (before ++ (e ∷ after))) i
unfolding scan_root
scan_root-among m [] after e i folder named =
    rw (folder, named) (scan_root-Covers (larger m (some i)) after i (larger-of m i))
scan_root-among m (b ∷ before) after e i folder named =
    scan_root-among (if b.is_dir then larger m (parse_log_dir_index b.name) else m) before after e i
      folder named

next_index-above :
    (m : Option ℕ) (i : ℕ) → Covers m i → i < 2 ^ 32 → (i < next_index m) ⊎ (i ≡ u32_max)
next_index-above none i h small = absurd h
next_index-above (some m) i h small = elim (Bool-cases (leb u32_max i)) [
  | inl top ↦ inr (ground (arith, top, small))
  | inr below ↦ inl (ground (arith, below, h))
]

module _ (l : Littlefs) (itoa : ℕ → Text) (build_info : List (List ℕ)) (s : l.State)
    (before after : List LfsEntry) (e : LfsEntry)
    (listed : l.read_dir s root ≡ some (before ++ (e ∷ after))) (folder : e.is_dir ≡ true) where
  -- The index of a new session is above that of every session directory in the root, but for one that
  -- has the largest index there is.
  pub select_next_log_index-above :
      (i : ℕ)
      → parse_log_dir_index e.name ≡ some i
      → i < 2 ^ 32
      → (index : ℕ) × ((select_next_log_index l itoa build_info s ≡ some index)
          × ((i < index) ⊎ (i ≡ u32_max)))
  unfolding select_next_log_index
  select_next_log_index-above i named small = (
    next_index (scan_root none (before ++ (e ∷ after))),
    (
      rw listed refl,
      next_index-above _ i (scan_root-among none before after e i folder named) small,
    ),
  )

  -- The new session directory has the name of no directory in the root, if the library writes numbers
  -- in decimal and the index is below the largest there is.
  pub select_next_log_index-fresh :
      (index : ℕ)
      → IsItoa itoa
      → select_next_log_index l itoa build_info s ≡ some index
      → index < u32_max
      → ¬ (e.name ≡ log_dir_name_prefix ++ itoa index)
  select_next_log_index-fresh index laws chosen small same =
      let above =
        select_next_log_index-above index
          (rw same (parse_log_dir_index-itoa itoa index laws (omega (arith, small))))
          (omega (arith, small)) in
      let equal : above.0 ≡ index = some-injective _ _ (sym above.1.0 ∙ chosen) in
      elim above.1.1 [ inl more ↦ omega (arith, more, equal) | inr top ↦ omega (arith, top, small) ]
