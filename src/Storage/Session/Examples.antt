-- ===== src/Storage/Session/Examples.antt =====
-- Numbers in decimal, and a card with one session.
use asteria_firmware.Prelude.{
  ℕ, zero, suc, ◌+◌, ◌-◌, ◌*◌, ◌/◌, ◌%◌, ◌<◌, ◌≡◌, refl, ◌∙◌, ap, arith, true, false, Bool-cases,
  inl, inr, ltb, if◌then◌else◌, [], ◌∷◌, ◌++◌, none, some, All,
}
use asteria_firmware.Storage.Text.{Text, is_empty, as_bytes}
use asteria_firmware.Storage.Natural.{is_digit}
use asteria_firmware.Storage.Littlefs.{Littlefs, LfsEntry}
use asteria_firmware.Storage.Session.{
  log_dir_name_prefix, strip_prefix, parse_digits, parse_log_dir_index, scan_root,
  select_next_log_index,
}
use asteria_firmware.Storage.Session.Index.{decimal, IsItoa, select_next_log_index-fresh}

-- The digits of a number in front of some.
show_from : ℕ → ℕ → Text → Text
show_from zero n acc = acc
show_from (suc fuel) n acc =
    let more = show_from fuel (n / 10) ((0x30 + n % 10) ∷ acc) in
    if ltb n 10 then (0x30 + n) ∷ acc else more

abbrev show : ℕ → Text
show n = show_from (suc n) n []

show_from-decimal :
    (fuel n : ℕ) (acc : Text) → n < fuel → decimal 0 (show_from fuel n acc) ≡ decimal n acc
unfolding show_from decimal
show_from-decimal zero n acc h = absurd (omega arith)
show_from-decimal (suc fuel) n acc h = elim (Bool-cases (ltb n 10)) [
  | inl small ↦ rw small (ap (λ v. decimal v acc) (omega arith))
  | inr large ↦
      let last : n / 10 * 10 + (0x30 + n % 10 - 0x30) ≡ n = omega arith in
      rw large (
        show_from-decimal fuel (n / 10) ((0x30 + n % 10) ∷ acc) (ground (arith, large, h))
        ∙ ap (λ v. decimal v acc) last)
]

show_from-digits :
    (fuel n : ℕ) (acc : Text)
    → All (λ c. is_digit c ≡ true) acc
    → All (λ c. is_digit c ≡ true) (show_from fuel n acc)
unfolding show_from
show_from-digits zero n acc h = h
show_from-digits (suc fuel) n acc h = elim (Bool-cases (ltb n 10)) [
  | inl small ↦ rw small (ground (arith, small), h)
  | inr large ↦ rw large (show_from-digits fuel (n / 10) _ (ground arith, h))
]

show_from-some :
    (fuel n : ℕ) (acc : Text) → is_empty acc ≡ false → is_empty (show_from fuel n acc) ≡ false
unfolding show_from
show_from-some zero n acc h = h
show_from-some (suc fuel) n acc h = elim (Bool-cases (ltb n 10)) [
  | inl small ↦ rw small refl
  | inr large ↦ rw large (show_from-some fuel (n / 10) _ refl)
]

show-some : (n : ℕ) → is_empty (show n) ≡ false
unfolding show_from
show-some n = elim (Bool-cases (ltb n 10)) [
  | inl small ↦ rw small refl
  | inr large ↦ rw large (show_from-some n (n / 10) _ refl)
]

show-IsItoa : IsItoa show
unfolding decimal
show-IsItoa = record {
  some_digits = show-some;
  all_digits = λ n. show_from-digits (suc n) n [] tt;
  value = λ n. show_from-decimal (suc n) n [] (omega arith);
}

-- "log_6"
abbrev session_six : LfsEntry
session_six = record { is_dir = true; name = log_dir_name_prefix ++ (0x36 ∷ []) }

abbrev card : Littlefs
card = record {
  State = ℕ;
  accepts = λ p. true;
  opens_dir = λ s p. true;
  read_dir = λ s p. some (session_six ∷ []);
  opens_file = λ s p. false;
  size = λ s p. none;
  read = λ s p offset n. none;
  remove = λ s p. none;
  append = λ s p bytes. (true, s);
  has_path = λ s p. true;
  remove_dir_all = λ s p. none;
  create_dir = λ s p. none;
  write_pieces = λ s p pieces. none;
  erases = λ s. true;
}

seven_chosen : select_next_log_index card show [] 0 ≡ some 7
unfolding select_next_log_index scan_root parse_log_dir_index strip_prefix parse_digits as_bytes
seven_chosen = refl

select_next_log_index-fresh_example : ¬ (session_six.name ≡ log_dir_name_prefix ++ show 7)
select_next_log_index-fresh_example =
    select_next_log_index-fresh card show [] 0 [] [] session_six refl refl 7 show-IsItoa
      seven_chosen (omega arith)
