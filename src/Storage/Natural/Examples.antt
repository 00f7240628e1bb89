-- ===== src/Storage/Natural/Examples.antt =====
-- The names "log_9" and "log_10".
use Prim.Native.Nat.{Ordering}
use asteria_firmware.Prelude.{arith, [], ◌∷◌, ◌++◌, ◌≡◌}
use asteria_firmware.Storage.Text.{Text}
use asteria_firmware.Storage.Natural.{natural_cmp_ascii}
use asteria_firmware.Storage.Natural.Numbered.{natural_cmp_ascii-numbered}

abbrev log_dash : Text
log_dash = 0x6C ∷ 0x6F ∷ 0x67 ∷ 0x5F ∷ []

abbrev log_nine : Text
log_nine = log_dash ++ (0x39 ∷ [])

abbrev log_ten : Text
log_ten = log_dash ++ (0x31 ∷ 0x30 ∷ [])

natural_cmp_ascii-numbered_example :
    (natural_cmp_ascii log_nine log_ten ≡ Ordering.lt)
    × (natural_cmp_ascii log_ten log_nine ≡ Ordering.gt)
natural_cmp_ascii-numbered_example =
    natural_cmp_ascii-numbered log_dash (0x39 ∷ []) (0x31 ∷ 0x30 ∷ []) [] [] (omega arith)
      (omega arith) (omega arith) tt tt (omega arith) (omega arith)
