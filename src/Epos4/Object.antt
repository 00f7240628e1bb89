-- ===== src/Epos4/Object.antt =====
-- Object dictionary accesses: `write_object` and `read_object`.
pub mod Access
use asteria_firmware.Prelude.{ℕ, ◌+◌, ◌*◌, ◌/◌, ◌%◌, ◌^◌, bit_and, bit_or, List, [], ◌∷◌, get_or}
use asteria_firmware.Epos4.Link.{Epos4, M, ◌>>=◌, ◌>>◌, pure}
use asteria_firmware.Epos4.Frame.{send_request_frame, read_response_frame}

-- `[node_id | (index << 8), (index >> 8) | (subindex << 8)]`, in 16-bit arithmetic.
unfoldable pub address_words : ℕ → ℕ → ℕ → List ℕ
address_words node_id index subindex =
    bit_or node_id (index * 2 ^ 8 % 2 ^ 16)
    ∷ bit_or (index / 2 ^ 8) (subindex * 2 ^ 8 % 2 ^ 16)
    ∷ []

unfoldable pub write_words : ℕ → ℕ → ℕ → ℕ → List ℕ
write_words node_id index subindex value =
    bit_or node_id (index * 2 ^ 8 % 2 ^ 16)
    ∷ bit_or (index / 2 ^ 8) (subindex * 2 ^ 8 % 2 ^ 16)
    ∷ (bit_and value 0xFFFF % 2 ^ 16)
    ∷ (value / 2 ^ 16 % 2 ^ 16)
    ∷ []

module _ {E : Type 0} where
  pub write_object : ℕ → ℕ → ℕ → M E (Unit {0})
  write_object index subindex value d =
      (do
        send_request_frame 0x68 (write_words d.node_id index subindex value)
        _ ← read_response_frame 0
        pure tt)
        d

  -- The response is an array of two words.
  pub read_object : ℕ → ℕ → M E ℕ
  read_object index subindex d =
      (do
        send_request_frame 0x60 (address_words d.node_id index subindex)
        response ← read_response_frame 2
        pure (bit_or (get_or response 0 0) (get_or response 1 0 * 2 ^ 16 % 2 ^ 32)))
        d
