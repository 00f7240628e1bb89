-- ===== src/Storage/Remote/File.antt =====
-- Reading a file of the device from the host.
use Prim.Native.Nat.{min, max}
use asteria_firmware.Prelude.{
  ℕ, zero, suc, ◌+◌, ◌-◌, ◌%◌, ◌^◌, ◌≤◌, ◌<◌, ◌≡◌, refl, sym, ◌∙◌, ap, arith, true, false, List, [],
  ◌∷◌, ◌++◌, none, some, Bool-cases, inl, inr, ltb, leb, ◌==◌, ◌!=◌, length, take, drop,
  length-take, length-drop,
}
use asteria_firmware.Storage.Text.{Text, is_empty, byte_len}
use asteria_firmware.Storage.Wire.{fs_path_cap}
use asteria_firmware.Storage.Path.{fine, normalize_req_path}
use asteria_firmware.Storage.Littlefs.{Littlefs, HoldsFile}
use asteria_firmware.Storage.Device.{
  Device, u32_max, epoch_matches, to_read, handle_fs_info, handle_read_file, read_sized, chunk_resp,
  handle_stat, stat_size, file_size_bytes, serve_read, serve_stat,
}
use asteria_firmware.Storage.Host.{
  Outcome, done, awaited, bind_outcome, read_chunk, read_rest, read_file, read_file_bytes, fs_info,
  stat_path,
}
use asteria_firmware.Storage.Remote.{host_client}

take-nil : {A : Type 0} (k : ℕ) → take {A = A} k [] ≡ []
take-nil zero = refl
take-nil (suc k) = refl

pub take-add :
    {A : Type 0} (a k : ℕ) (xs : List A) → take (a + k) xs ≡ take a xs ++ take k (drop a xs)
take-add zero k xs = let e : 0 + k ≡ k = omega arith in rw e refl
take-add {A} (suc a) k [] = take-nil (suc a + k) ∙ sym (take-nil k)
take-add (suc a) k (x ∷ xs) =
    let e : suc a + k ≡ suc (a + k) = omega arith in rw e (ap (λ ys. x ∷ ys) (take-add a k xs))

pub take-all : {A : Type 0} (xs : List A) → take (length xs) xs ≡ xs
take-all [] = refl
take-all (x ∷ xs) = ap (λ ys. x ∷ ys) (take-all xs)

module _ (l : Littlefs) (d : Device l) (s : l.State) (path p : Text) (content : List ℕ)
    (ready : d.fs ≡ some s) (named : is_empty path ≡ false) (short : byte_len path ≤ fs_path_cap)
    (normal : normalize_req_path path ≡ fine p) (held : HoldsFile l s p content)
    (small : length content < 2 ^ 32) where
  abbrev chunk_at : ℕ → ℕ → List ℕ
  chunk_at offset k = take k (drop offset content)

  length-chunk_at : (offset k : ℕ) → k ≤ length content - offset → length (chunk_at offset k) ≡ k
  length-chunk_at offset k h =
      omega (arith, length-take k (drop offset content), length-drop offset content)

  -- The chunk that the device sends.
  served :
      (offset len : ℕ)
      → offset < length content
      → 1 ≤ len
      → len ≤ 512
      → len ≤ length content - offset
      → serve_read l d.fs d.epoch
          (record { path = path; offset = offset; len = len; expected_epoch = none })
        ≡ chunk_resp l d.epoch offset (length content) len (some (chunk_at offset len))
  unfolding serve_read handle_read_file epoch_matches file_size_bytes read_sized
  served offset len below pos most rest =
      rw
        (
          ready,
          normal,
          held.path_accepted,
          held.not_a_dir,
          held.sized,
          sized,
          in_range,
          whole,
          some_data,
          held.reads offset len (omega arith),
        )
        refl
    where
      n : ℕ
      n = length content

      sized : min n u32_max ≡ n
      sized = omega arith

      in_range : ltb n offset ≡ false
      in_range = ground arith

      whole : to_read l n offset len ≡ len
      whole = ground arith

      some_data : (len == 0) ≡ false
      some_data = ground arith

  took :
      (again : ℕ → List ℕ → Device l → Outcome (Device l) (List ℕ)) (offset len : ℕ) (out : List ℕ)
      → 1 ≤ len
      → len ≤ 512
      → len ≤ length content - offset
      → read_chunk
          (host_client l)
          again
          (length content)
          offset
          out
          (chunk_resp l d.epoch offset (length content) len (some (chunk_at offset len)))
          d
        ≡ again (offset + len) (out ++ chunk_at offset len) d
  unfolding read_chunk chunk_resp
  took again offset len out pos most rest =
      rw (on_time, length-chunk_at offset len rest, some_data, wrapped, fits, within) refl
    where
      on_time : (offset != offset) ≡ false
      on_time = ground arith

      some_data : (len == 0) ≡ false
      some_data = ground arith

      wrapped : len % 2 ^ 32 ≡ len
      wrapped = omega arith

      fits : leb (2 ^ 32) (offset + len) ≡ false
      fits = ground (arith, small)

      within : ltb (length content) (offset + len) ≡ false
      within = ground arith

  asked :
      (offset len : ℕ)
      → offset < length content
      → 1 ≤ len
      → len ≤ 512
      → len ≤ length content - offset
      → (host_client l).fs_read_file_chunk d
          (record { path = path; offset = offset; len = len; expected_epoch = none })
        ≡ (some (chunk_resp l d.epoch offset (length content) len (some (chunk_at offset len))), d)
  asked offset len below pos most rest =
      rw (named, fits) (ap (λ r. (some r, d)) (served offset len below pos most rest))
    where
      fits : leb (byte_len path) fs_path_cap ≡ true
      fits = ground (arith, short)

  -- One round, with the rounds behind it.
  round-content :
      (again : ℕ → List ℕ → Device l → Outcome (Device l) (List ℕ)) (offset : ℕ)
      → offset < length content
      → ((len : ℕ)
          → 1 ≤ len
          → len ≤ length content - offset
          → again (offset + len) (take (offset + len) content) d ≡ done content d)
      → bind_outcome
          (awaited (
            (host_client l).fs_read_file_chunk d (record {
              path = path;
              offset = offset;
              len = max (min 512 (length content - offset) % 2 ^ 16) 1;
              expected_epoch = none;
            })))
          (read_chunk (host_client l) again (length content) offset (take offset content))
        ≡ done content d
  round-content again offset below rest =
      let len = min 512 (length content - offset) in
      let same : max (min 512 (length content - offset) % 2 ^ 16) 1 ≡ len = omega arith in
      rw (same, asked offset len below (omega arith) (omega arith) (omega arith))
        (took again offset len (take offset content) (omega arith) (omega arith) (omega arith)
          ∙ rw (← take-add offset len content) (rest len (omega arith) (omega arith)))

  read_rest-content :
      (fuel offset : ℕ)
      → offset ≤ length content
      → length content - offset < fuel
      → read_rest (host_client l) fuel path (length content) 512 offset (take offset content) d
        ≡ done content d
  unfolding read_rest
  read_rest-content zero offset within enough = absurd (omega arith)
  read_rest-content (suc fuel) offset within enough =
      elim (Bool-cases (ltb offset (length content))) [
        | inr over ↦
            let ended : offset ≡ length content = ground (arith, over) in
            rw (over, read_rest) (rw ended (ap (λ out. done out d) (take-all content)))
        | inl more ↦
            rw (more, read_rest)
              (round-content (read_rest (host_client l) fuel path (length content) 512) offset
                (ground (arith, more))
                (λ len pos most. read_rest-content fuel (offset + len) (omega arith) (omega arith)))
      ]

  stat_file :
      (host_client l).fs_stat d (record { path = path; expected_epoch = none })
      ≡ (some (stat_size l d.epoch (some (length content))), d)
  unfolding serve_stat handle_stat epoch_matches file_size_bytes
  stat_file =
      rw (named, fits, ready, normal, held.path_accepted, held.not_a_dir, held.sized, sized) refl
    where
      fits : leb (byte_len path) fs_path_cap ≡ true
      fits = ground (arith, short)

      sized : min (length content) u32_max ≡ length content
      sized = omega arith

  -- When the device has a file system and a file of fewer than 2^32 bytes stands at the normalised
  -- path of a request that is not empty and fits the wire, the host reads exactly the bytes of the
  -- file over the link, and the device is as it was.
  pub read_file_bytes-content : read_file_bytes (host_client l) path d ≡ done content d
  unfolding read_file_bytes fs_info stat_path handle_fs_info stat_size read_file
  read_file_bytes-content =
      rw stat_file (read_rest-content (suc (length content)) 0 (omega arith) (omega arith))
