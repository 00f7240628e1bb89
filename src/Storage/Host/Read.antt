-- ===== src/Storage/Host/Read.antt =====
-- Reading a file of any backend: the loop ends, and a result is complete.
use asteria_firmware.Prelude.{
  ℕ, zero, suc, ◌+◌, ◌-◌, ◌%◌, ◌^◌, ◌≤◌, ◌<◌, ◌≡◌, refl, arith, List, [], ◌++◌, Option, none, some,
  Bool-cases, inl, inr, ltb, leb, ◌==◌, ◌!=◌, length, length-append,
}
use asteria_firmware.Storage.Text.{Text}
use asteria_firmware.Storage.Wire.{FsReadFileReq, FsReadFileResp, fs_read_data_cap}
use asteria_firmware.Storage.Host.{
  RpcBackend, Outcome, done, failed, unfinished, bind_outcome, awaited, is_ok, is_file, FsNodeMeta,
  read_chunk, read_rest, read_file,
}

-- The operation has come to an end; a result has so many bytes.
unfoldable pub IsComplete : {S : Type 0} → ℕ → Outcome S (List ℕ) → Type 0
IsComplete n (done out s) = length out ≡ n
IsComplete n (failed e s) = Unit {0}
IsComplete n (unfinished s) = ⊥

module _ (b : RpcBackend) where
  -- A chunk is a vector of capacity `fs_read_data_cap`.
  abbrev pub ChunksFit : Type 0
  ChunksFit =
      (s : b.State) (req : FsReadFileReq) (resp : FsReadFileResp)
      → (b.fs_read_file_chunk s req).0 ≡ some resp
      → length resp.data' ≤ fs_read_data_cap

  read_chunk-IsComplete :
      (again : ℕ → List ℕ → b.State → Outcome b.State (List ℕ)) (n offset : ℕ) (out : List ℕ)
      → (resp : FsReadFileResp) (s : b.State) → length out ≡ offset
      → length resp.data' ≤ fs_read_data_cap
      → ((next : ℕ) (more : List ℕ)
          → length more ≡ next
          → offset < next
          → next ≤ n
          → IsComplete n (again next more s))
      → IsComplete n (read_chunk b again n offset out resp s)
  unfolding read_chunk IsComplete
  read_chunk-IsComplete again n offset out resp s h cap go = elim (Bool-cases (is_ok resp.err)) [
    | inr bad ↦ rw bad tt
    | inl good ↦ elim (Bool-cases (resp.offset != offset)) [
      | inl other ↦ rw (good, other) tt
      | inr same ↦ elim (Bool-cases (length resp.data' == 0)) [
        | inl empty ↦ rw (good, same, empty) tt
        | inr some_data ↦ elim (Bool-cases (leb (2 ^ 32) next)) [
          | inl over ↦ rw (good, same, some_data, over) tt
          | inr fits ↦ elim (Bool-cases (ltb n next)) [
            | inl much ↦ rw (good, same, some_data, fits, much) tt
            | inr within ↦
                rw (good, same, some_data, fits, within)
                  (go next (out ++ resp.data') (omega (arith, length-append out resp.data', h, cap))
                    (ground (arith, some_data, cap)) (ground (arith, within)))
          ]
        ]
      ]
    ]
  ]
    where
      next : ℕ
      next = offset + length resp.data' % 2 ^ 32

  awaited-IsComplete :
      {A : Type 0} (n : ℕ) (r : Option A × b.State) (f : A → b.State → Outcome b.State (List ℕ))
      → ((a : A) → r.0 ≡ some a → IsComplete n (f a r.1))
      → IsComplete n (bind_outcome (awaited r) f)
  unfolding IsComplete
  awaited-IsComplete n (none, s) f h = tt
  awaited-IsComplete n (some a, s) f h = h a refl

  read_rest-IsComplete :
      (fuel : ℕ) (path : Text) (n chunk_len offset : ℕ) (out : List ℕ) (s : b.State)
      → ChunksFit
      → length out ≡ offset
      → offset ≤ n
      → n - offset < fuel
      → IsComplete n (read_rest b fuel path n chunk_len offset out s)
  unfolding read_rest IsComplete
  read_rest-IsComplete zero path n chunk_len offset out s fit h within enough = absurd (omega arith)
  read_rest-IsComplete (suc fuel) path n chunk_len offset out s fit h within enough =
      elim (Bool-cases (ltb offset n)) [
        | inr over ↦ rw (over, read_rest) (ground (arith, over))
        | inl more ↦
            rw (more, read_rest)
              (awaited-IsComplete n (b.fs_read_file_chunk s _) _ (λ resp told.
                read_chunk-IsComplete (read_rest b fuel path n chunk_len) n offset out resp _ h
                  (fit s _ resp told)
                  (λ next longer e lt le.
                    read_rest-IsComplete fuel path n chunk_len next longer _ fit e le
                      (omega arith))))
      ]

  -- Whatever a backend whose chunks fit the wire answers, reading a file comes to an end, and what
  -- it returns has as many bytes as the file had when it was asked for its size.
  pub read_file-IsComplete :
      (path : Text) (chunk_len : ℕ) (stat : FsNodeMeta) (s : b.State)
      → ChunksFit
      → IsComplete stat.size_bytes (read_file b path chunk_len stat s)
  unfolding read_file IsComplete
  read_file-IsComplete path chunk_len stat s fit = elim (Bool-cases (is_file stat.kind)) [
    | inr other ↦ rw other tt
    | inl yields ↦ rw yields (
        read_rest-IsComplete (suc stat.size_bytes) path stat.size_bytes chunk_len 0 [] s fit refl
          (omega arith) (omega arith))
  ]
