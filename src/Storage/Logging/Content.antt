-- ===== src/Storage/Logging/Content.antt =====
-- What the file of the session holds, and what the host reads of it.
use asteria_firmware.Prelude.{
  ℕ, ◌^◌, ◌≤◌, ◌<◌, ◌≡◌, refl, ap, arith, false, List, [], ◌∷◌, ◌++◌, append_assoc, append-nil,
  some, ◌==◌, length, length-append,
}
use asteria_firmware.Storage.Text.{Text, is_empty, byte_len}
use asteria_firmware.Storage.Wire.{fs_path_cap}
use asteria_firmware.Storage.Path.{fine, normalize_req_path}
use asteria_firmware.Storage.Littlefs.{Littlefs, HoldsFile}
use asteria_firmware.Storage.Device.{Device}
use asteria_firmware.Storage.Host.{done, read_file_bytes}
use asteria_firmware.Storage.Logging.{Logger, append_data, log_round, log_rounds}
use asteria_firmware.Storage.Remote.{host_client}
use asteria_firmware.Storage.Remote.File.{read_file_bytes-content}

-- The bytes of the rounds, in order.
unfoldable pub joined : List (List ℕ) → List ℕ
joined [] = []
joined (bytes ∷ rest) = bytes ++ joined rest

-- An append to a file works while the file has no more than so many bytes, and puts the data at its end.
pub record IsAppend (l : Littlefs) (path : Text) (room : ℕ) : Type 0 where
  pub appends :
      (s : l.State) (content bytes : List ℕ)
      → HoldsFile l s path content
      → length (content ++ bytes) ≤ room
      → HoldsFile l (l.append s path bytes).1 path (content ++ bytes)

module _ (l : Littlefs) (path : Text) (room : ℕ) (laws : IsAppend l path room) where
  -- The file holds so many bytes in the state of the logger.
  pub record Recorded (g : Logger l) (content : List ℕ) : Type 0 where
    pub state : l.State
    pub mounted : g.fs ≡ some state
    pub at_path : g.defmt_path ≡ path
    pub holds : HoldsFile l state path content

  log_round-Recorded :
      (g : Logger l) (content bytes : List ℕ)
      → length (content ++ bytes) ≤ room
      → Recorded g content
      → Recorded (log_round l g bytes) (content ++ bytes)
  unfolding log_round append_data
  log_round-Recorded g content [] h r = rw (append-nil content) r
  log_round-Recorded g content (b ∷ bytes) h r =
      let some_data : (length (b ∷ bytes) == 0) ≡ false = ground arith in
      rw (some_data, r.mounted)
        (record {
          state = (l.append r.state g.defmt_path (b ∷ bytes)).1;
          mounted = refl;
          at_path = r.at_path;
          holds = rw r.at_path (laws.appends r.state content (b ∷ bytes) r.holds h);
        })

  pub log_rounds-Recorded :
      (g : Logger l) (content : List ℕ) (frames : List (List ℕ))
      → length (content ++ joined frames) ≤ room
      → Recorded g content
      → Recorded (log_rounds l g frames) (content ++ joined frames)
  unfolding log_rounds joined
  log_rounds-Recorded g content [] h r = rw (append-nil content) r
  log_rounds-Recorded g content (bytes ∷ frames) h r =
      let same = append_assoc content bytes (joined frames) in
      let fits : length ((content ++ bytes) ++ joined frames) ≤ room =
        omega (arith, ap length same, h) in
      let first : length (content ++ bytes) ≤ room =
        omega (arith, length-append (content ++ bytes) (joined frames), fits) in
      rw (← same) (
        log_rounds-Recorded (log_round l g bytes) (content ++ bytes) frames fits
          (log_round-Recorded g content bytes first r))

-- The device with the file system of the logger.
abbrev pub with_log : (l : Littlefs) → Device l → Logger l → Device l
with_log l d after = record d { fs = after.fs }

module _ (l : Littlefs) (d : Device l) (g : Logger l) (path : Text) (content : List ℕ)
    (frames : List (List ℕ)) (room : ℕ) (laws : IsAppend l g.defmt_path room) (s : l.State)
    (mounted : g.fs ≡ some s) (named : is_empty path ≡ false) (short : byte_len path ≤ fs_path_cap)
    (normal : normalize_req_path path ≡ fine g.defmt_path)
    (held : HoldsFile l s g.defmt_path content) (fits : length (content ++ joined frames) ≤ room)
    (small : length (content ++ joined frames) < 2 ^ 32) where
  -- When the file of the session stands at the normalised path of a request that is not empty and fits
  -- the wire, and appends to it work up to a size below 2^32 that the log does not exceed, then after
  -- any rounds of the logging task the host reads what the file held before and the bytes of the rounds
  -- behind it, each once and in order.
  pub log_rounds-read :
      read_file_bytes (host_client l) path (with_log l d (log_rounds l g frames))
      ≡ done (content ++ joined frames) (with_log l d (log_rounds l g frames))
  log_rounds-read =
      let r =
        log_rounds-Recorded l g.defmt_path room laws g content frames fits
          (record { state = s; mounted = mounted; at_path = refl; holds = held }) in
      read_file_bytes-content l (with_log l d (log_rounds l g frames)) r.state path g.defmt_path
        (content ++ joined frames) r.mounted named short normal r.holds small
