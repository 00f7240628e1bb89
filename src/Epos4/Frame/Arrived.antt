-- ===== src/Epos4/Frame/Arrived.antt =====
-- The bytes behind a frame that `read_response_frame` has accepted.
use mathlib.Core.Path.{subst}
use asteria_firmware.Prelude.{
  ℕ, zero, suc, ◌+◌, ◌*◌, ◌^◌, ◌<◌, ◌≡◌, sym, ap, ◌∙◌, arith, true, false, List, [], ◌∷◌, ◌++◌,
  length, All,
}
use asteria_firmware.Epos4.Device.{from_words, is_error}
use asteria_firmware.Epos4.Device.Codes.{no_error_words}
use asteria_firmware.Epos4.Crc.{calculate_crc, check_crc}
use asteria_firmware.Epos4.Crc.Detect.{check_crc-calculate_crc}
use asteria_firmware.Epos4.Link.{Epos4, ok, pure, read_word}
use asteria_firmware.Epos4.Link.Encoding.{with_rx, incoming}
use asteria_firmware.Epos4.Link.Taken.{
  CodesByte, AreBytes, Took, Took-trans, nothing_taken, read_word-coded, read_sync_sequence-Took,
  bind-ok, ok_injective,
}
use asteria_firmware.Epos4.Frame.{read_words, read_response_frame}
use asteria_firmware.Epos4.Frame.Accepted.{read_response_frame-IsAccepted}

-- Words on the link, each with its low byte first.
pub data CodesWords : List ℕ → List ℕ → Type 0 where
  nothing : CodesWords [] []
  word :
      {xs ys bytes ws : List ℕ} {lo hi : ℕ}
      → CodesByte xs lo
      → CodesByte ys hi
      → CodesWords bytes ws
      → CodesWords (xs ++ ys ++ bytes) ((lo + 256 * hi) ∷ ws)

last_one : (ws : List ℕ) {w : ℕ} → All (λ v. v < 2 ^ 16) (ws ++ w ∷ []) → w < 2 ^ 16
last_one [] h = h.0
last_one (v ∷ ws) h = last_one ws h.1

module _ {E : Type 0} where
  read_words-coded :
      (n : ℕ) (d : Epos4 E) {ws : List ℕ} {d' : Epos4 E}
      → AreBytes d.rx
      → read_words n d ≡ ok ws d'
      → (bytes : List ℕ) × CodesWords bytes ws × All (λ w. w < 2 ^ 16) ws × Took d bytes d'
  unfolding read_words
  read_words-coded zero d {ws} {d'} all h =
      let (same, states) = ok_injective [] ws d d' h in
      ([], rw (← same) nothing, rw (← same) tt, rw (← states) (nothing_taken d all))
  read_words-coded (suc n) d {ws} {d'} all h =
      let (w, m, p, q) = bind-ok (read_word d) _ h in
      let (others, m', r, t) = bind-ok (read_words n m) (λ xs. pure (w ∷ xs)) q in
      let (lo, hi, xs, ys, low_code, high_code, value, bound, first) = read_word-coded d all p in
      let (bytes, codes, bounds, rest) = read_words-coded n m first.sound r in
      let (same, states) = ok_injective (w ∷ others) ws m' d' t in
      longer_run xs ys bytes lo hi w others ws m m' d' same states value bound low_code high_code
        first codes bounds rest
    where
      -- A word, and those that followed it.
      longer_run :
          (xs ys bytes : List ℕ) (lo hi w : ℕ) (others ws : List ℕ) (m m' d' : Epos4 E)
          → w ∷ others ≡ ws
          → m' ≡ d'
          → w ≡ lo + 256 * hi
          → w < 2 ^ 16
          → CodesByte xs lo
          → CodesByte ys hi
          → Took d (xs ++ ys) m
          → CodesWords bytes others
          → All (λ v. v < 2 ^ 16) others
          → Took m bytes m'
          → (all_bytes : List ℕ) × CodesWords all_bytes ws
            × All (λ v. v < 2 ^ 16) ws
            × Took d all_bytes d'
      longer_run xs ys bytes lo hi w others ws m m' d' same states value bound low_code high_code
            first codes bounds rest =
          (
            xs ++ ys ++ bytes,
            subst (CodesWords (xs ++ ys ++ bytes)) (ap (λ v. v ∷ others) (sym value) ∙ same)
                (word low_code high_code codes),
            subst (All (λ v. v < 2 ^ 16)) same (bound, bounds),
            subst (λ s. Took d (xs ++ ys ++ bytes) s) states (Took-trans first rest),
          )

  -- When what arrives are bytes and `read_response_frame` returns words `ws`, the link has delivered
  -- the bytes 0x90 and 0x02 and then the bytes of: a header with the number of words, two more for
  -- the error code, and opcode 0; two zero words; `ws`, of which there are as many as were asked
  -- for; and the CRC that `calculate_crc` gives for the words before it. These bytes and no others
  -- have been taken off the link.
  pub read_response_frame-arrived :
      (l : ℕ) (d d' : Epos4 E) (ws : List ℕ)
      → AreBytes d.rx
      → read_response_frame l d ≡ ok ws d'
      → (bytes : List ℕ) × (d.rx ≡ incoming (0x90 ∷ 0x02 ∷ bytes) d'.rx)
        × (d' ≡ with_rx d d'.rx)
        × (length ws ≡ l)
        × CodesWords bytes
            ((l + 2) * 256 ∷ 0 ∷ 0 ∷ (ws ++ calculate_crc ((l + 2) * 256) (0 ∷ 0 ∷ ws) ∷ []))
  read_response_frame-arrived l d d' ws all h =
      let a = read_response_frame-IsAccepted l d d' ws h in
      let synced = read_sync_sequence-Took d all a.synchronised in
      let (bytes, codes, bounds, body) = read_words-coded (l + 4) a.start synced.sound a.arrived in
      let header_value : a.header ≡ (l + 2) * 256 = omega (arith, a.counted, a.opcode) in
      let whole = Took-trans {xs = 0x90 ∷ 0x02 ∷ []} synced body in
      (
        bytes,
        whole.taken,
        whole.else_same,
        a.complete,
        fields a.header a.low a.high a.crc bytes header_value a.intact a.no_error bounds codes,
      )
    where
      fields :
          (header low high crc : ℕ) (bytes : List ℕ)
          → header ≡ (l + 2) * 256
          → check_crc header (low ∷ high ∷ []) ws crc ≡ true
          → is_error (from_words low high) ≡ false
          → All (λ w. w < 2 ^ 16) (header ∷ low ∷ high ∷ (ws ++ crc ∷ []))
          → CodesWords bytes (header ∷ low ∷ high ∷ (ws ++ crc ∷ []))
          → CodesWords bytes
              ((l + 2) * 256 ∷ 0 ∷ 0 ∷ (ws ++ calculate_crc ((l + 2) * 256) (0 ∷ 0 ∷ ws) ∷ []))
      fields header low high crc bytes counts holds fine bounds codes =
          let (no_low, no_high) = no_error_words low high bounds.1.0 fine in
          let sum =
            (check_crc-calculate_crc header (low ∷ high ∷ []) ws crc (last_one ws bounds.1.1.1)).0
              holds in
          rw (sum, counts, no_low, no_high) at codes
