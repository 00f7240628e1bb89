-- ===== src/Epos4/Link/Taken.antt =====
-- What the reading operations of the link have taken off it when they succeed.
use asteria_firmware.Prelude.{
  ℕ, ◌+◌, ◌*◌, ◌^◌, ◌<◌, ◌≡◌, refl, sym, ap, ◌∙◌, arith, Bool, true, false, List, [], ◌∷◌, ◌++◌,
  ◌==◌, ◌!=◌, inl, inr, ◌⊎◌, Bool-cases, if◌then◌else◌,
}
use asteria_firmware.Epos4.Device.{Epos4Error, framing}
use asteria_firmware.Epos4.Link.{
  RxEvent, byte, eof, broken, Epos4, Result, ok, err, pending, M, bind_result, pure, fail_if,
  read_exact, read_byte, read_word, read_sync_sequence,
}
use asteria_firmware.Epos4.Link.Encoding.{with_rx, incoming, incoming-append}

-- A byte on the link, as it is or behind the escape byte 0x90.
pub data CodesByte : List ℕ → ℕ → Type 0 where
  plain : (b : ℕ) → ¬ (b ≡ 0x90) → CodesByte (b ∷ []) b
  escaped : (b : ℕ) → CodesByte (0x90 ∷ b ∷ []) b

escape_or_not : (b : ℕ) → (b ≡ 0x90) ⊎ (¬ (b ≡ 0x90))
escape_or_not b = omega arith

is_escape : {b : ℕ} → b ≡ 0x90 → (b == 0x90) ≡ true
is_escape h = ground arith

no_escape : {b : ℕ} → ¬ (b ≡ 0x90) → (b == 0x90) ≡ false
no_escape h = ground arith

is_byte : {b k : ℕ} → (b != k) ≡ false → b ≡ k
is_byte h = ground arith

module _ {E : Type 0} where
  -- Inversion of a bind that succeeds.
  pub bind-ok :
      {A B : Type 0} (r : Result E A) (k : A → M E B) {b : B} {d' : Epos4 E}
      → bind_result r k ≡ ok b d'
      → (a : A) × (m : Epos4 E) × (r ≡ ok a m) × (k a m ≡ ok b d')
  bind-ok (ok a m) k h = (a, m, refl, h)
  bind-ok (err e m) k h = cc
  bind-ok (pending m) k h = cc

  -- A test that was passed.
  pub passed :
      {B : Type 0} (t : Bool) (e : Epos4Error E) (k : M E B) (d : Epos4 E) {b : B} {d' : Epos4 E}
      → bind_result (fail_if t e d) (λ _. k) ≡ ok b d'
      → (t ≡ false) × (k d ≡ ok b d')
  passed true e k d h = cc
  passed false e k d h = (refl, h)

  pub ok_injective : {A : Type 0} (a b : A) (d d' : Epos4 E) → ok a d ≡ ok b d' → (a ≡ b) × (d ≡ d')
  ok_injective a b d d' h = (cc, cc)

  -- What arrives as a byte is below 256.
  abbrev pub AreBytes : List (RxEvent E) → Type 0
  AreBytes [] = Unit
  AreBytes (byte b ∷ events) = (b < 256) × AreBytes events
  AreBytes (eof ∷ events) = AreBytes events
  AreBytes (broken e ∷ events) = AreBytes events

  -- From `d` to `d'` exactly `bytes` have been taken off the link.
  pub record Took (d : Epos4 E) (bytes : List ℕ) (d' : Epos4 E) : Type 0 where
    pub taken : d.rx ≡ incoming bytes d'.rx
    pub else_same : d' ≡ with_rx d d'.rx
    pub sound : AreBytes d'.rx

  pub Took-trans :
      {d m d' : Epos4 E} {xs ys : List ℕ} → Took d xs m → Took m ys d' → Took d (xs ++ ys) d'
  Took-trans {d} {m} {d'} {xs} {ys} p q = record {
    taken = p.taken ∙ ap (incoming xs) q.taken ∙ sym (incoming-append xs ys d'.rx);
    else_same = q.else_same ∙ ap (λ s. with_rx s d'.rx) p.else_same;
    sound = q.sound;
  }

  pub nothing_taken : (d : Epos4 E) → AreBytes d.rx → Took d [] d
  nothing_taken d all = record { taken = refl; else_same = refl; sound = all }

  read_exact-Took :
      (events : List (RxEvent E)) (d : Epos4 E) {b : ℕ} {d' : Epos4 E}
      → AreBytes events
      → read_exact (with_rx d events) ≡ ok b d'
      → (b < 256) × Took (with_rx d events) (b ∷ []) d'
  unfolding read_exact
  read_exact-Took [] d all h = cc
  read_exact-Took (eof ∷ rest) d all h = cc
  read_exact-Took (broken e ∷ rest) d all h = cc
  read_exact-Took (byte x ∷ rest) d {b} {d'} all h =
      let (same, states) = ok_injective x b (with_rx d rest) d' h in
      (
        rw (← same) (all.0),
        rw (← same, ← states) (record { taken = refl; else_same = refl; sound = all.1 }),
      )

  read_byte-coded :
      (d : Epos4 E) {b : ℕ} {d' : Epos4 E}
      → AreBytes d.rx
      → read_byte true d ≡ ok b d'
      → (bytes : List ℕ) × CodesByte bytes b × (b < 256) × Took d bytes d'
  unfolding read_byte
  read_byte-coded d {b} {d'} all h =
      let (first, m, p, q) = bind-ok (read_exact d) _ h in
      let (small, one) = read_exact-Took d.rx d all p in
      split first m small one (escape_or_not first) q
    where
      -- The byte behind the escape byte is taken for itself, and any other first byte is the byte.
      split :
          (first : ℕ) (m : Epos4 E)
          → first < 256
          → Took d (first ∷ []) m
          → (first ≡ 0x90) ⊎ (¬ (first ≡ 0x90))
          → (if first == 0x90 then read_exact else pure first) m ≡ ok b d'
          → (bytes : List ℕ) × CodesByte bytes b × (b < 256) × Took d bytes d'
      split first m small one (inl esc) q =
          let behind : read_exact m ≡ ok b d' =
            ap (λ t. (if t then read_exact else pure first) m) (sym (is_escape esc)) ∙ q in
          let (bound, two) = read_exact-Took m.rx m one.sound behind in
          (0x90 ∷ b ∷ [], escaped b, bound, Took-trans {xs = 0x90 ∷ []} (rw esc at one) two)
      split first m small one (inr other) q =
          let here : ok first m ≡ ok b d' =
            ap (λ t. (if t then read_exact else pure first) m) (sym (no_escape other)) ∙ q in
          let (same, states) = ok_injective first b m d' here in
          (b ∷ [], plain b (rw (← same) other), rw (← same) small, rw (← same, ← states) one)

  pub read_word-coded :
      (d : Epos4 E) {w : ℕ} {d' : Epos4 E}
      → AreBytes d.rx
      → read_word d ≡ ok w d'
      → (lo : ℕ) × (hi : ℕ) × (xs : List ℕ) × (ys : List ℕ) × CodesByte xs lo
        × CodesByte ys hi
        × (w ≡ lo + 256 * hi)
        × (w < 2 ^ 16)
        × Took d (xs ++ ys) d'
  unfolding read_word
  read_word-coded d {w} {d'} all h =
      let (lo, m, p, q) = bind-ok (read_byte true d) _ h in
      let (hi, m', r, t) = bind-ok (read_byte true m) _ q in
      let (xs, low_code, low_bound, first) = read_byte-coded d all p in
      let (ys, high_code, high_bound, second) = read_byte-coded m first.sound r in
      let (same, states) = ok_injective (lo + hi * 256) w m' d' t in
      (
        lo,
        hi,
        xs,
        ys,
        low_code,
        high_code,
        omega arith,
        omega arith,
        rw (← states) (Took-trans first second),
      )

  plain_byte-Took :
      (d : Epos4 E) {b : ℕ} {d' : Epos4 E}
      → AreBytes d.rx
      → read_byte false d ≡ ok b d'
      → Took d (b ∷ []) d'
  unfolding read_byte
  plain_byte-Took d {b} {d'} all h =
      let (x, m, p, q) = bind-ok (read_exact d) (λ y. pure y) h in
      let (small, one) = read_exact-Took d.rx d all p in
      let (same, states) = ok_injective x b m d' q in rw (← same, ← states) one

  -- A sync sequence that is accepted is the byte 0x90 and then the byte 0x02.
  pub read_sync_sequence-Took :
      (d : Epos4 E) {d' : Epos4 E}
      → AreBytes d.rx
      → read_sync_sequence d ≡ ok tt d'
      → Took d (0x90 ∷ 0x02 ∷ []) d'
  unfolding read_sync_sequence
  read_sync_sequence-Took d {d'} all h =
      let (x, m, p, q) = bind-ok (read_byte false d) _ h in
      let (escape, q') = passed (x != 0x90) framing _ m q in
      let (y, m', r, t) = bind-ok (read_byte false m) _ q' in
      let one = plain_byte-Took d all p in
      let two = plain_byte-Took m one.sound r in second x y m m' (is_byte escape) one two t
    where
      second :
          (x y : ℕ) (m m' : Epos4 E)
          → x ≡ 0x90
          → Took d (x ∷ []) m
          → Took m (y ∷ []) m'
          → fail_if (y != 0x02) framing m' ≡ ok tt d'
          → Took d (0x90 ∷ 0x02 ∷ []) d'
      second x y m m' first one two t = elim (Bool-cases (y != 0x02)) [
        | inl other ↦ absurd (refused (ap (λ b. fail_if b framing m') (sym other) ∙ t))
        | inr text ↦
            let states : m' ≡ d' =
              (ok_injective tt tt m' d' (ap (λ b. fail_if b framing m') (sym text) ∙ t)).1 in
            rw (← states) (Took-trans {xs = 0x90 ∷ []} (rw first at one) (rw (is_byte text) at two))
      ]
        where
          refused : err framing m' ≡ ok tt d' → ⊥
          refused e = cc
