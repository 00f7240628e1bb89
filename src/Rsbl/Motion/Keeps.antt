-- ===== src/Rsbl/Motion/Keeps.antt =====
-- No transfer on the bus touches the tracked positions; only an absolute move does.
use asteria_firmware.Prelude.{
  ℕ, zero, suc, ◌≡◌, refl, ◌∙◌, Bool, true, false, List, [], ◌∷◌, Option, none, some, ◌==◌, ◌!=◌,
  if◌then◌else◌, Bool-cases, get_or, replicate, ◌+◌, inl, inr,
}
use asteria_firmware.Prelude.Int.{ℤ, pos, ltb_ℤ, ◌-ℤ◌}
use asteria_firmware.Words.{wrap_i32, magnitude}
use asteria_firmware.Rsbl.Bus.{
  RxEvent, byte, silence, broken, RsblError, Rsbl, Result, ok, err, M, final, bind_result, ◌>>=◌,
  ◌>>◌, pure, fail, ignore, ignore_result, read_byte, read_bytes, drain, clear_ringbuffer, write,
  flush, take_event, wrong_format, wrong_checksum, internal_error, invalid_angle,
}
use asteria_firmware.Rsbl.Frame.{
  write_register, write_to_servo, check_frame, read_frame, read_from_servo, write_data,
  calc_checksum,
}
use asteria_firmware.Rsbl.Motion.{
  Side, left, right, tracked_pos, move_steps, attempt, outcome, move_loop, move_absolute, finish,
  full_speed, chunk, side_id,
}

abbrev pub SamePos : Rsbl → Rsbl → Type 0
SamePos s t = (t.left_pos ≡ s.left_pos) × (t.right_pos ≡ s.right_pos)

unfoldable pub Keeps : {A : Type 0} → M A → Type 0
Keeps m = (s : Rsbl) → SamePos s (final (m s))

pub SamePos-trans : (s t u : Rsbl) → SamePos s t → SamePos t u → SamePos s u
SamePos-trans s t u p q = (q.0 ∙ p.0, q.1 ∙ p.1)

bind_result-SamePos :
    {A B : Type 0} (s : Rsbl) (r : Result A) (k : A → M B)
    → SamePos s (final r)
    → ((a : A) → Keeps (k a))
    → SamePos s (final (bind_result r k))
unfolding Keeps
bind_result-SamePos s (ok a t) k p q = SamePos-trans s t (final (k a t)) p (q a t)
bind_result-SamePos s (err e t) k p q = p

pub >>=-Keeps :
    {A B : Type 0} (m : M A) (k : A → M B) → Keeps m → ((a : A) → Keeps (k a)) → Keeps (m >>= k)
unfolding Keeps
>>=-Keeps m k p q s = bind_result-SamePos s (m s) k (p s) q

pub >>-Keeps : {B : Type 0} (m : M (Unit {0})) (k : M B) → Keeps m → Keeps k → Keeps (m >> k)
unfolding Keeps
>>-Keeps m k p q s = bind_result-SamePos s (m s) (λ _. k) (p s) (λ _. q)

pub pure-Keeps : {A : Type 0} (a : A) → Keeps (pure a)
unfolding Keeps
pure-Keeps a s = (refl, refl)

fail-Keeps : (A : Type 0) (e : RsblError) → Keeps {A = A} (fail e)
unfolding Keeps
fail-Keeps A e s = (refl, refl)

if-Keeps : {A : Type 0} (b : Bool) (m k : M A) → Keeps m → Keeps k → Keeps (if b then m else k)
if-Keeps true m k p q = p
if-Keeps false m k p q = q

take_event-SamePos : (events : List RxEvent) (s : Rsbl) → SamePos s (final (take_event events s))
take_event-SamePos [] s = (refl, refl)
take_event-SamePos (byte b ∷ rest) s = (refl, refl)
take_event-SamePos (silence ∷ rest) s = (refl, refl)
take_event-SamePos (broken ∷ rest) s = (refl, refl)

read_byte-Keeps : Keeps read_byte
unfolding read_byte Keeps
read_byte-Keeps s = take_event-SamePos s.rx s

read_bytes-Keeps : (n : ℕ) → Keeps (read_bytes n)
unfolding read_bytes
read_bytes-Keeps zero = pure-Keeps []
read_bytes-Keeps (suc n) =
    >>=-Keeps read_byte _ read_byte-Keeps
      (λ b. >>=-Keeps (read_bytes n) _ (read_bytes-Keeps n) (λ bytes. pure-Keeps (b ∷ bytes)))

drain-SamePos : (events : List RxEvent) (s : Rsbl) → SamePos s (final (drain events s))
drain-SamePos [] s = (refl, refl)
drain-SamePos (byte b ∷ rest) s = drain-SamePos rest s
drain-SamePos (silence ∷ rest) s = (refl, refl)
drain-SamePos (broken ∷ rest) s = (refl, refl)

pub clear_ringbuffer-Keeps : Keeps clear_ringbuffer
unfolding clear_ringbuffer Keeps
clear_ringbuffer-Keeps s = drain-SamePos s.rx s

ignore_result-SamePos :
    {A : Type 0} (s : Rsbl) (r : Result A)
    → SamePos s (final r)
    → SamePos s (final (ignore_result r))
ignore_result-SamePos s (ok a t) p = p
ignore_result-SamePos s (err e t) p = p

ignored-Keeps : Keeps (ignore clear_ringbuffer)
unfolding Keeps
ignored-Keeps s = ignore_result-SamePos s (clear_ringbuffer s) (clear_ringbuffer-Keeps s)

write-Keeps : (bytes : List ℕ) → Keeps (write bytes)
unfolding write Keeps
write-Keeps bytes s = elim (Bool-cases (s.tx s.calls)) [
  | inl works ↦ rw works (refl, refl)
  | inr fails ↦ rw fails (refl, refl)
]

flush-Keeps : Keeps flush
unfolding flush
flush-Keeps = write-Keeps []

pub write_register-Keeps :
    (id instruction register : ℕ) (bytes : List ℕ)
    → Keeps (write_register id instruction register bytes)
unfolding write_register
write_register-Keeps id instruction register bytes = >>-Keeps (write _) _ (write-Keeps _) (
    >>-Keeps (write _) _ (write-Keeps _)
      (>>-Keeps (write _) _ (write-Keeps _) (>>-Keeps (write _) _ (write-Keeps _) flush-Keeps)))

check_frame-Keeps : (n : ℕ) (header bytes : List ℕ) (c : ℕ) → Keeps (check_frame n header bytes c)
unfolding check_frame
check_frame-Keeps n header bytes c =
    let id = get_or header 2 0 in
    let len = get_or header 3 0 in
    let status = get_or header 4 0 in
    let unpacked = if status == 0 then pure bytes else fail internal_error in
    let matching = c == calc_checksum id len status none (some bytes) in
    if-Keeps (n + 2 != len) (fail wrong_format) (if matching then unpacked else fail wrong_checksum)
      (fail-Keeps (List ℕ) wrong_format)
      (if-Keeps matching unpacked (fail wrong_checksum)
        (if-Keeps (status == 0) (pure bytes) (fail internal_error) (pure-Keeps bytes)
          (fail-Keeps (List ℕ) internal_error))
        (fail-Keeps (List ℕ) wrong_checksum))

pub read_from_servo-Keeps : (id n : ℕ) → Keeps (read_from_servo id n)
unfolding read_from_servo read_frame
read_from_servo-Keeps id n =
    if-Keeps (id == 0xFE) (pure (replicate n 0)) _ (pure-Keeps (replicate n 0)) (
      >>=-Keeps (read_bytes 5) _ (read_bytes-Keeps 5) (λ header.
        >>=-Keeps (read_bytes n) _ (read_bytes-Keeps n) (λ bytes.
          >>=-Keeps read_byte _ read_byte-Keeps (λ c.
            >>-Keeps (ignore clear_ringbuffer) _ ignored-Keeps
              (check_frame-Keeps n header bytes c)))))

write_data-Keeps : (id start : ℕ) (bytes : List ℕ) → Keeps (write_data id start bytes)
unfolding write_data write_to_servo
write_data-Keeps id start bytes =
    >>-Keeps (write_register id 0x03 start bytes) _ (write_register-Keeps id 0x03 start bytes)
      (>>=-Keeps (read_from_servo id 0) _ (read_from_servo-Keeps id 0) (λ _. pure-Keeps tt))

pub move_steps-Keeps : (id : ℕ) (angle : ℤ) (speed : ℕ) → Keeps (move_steps id angle speed)
unfolding move_steps
move_steps-Keeps id angle speed =
    if-Keeps _ (fail invalid_angle) _ (fail-Keeps (Unit {0}) invalid_angle)
      (write_data-Keeps id _ _)

pub attempt-SamePos :
    (m : M (Unit {0})) (p : Option RsblError × Rsbl) → Keeps m → SamePos p.1 (attempt m p).1
unfolding attempt Keeps
attempt-SamePos m (error, s) k = outcome-SamePos (m s) (k s)
  where
    outcome-SamePos : (r : Result (Unit {0})) → SamePos s (final r) → SamePos s (outcome error r).1
    outcome-SamePos (ok a t) p = p
    outcome-SamePos (err e t) p = p

move_loop-SamePos :
    (fuel id : ℕ) (steps : ℤ) (p : Option RsblError × Rsbl)
    → SamePos p.1 (move_loop fuel id steps p).1
unfolding move_loop
move_loop-SamePos zero id steps p = attempt-SamePos _ p (move_steps-Keeps id _ full_speed)
move_loop-SamePos (suc fuel) id steps p =
    let next = attempt (move_steps id (chunk steps) full_speed) p in
    elim (Bool-cases (ltb_ℤ (pos 32766) (wrap_i32 (pos (magnitude steps))))) [
      | inl longer ↦
          rw (longer, move_loop)
            (SamePos-trans p.1 next.1 (move_loop fuel id (steps -ℤ chunk steps) next).1
              (attempt-SamePos _ p (move_steps-Keeps id (chunk steps) full_speed))
              (move_loop-SamePos fuel id (steps -ℤ chunk steps) next))
      | inr last ↦ rw (last, move_loop) (attempt-SamePos _ p (move_steps-Keeps id _ full_speed))
    ]

abbrev pub other : Side → Side
other left = right
other right = left

-- What `finish` leaves in the two fields.
abbrev TracksOf : Side → ℤ → Rsbl → Rsbl → Type 0
TracksOf side target s t =
    (tracked_pos side t ≡ target) × (tracked_pos (other side) t ≡ tracked_pos (other side) s)

finish-tracks :
    (side : Side) (target : ℤ) (s : Rsbl) (p : Option RsblError × Rsbl)
    → SamePos s p.1
    → TracksOf side target s (final (finish side target p))
finish-tracks left target s (none, t) h = (refl, h.1)
finish-tracks left target s (some e, t) h = (refl, h.1)
finish-tracks right target s (none, t) h = (refl, h.0)
finish-tracks right target s (some e, t) h = (refl, h.0)

-- After an absolute move the position is tracked as the target, and the other servo's as before:
-- for every behaviour of the bus, also when the move failed.
pub move_absolute-tracks :
    (side : Side) (target : ℤ) (s : Rsbl)
    → (tracked_pos side (final (move_absolute side target s)) ≡ target)
      × (tracked_pos (other side) (final (move_absolute side target s))
          ≡ tracked_pos (other side) s)
unfolding move_absolute
move_absolute-tracks side target s =
    finish-tracks side target s _ (move_loop-SamePos _ (side_id side) _ (none, s))
