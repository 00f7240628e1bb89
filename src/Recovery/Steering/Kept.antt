-- ===== src/Recovery/Steering/Kept.antt =====
-- What the calls of the steering loop do to the positions that the driver tracks.
use asteria_firmware.Prelude.{
  ℕ, ◌%◌, ◌^◌, ◌≡◌, ◌∙◌, ◌⊎◌, inl, inr, List, [], ◌∷◌, Option, none, some,
}
use asteria_firmware.Prelude.Int.{ℤ, pos}
use asteria_firmware.Rsbl.Bus.{
  RsblError, timeout_error, failed_write, failed_read, invalid_angle, internal_error,
  wrong_checksum, wrong_format, Rsbl, Result, ok, err, final, bind_result, clear_ringbuffer,
}
use asteria_firmware.Rsbl.Frame.{
  read_data, write_to_servo, write_register, read_from_servo, read_instruction, current_location_h,
}
use asteria_firmware.Rsbl.Motion.{
  Side, left, right, side_id, tracked_pos, RsblData, sensor_result, read_sensor_data,
  read_steering_data, with_angle_from, attempt, started, startup_sequence, move_steps, full_speed,
  move_absolute, steer_parachutes,
}
use asteria_firmware.Rsbl.Motion.Keeps.{
  SamePos, SamePos-trans, Keeps, >>-Keeps, clear_ringbuffer-Keeps, write_register-Keeps,
  read_from_servo-Keeps, move_steps-Keeps, attempt-SamePos, move_absolute-tracks,
}
use asteria_firmware.Recovery.Steering.{side_reading, read_side}

read_data-Keeps : (id start n : ℕ) → Keeps (read_data id start n)
unfolding read_data write_to_servo
read_data-Keeps id start n =
    >>-Keeps (write_register id read_instruction start (n % 2 ^ 8 ∷ [])) (read_from_servo id n)
      (write_register-Keeps id read_instruction start (n % 2 ^ 8 ∷ [])) (read_from_servo-Keeps id n)

sensor_result-SamePos :
    (s : Rsbl) (r : Result (List ℕ)) → SamePos s (final r) → SamePos s (final (sensor_result r))
unfolding sensor_result
sensor_result-SamePos s (ok buf t) h = h
sensor_result-SamePos s (err timeout_error t) h = h
sensor_result-SamePos s (err failed_write t) h = h
sensor_result-SamePos s (err failed_read t) h = h
sensor_result-SamePos s (err invalid_angle t) h = h
sensor_result-SamePos s (err internal_error t) h = h
sensor_result-SamePos s (err wrong_checksum t) h = h
sensor_result-SamePos s (err wrong_format t) h = h

read_sensor_data-Keeps : (id : ℕ) → Keeps (read_sensor_data id)
unfolding read_sensor_data Keeps
read_sensor_data-Keeps id s =
    sensor_result-SamePos s (read_data id current_location_h 13 s)
      (read_data-Keeps id current_location_h 13 s)

side_reading-SamePos :
    (s : Rsbl) (r : Result (Option RsblData)) → SamePos s (final r) → SamePos s (side_reading r).1
side_reading-SamePos s (ok none t) h = h
side_reading-SamePos s (ok (some d) t) h = h
side_reading-SamePos s (err e t) h = h

mapped-SamePos :
    (s : Rsbl) (tracked : ℤ) (r : Result (Option RsblData))
    → SamePos s (final r)
    → SamePos s (final (bind_result r (λ reading t. ok (with_angle_from tracked reading) t)))
mapped-SamePos s tracked (ok d t) h = h
mapped-SamePos s tracked (err e t) h = h

pub read_side-SamePos : (side : Side) (s : Rsbl) → SamePos s (read_side side s).1
unfolding read_side read_steering_data Keeps
read_side-SamePos side s = side_reading-SamePos s (read_steering_data side s) (
    mapped-SamePos s (tracked_pos side s) (read_sensor_data (side_id side) s)
      (read_sensor_data-Keeps (side_id side) s))

started-SamePos :
    (s : Rsbl) (p : Option RsblError × Rsbl) → SamePos s p.1 → SamePos s (final (started p.0 p.1))
started-SamePos s (none, t) h = h
started-SamePos s (some e, t) h = h

-- The startup sequence keeps the positions, when resetting the port does.
pub startup_sequence-SamePos :
    (reset : Rsbl → Rsbl) (s : Rsbl)
    → ((t : Rsbl) → SamePos t (reset t))
    → SamePos s (final (startup_sequence reset s))
unfolding startup_sequence
startup_sequence-SamePos reset s keeps =
    let cleared = attempt clear_ringbuffer (none, reset s) in
    let again : Option RsblError × Rsbl = (cleared.0, reset cleared.1) in
    let one = attempt (move_steps (side_id left) (pos 0) full_speed) again in
    let two = attempt (move_steps (side_id right) (pos 0) full_speed) one in
    let last = final (started two.0 two.1) in
    SamePos-trans s (reset s) last (keeps s) (
      SamePos-trans (reset s) cleared.1 last
        (attempt-SamePos clear_ringbuffer (none, reset s) clear_ringbuffer-Keeps)
        (SamePos-trans cleared.1 (reset cleared.1) last (keeps cleared.1) (
          SamePos-trans (reset cleared.1) one.1 last
            (attempt-SamePos (move_steps (side_id left) (pos 0) full_speed) again
              (move_steps-Keeps (side_id left) (pos 0) full_speed))
            (started-SamePos one.1 two (
              attempt-SamePos (move_steps (side_id right) (pos 0) full_speed) one
                (move_steps-Keeps (side_id right) (pos 0) full_speed))))))

-- Where a servo may be tracked after it was sent to `target`.
abbrev pub Toward : ℤ → ℤ → ℤ → Type 0
Toward target before after = (after ≡ before) ⊎ (after ≡ target)

then_right :
    (l r : ℤ) (s t : Rsbl)
    → (t.left_pos ≡ l)
    → (t.right_pos ≡ s.right_pos)
    → (u : Result (Unit {0})) → ((final u).right_pos ≡ r) × ((final u).left_pos ≡ t.left_pos)
    → ((final (bind_result u (λ _ x. ok tt x))).left_pos ≡ l)
      × Toward r s.right_pos (final (bind_result u (λ _ x. ok tt x))).right_pos
then_right l r s t p q (ok _ x) h = (h.1 ∙ p, inr h.0)
then_right l r s t p q (err e x) h = (h.1 ∙ p, inr h.0)

then_both :
    (l r : ℤ) (s : Rsbl) (u : Result (Unit {0}))
    → ((final u).left_pos ≡ l) × ((final u).right_pos ≡ s.right_pos)
    → let both = bind_result u (λ _ t. bind_result (move_absolute right r t) (λ _ x. ok tt x)) in
      ((final both).left_pos ≡ l) × Toward r s.right_pos (final both).right_pos
then_both l r s (ok _ t) h =
    then_right l r s t h.0 h.1 (move_absolute right r t) (move_absolute-tracks right r t)
then_both l r s (err e t) h = (h.0, inl h.1)

-- Steering both tracks the left one at its target, and the right one there or, when the left move
-- failed, as before.
pub steer_parachutes-tracks :
    (l r : ℤ) (s : Rsbl)
    → ((final (steer_parachutes l r s)).left_pos ≡ l)
      × Toward r s.right_pos (final (steer_parachutes l r s)).right_pos
unfolding steer_parachutes
steer_parachutes-tracks l r s =
    then_both l r s (move_absolute left l s) (move_absolute-tracks left l s)
