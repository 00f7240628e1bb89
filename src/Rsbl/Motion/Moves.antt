-- ===== src/Rsbl/Motion/Moves.antt =====
-- How `move_absolute` splits a distance into moves that one command can carry, and what a repetition
-- of it sends.
use asteria_firmware.Prelude.{ℕ, ◌≤◌, ◌≡◌, refl, List, [], ◌∷◌, Option, some, none, All}
use asteria_firmware.Prelude.Int.{ℤ, pos, ◌+ℤ◌, ◌-ℤ◌, int_laws}
use asteria_firmware.Words.{wrap_i16, wrap_i32, magnitude, as_u32, as_i32, as_i16}
use asteria_firmware.Rsbl.Bus.{RsblError, Rsbl, Result, ok, err, final}
use asteria_firmware.Rsbl.Motion.{
  Side, side_id, tracked_pos, move_steps, attempt, move_loop, move_absolute, finish, full_speed,
}
use asteria_firmware.Rsbl.Motion.Keeps.{move_absolute-tracks}

-- The error of a move, if it failed, and otherwise the one before.
abbrev pub last_error : Option RsblError → Result (Unit {0}) → Option RsblError
last_error before (ok _ s) = before
last_error before (err e s) = some e

-- The moves of a list: each is sent on the bus as the one before it left it, failed or not, and the
-- error is that of the last one that failed.
abbrev pub attempt_all : ℕ → List ℤ → Option RsblError × Rsbl → Option RsblError × Rsbl
attempt_all id [] p = p
attempt_all id (m ∷ moves) p =
    attempt_all id moves
      (last_error p.0 (move_steps id m full_speed p.1), final (move_steps id m full_speed p.1))

abbrev pub total : List ℤ → ℤ
total [] = pos 0
total (m ∷ moves) = m +ℤ total moves

abbrev pub OneCommand : ℤ → Type 0
OneCommand m = magnitude m ≤ 32766

-- The moves that carry out a distance, and how they are attempted.
abbrev IsSplit : ℕ → ℤ → (Option RsblError × Rsbl → Option RsblError × Rsbl) → List ℤ → Type 0
IsSplit id steps run moves =
    All OneCommand moves
    × (total moves ≡ steps)
    × ((p : Option RsblError × Rsbl) → run p ≡ attempt_all id moves p)

zero_distance : (z : ℤ) → z -ℤ z ≡ pos 0
zero_distance z = omega int_laws

-- With the target reached, by the record, one move of 0 steps is attempted.
at_target :
    (side : Side) (target : ℤ) (t : Rsbl)
    → tracked_pos side t ≡ target
    → move_absolute side target t
      ≡ finish side target (attempt (move_steps (side_id side) (pos 0) full_speed) (none, t))
unfolding move_absolute move_loop wrap_i16 wrap_i32 as_u32 as_i32 as_i16
at_target side target t at = rw (at, zero_distance target) refl

-- After an absolute move, failed or not, the same move again attempts a single move of 0 steps: it
-- does not make up for a move that failed, and its result is that of the empty move.
move_absolute-again :
    (side : Side) (target : ℤ) (s : Rsbl)
    → move_absolute side target (final (move_absolute side target s))
      ≡ finish side target (
          attempt
            (move_steps (side_id side) (pos 0) full_speed)
            (none, final (move_absolute side target s)))
move_absolute-again side target s =
    at_target side target (final (move_absolute side target s))
      (move_absolute-tracks side target s).0
