-- ===== src/Dpr/Examples.antt =====
-- Concrete runs of the pressure regulator, with whole numbers for the floats.
use asteria_firmware.Prelude.{ℕ, ◌≡◌, refl, ◌↔◌, arith, true, false, [], ◌∷◌, none, some, ltb, inl}
use asteria_firmware.Dpr.{
  Float, active_nominal, passive, enabled, disabled, PidGain, Round, Dpr, new, dpr_round, rounds,
}
use asteria_firmware.Dpr.Regulation.{dpr_round-valve, rounds-IsOff}

abbrev whole : Float
whole = record { Carrier = ℕ; zero = 0; lt = ltb; is_finite = λ _. true; safety_limit_barg = 52 }

abbrev ten : PidGain whole
ten = record { p = 10; i = 0; d = 0 }

abbrev first_state : Dpr whole
first_state = new whole true ten 25 500 0

abbrev enabling : Round whole
enabling = record { control = some (enabled 40); gains = none; measured = some 30; now = 5 }

abbrev disabling : Round whole
disabling = record { control = some disabled; gains = none; measured = some 30; now = 6 }

abbrev measuring : Round whole
measuring = record { control = none; gains = none; measured = some 20; now = 7 }

dpr_round-valve_example :
    let t = dpr_round whole enabling first_state in
    (t.valve ≡ true) ↔ (
      (t.loop_state ≡ active_nominal)
      × (ltb t.pressure t.pid.setpoint ≡ true)
      × (ltb 52 t.pressure ≡ false))
dpr_round-valve_example = dpr_round-valve whole enabling first_state (λ x y h. ground arith)

rounds-IsOff_example :
    ((rounds whole (measuring ∷ measuring ∷ []) (dpr_round whole disabling first_state)).loop_state
      ≡ passive)
    × ((rounds whole (measuring ∷ measuring ∷ []) (dpr_round whole disabling first_state)).valve
        ≡ false)
rounds-IsOff_example =
    rounds-IsOff whole disabling (measuring ∷ measuring ∷ []) first_state refl
      (inl refl, (inl refl, tt))
