-- ===== src/Dpr/Regulation.antt =====
-- When the regulator opens its valve.
use asteria_firmware.Prelude.{
  ℕ, ◌≡◌, refl, ap, ◌∙◌, ◌↔◌, Bool, true, false, inl, inr, List, [], ◌∷◌, Option, none, some, All,
  if◌then◌else◌, arith, ◌⊎◌,
}
use asteria_firmware.Dpr.{
  Float, LoopState, active_nominal, active_over_pressure, passive, DprValve, enabled, disabled,
  Round, Dpr, GainInfo, configured, tuned, metered, limited, entering, opened, update_state,
  update_pid, update_pressure, handle_overpressure, step_bang, dpr_round, rounds,
}

module _ (f : Float) where
  opened_iff :
      (l : LoopState) (s : Dpr f)
      → (opened f l s ≡ true) ↔ ((l ≡ active_nominal) × (f.lt s.pressure s.pid.setpoint ≡ true))
  opened_iff active_nominal s = ground arith
  opened_iff active_over_pressure s = ground arith
  opened_iff passive s = ground arith

  -- `step_bang` opens the valve in the nominal state below the setpoint, and only there.
  step_bang-opens :
      (s : Dpr f)
      → ((step_bang f s).valve ≡ true)
        ↔ ((s.loop_state ≡ active_nominal) × (f.lt s.pressure s.pid.setpoint ≡ true))
  unfolding step_bang
  step_bang-opens s = opened_iff s.loop_state s

  abbrev Asymmetric : Type 0
  Asymmetric = (x y : f.Carrier) → f.lt x y ≡ true → f.lt y x ≡ false

  over-within :
      (s : Dpr f) (b : Bool)
      → f.lt f.safety_limit_barg s.pressure ≡ b
      → let t = if b then entering f active_over_pressure s else s in
        t.loop_state ≡ active_nominal → f.lt f.safety_limit_barg t.pressure ≡ false
  over-within s true e h = absurd cc
  over-within s false e h = e

  under-within :
      (s : Dpr f) (b : Bool)
      → Asymmetric
      → f.lt s.pressure f.safety_limit_barg ≡ b
      → s.loop_state ≡ active_over_pressure
      → let t = if b then entering f active_nominal s else s in
        t.loop_state ≡ active_nominal → f.lt f.safety_limit_barg t.pressure ≡ false
  under-within s true asym e l h = asym s.pressure f.safety_limit_barg e
  under-within s false asym e l h = absurd cc

  -- What `handle_overpressure` leaves: in the nominal state the pressure is within the limit.
  limited-within :
      (l : LoopState) (s : Dpr f)
      → Asymmetric
      → s.loop_state ≡ l
      → (limited f l s).loop_state ≡ active_nominal
      → f.lt f.safety_limit_barg (limited f l s).pressure ≡ false
  limited-within active_nominal s asym e h =
      over-within s (f.lt f.safety_limit_barg s.pressure) refl h
  limited-within active_over_pressure s asym e h =
      under-within s (f.lt s.pressure f.safety_limit_barg) asym refl e h
  limited-within passive s asym e h = absurd cc

  -- After every round, whatever the state before and the messages: the valve is open exactly when
  -- the regulator is in its nominal state, the pressure below the setpoint, and the pressure not above
  -- the safety limit. Comparison of floats is taken to be asymmetric.
  pub dpr_round-valve :
      (r : Round f) (s : Dpr f)
      → ((x y : f.Carrier) → f.lt x y ≡ true → f.lt y x ≡ false)
      → let t = dpr_round f r s in
        (t.valve ≡ true) ↔ (
          (t.loop_state ≡ active_nominal)
          × (f.lt t.pressure t.pid.setpoint ≡ true)
          × (f.lt f.safety_limit_barg t.pressure ≡ false))
  unfolding dpr_round step_bang handle_overpressure
  dpr_round-valve r s asym =
      let metered = update_pressure f r (update_pid f r (update_state f r s)) in
      let limited = handle_overpressure f metered in
      let (opens, shuts) = opened_iff limited.loop_state limited in
      (
        λ h.
            let (nominal, below) = opens h in
            (nominal, below, limited-within metered.loop_state metered asym refl nominal),
        λ (nominal, below, within). shuts (nominal, below),
      )

  -- A message that does not enable the regulator.
  abbrev pub KeepsOff : Round f → Type 0
  KeepsOff r = (r.control ≡ none) ⊎ (r.control ≡ some disabled)

  abbrev pub IsOff : Dpr f → Type 0
  IsOff s = (s.loop_state ≡ passive) × (s.valve ≡ false)

  tuned-state : (g : Option (GainInfo f)) (s : Dpr f) → (tuned f g s).loop_state ≡ s.loop_state
  tuned-state none s = refl
  tuned-state (some g) s = refl

  measured-state :
      (b : Bool) (p : f.Carrier) (s : Dpr f)
      → (if b then record s { pressure = p } else s).loop_state ≡ s.loop_state
  measured-state true p s = refl
  measured-state false p s = refl

  metered-state : (m : Option f.Carrier) (s : Dpr f) → (metered f m s).loop_state ≡ s.loop_state
  metered-state none s = refl
  metered-state (some p) s = measured-state (f.is_finite p) p s

  -- In the passive state a round ends with the valve shut.
  passive_end :
      (l : LoopState) (s : Dpr f)
      → l ≡ passive
      → s.loop_state ≡ l
      → IsOff
          (record (limited f l s) { valve = opened f (limited f l s).loop_state (limited f l s) })
  passive_end active_nominal s e h = absurd cc
  passive_end active_over_pressure s e h = absurd cc
  passive_end passive s e h = (h, ap (λ l. opened f l s) h)

  configured_off :
      (c : Option (DprValve f)) (now : ℕ) (s : Dpr f)
      → (c ≡ none) ⊎ (c ≡ some disabled)
      → ((s.loop_state ≡ passive) ⊎ (c ≡ some disabled))
      → (configured f c now s).loop_state ≡ passive
  configured_off none now s k (inl h) = h
  configured_off none now s k (inr h) = absurd cc
  configured_off (some disabled) now s k h = refl
  configured_off (some (enabled x)) now s (inl h) w = absurd cc
  configured_off (some (enabled x)) now s (inr h) w = absurd cc

  dpr_round-IsOff :
      (r : Round f) (s : Dpr f)
      → KeepsOff r
      → ((s.loop_state ≡ passive) ⊎ (r.control ≡ some disabled))
      → IsOff (dpr_round f r s)
  unfolding dpr_round step_bang handle_overpressure update_pressure update_pid update_state
  dpr_round-IsOff r s keeps off =
      let s1 = configured f r.control r.now s in
      let s2 = tuned f r.gains s1 in
      let s3 = metered f r.measured s2 in
      passive_end s3.loop_state s3
        (metered-state r.measured s2
          ∙ tuned-state r.gains s1
          ∙ configured_off r.control r.now s keeps off)
        refl

  dpr_rounds-IsOff :
      (rs : List (Round f)) (s : Dpr f) → All KeepsOff rs → IsOff s → IsOff (rounds f rs s)
  dpr_rounds-IsOff [] s keeps off = off
  dpr_rounds-IsOff (r ∷ rest) s keeps off =
      dpr_rounds-IsOff rest (dpr_round f r s) keeps.1 (dpr_round-IsOff r s keeps.0 (inl off.0))

  -- From the round that receives the message `Disabled` on, until a message enables it again, the
  -- regulator is passive and its valve shut behind every round, whatever is measured and tuned.
  pub rounds-IsOff :
      (r : Round f) (rs : List (Round f)) (s : Dpr f)
      → r.control ≡ some disabled
      → All (λ x. (x.control ≡ none) ⊎ (x.control ≡ some disabled)) rs
      → ((rounds f rs (dpr_round f r s)).loop_state ≡ passive)
        × ((rounds f rs (dpr_round f r s)).valve ≡ false)
  rounds-IsOff r rs s off keeps =
      dpr_rounds-IsOff rs (dpr_round f r s) keeps (dpr_round-IsOff r s (inr off) (inr off))
