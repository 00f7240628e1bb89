-- ===== src/Recovery/Cats/Order.antt =====
-- What is reported over the cycles of the pin.
use asteria_firmware.Prelude.{true, false, List, [], ◌∷◌, ◌++◌, ◌≡◌, refl, ap, ◌∙◌, All}
use asteria_firmware.Recovery.Cats.{
  DeploymentState, unarmed, not_yet_deployed, deployed, Phase, awaiting_power, awaiting_release,
  settling, awaiting_disarm, PinEvent, low, high, settled, react, sends, detect,
}

abbrev pub NotLow : PinEvent → Type 0
NotLow low = ⊥
NotLow high = Unit {0}
NotLow (settled is_high) = Unit {0}

abbrev pub NotHigh : PinEvent → Type 0
NotHigh low = Unit {0}
NotHigh high = ⊥
NotHigh (settled is_high) = Unit {0}

abbrev pub NotSettled : PinEvent → Type 0
NotSettled low = Unit {0}
NotSettled high = Unit {0}
NotSettled (settled is_high) = ⊥

-- One cycle of the pin, with what is to be reported: it goes low and then high, and the 20 ms pass.
-- With the pin still high the flight computer was switched off. With the pin low again a pyro channel
-- was fired, and the cycle ends when the pin goes high.
pub data Cycle : List PinEvent → List DeploymentState → Type 0 where
  switched_off :
      (idle armed bounces : List PinEvent)
      → All NotLow idle
      → All NotHigh armed
      → All NotSettled bounces
      → Cycle
          (idle ++ (low ∷ (armed ++ (high ∷ (bounces ++ (settled true ∷ []))))))
          (not_yet_deployed ∷ unarmed ∷ [])
  fired :
      (idle armed bounces burning : List PinEvent)
      → All NotLow idle
      → All NotHigh armed
      → All NotSettled bounces
      → All NotHigh burning
      → Cycle
          (idle
            ++ (low ∷ (armed ++ (high ∷ (bounces ++ (settled false ∷ (burning ++ (high ∷ []))))))))
          (not_yet_deployed ∷ deployed ∷ unarmed ∷ [])

-- Any number of cycles, and then a pin that does not go low.
pub data Cycles : List PinEvent → List DeploymentState → Type 0 where
  at_rest : (idle : List PinEvent) → All NotLow idle → Cycles idle []
  then_cycles :
      {events more : List PinEvent} {reports others : List DeploymentState}
      → Cycle events reports
      → Cycles more others
      → Cycles (events ++ more) (reports ++ others)

-- Events that the task does not wait for.
skip :
    (Quiet : PinEvent → Type 0) (phase : Phase)
    → ((event : PinEvent) → Quiet event → react phase event ≡ (phase, []))
    → (noise events rest : List PinEvent) → All Quiet noise
    → sends phase ((noise ++ events) ++ rest) ≡ sends phase (events ++ rest)
unfolding sends
skip Quiet phase still [] events rest quiet = refl
skip Quiet phase still (event ∷ noise) events rest quiet =
    rw (still event quiet.0) (skip Quiet phase still noise events rest quiet.1)

powered : (event : PinEvent) → NotLow event → react awaiting_power event ≡ (awaiting_power, [])
unfolding react
powered low h = absurd h
powered high h = refl
powered (settled is_high) h = refl

release_awaited :
    (event : PinEvent) → NotHigh event → react awaiting_release event ≡ (awaiting_release, [])
unfolding react
release_awaited low h = refl
release_awaited high h = absurd h
release_awaited (settled is_high) h = refl

unsettled : (event : PinEvent) → NotSettled event → react settling event ≡ (settling, [])
unfolding react
unsettled low h = refl
unsettled high h = refl
unsettled (settled is_high) h = absurd h

burning_on :
    (event : PinEvent) → NotHigh event → react awaiting_disarm event ≡ (awaiting_disarm, [])
unfolding react
burning_on low h = refl
burning_on high h = absurd h
burning_on (settled is_high) h = refl

sends-Cycle :
    {events : List PinEvent} {reports : List DeploymentState}
    → Cycle events reports
    → (rest : List PinEvent)
    → sends awaiting_power (events ++ rest) ≡ reports ++ sends awaiting_power rest
unfolding sends react
sends-Cycle (switched_off idle armed bounces h k l) rest =
    skip NotLow awaiting_power powered idle _ rest h
    ∙ ap (◌∷◌ not_yet_deployed) (
        skip NotHigh awaiting_release release_awaited armed _ rest k
        ∙ skip NotSettled settling unsettled bounces _ rest l)
sends-Cycle (fired idle armed bounces burning h k l m) rest =
    skip NotLow awaiting_power powered idle _ rest h
    ∙ ap (◌∷◌ not_yet_deployed) (
        skip NotHigh awaiting_release release_awaited armed _ rest k
        ∙ skip NotSettled settling unsettled bounces _ rest l
        ∙ ap (◌∷◌ deployed) (skip NotHigh awaiting_disarm burning_on burning _ rest m))

sends-idle : (idle : List PinEvent) → All NotLow idle → sends awaiting_power idle ≡ []
unfolding sends
sends-idle [] h = refl
sends-idle (event ∷ idle) h = rw (powered event h.0) (sends-idle idle h.1)

sends-Cycles :
    {events : List PinEvent} {reports : List DeploymentState}
    → Cycles events reports
    → sends awaiting_power events ≡ reports
sends-Cycles (at_rest idle h) = sends-idle idle h
sends-Cycles (then_cycles {more = more} {reports = reports} first others) =
    sends-Cycle first more ∙ ap (◌++◌ reports) (sends-Cycles others)

-- Over any cycles of the pin, the reports are "unarmed" and then those of the cycles in order: "not
-- yet deployed" when the pin goes low, "deployed" exactly when it is low again 20 ms after it went
-- high, and "unarmed" when it is still high then, or when it goes high after a deployment.
pub detect-cycles :
    {events : List PinEvent} {reports : List DeploymentState}
    → Cycles events reports
    → detect events ≡ unarmed ∷ reports
unfolding detect
detect-cycles h = ap (◌∷◌ unarmed) (sends-Cycles h)
