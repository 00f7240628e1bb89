-- ===== src/Dpr.antt =====
-- The digital pressure regulator (crates/devices/dpr/src): its state, and one round of the loop of
-- `pid_controller` as a function of the messages that the round finds.
pub mod Regulation
mod Examples
use asteria_firmware.Prelude.{
  ℕ, Bool, true, false, List, [], ◌∷◌, ◌++◌, Option, none, some, if◌then◌else◌,
}

-- What the regulator uses of `f32`.
pub record Float : Type 1 where
  pub Carrier : Type 0
  pub zero : Carrier
  pub lt : Carrier → Carrier → Bool
  pub is_finite : Carrier → Bool
  -- `SAFETY_LIMIT_BARG`.
  pub safety_limit_barg : Carrier

-- `DprLoopInfo`, whose variants the code matches on.
pub data LoopState : Type 0 where
  active_nominal active_over_pressure passive : LoopState

module _ (f : Float) where
  pub data DprValve : Type 0 where
    enabled : f.Carrier → DprValve
    disabled : DprValve

  pub record PidGain : Type 0 where
    pub p : f.Carrier
    pub i : f.Carrier
    pub d : f.Carrier

  pub record PidError : Type 0 where
    pub p : f.Carrier
    pub i : f.Carrier
    pub d : f.Carrier
    pub prev_p : f.Carrier

  pub record Pid : Type 0 where
    pub error : PidError
    pub gain : PidGain
    pub setpoint : f.Carrier
    pub min_ms : f.Carrier
    pub max_ms : f.Carrier

  -- The message of new gains, `DprGainInfo`.
  pub record GainInfo : Type 0 where
    pub gain : PidGain
    pub min_ms : f.Carrier
    pub max_ms : f.Carrier

  -- `DPR`: `valve` is the level of the pin, `sent` what went to the status channel.
  pub record Dpr : Type 0 where
    pub valve : Bool
    pub pid : Pid
    pub loop_state : LoopState
    pub pressure : f.Carrier
    pub last_time : ℕ
    pub sent : List LoopState

  -- What a round meets: the messages that its receivers find changed, and the clock.
  pub record Round : Type 0 where
    pub control : Option DprValve
    pub gains : Option GainInfo
    pub measured : Option f.Carrier
    pub now : ℕ

  abbrev pub no_error : PidError
  no_error = record { p = f.zero; i = f.zero; d = f.zero; prev_p = f.zero }

  -- `DPR::new`, with the level of the pin, and the gains and limits that it passes to `PID::new`.
  unfoldable pub new : Bool → PidGain → f.Carrier → f.Carrier → ℕ → Dpr
  new valve gain min_ms max_ms now = record {
    valve = valve;
    pid = record {
      error = no_error;
      gain = gain;
      setpoint = f.zero;
      min_ms = min_ms;
      max_ms = max_ms;
    };
    loop_state = passive;
    pressure = f.zero;
    last_time = now;
    sent = [];
  }

  abbrev pub enable : f.Carrier → Dpr → Dpr
  enable setpoint s = record s {
    pid = record s.pid { setpoint = setpoint };
    loop_state = active_nominal;
  }

  abbrev pub disable : Dpr → Dpr
  disable s = record s { loop_state = passive }

  abbrev pub reset : ℕ → Dpr → Dpr
  reset now s = record s { pid = record s.pid { error = no_error }; last_time = now }

  abbrev pub send : Dpr → Dpr
  send s = record s { sent = s.sent ++ s.loop_state ∷ [] }

  abbrev pub configured : Option DprValve → ℕ → Dpr → Dpr
  configured none now s = s
  configured (some (enabled setpoint)) now s = send (reset now (enable setpoint s))
  configured (some disabled) now s = send (disable s)

  unfoldable pub update_state : Round → Dpr → Dpr
  update_state r s = configured r.control r.now s

  abbrev pub tuned : Option GainInfo → Dpr → Dpr
  tuned none s = s
  tuned (some g) s = record s {
    pid = record s.pid { gain = g.gain; min_ms = g.min_ms; max_ms = g.max_ms };
  }

  unfoldable pub update_pid : Round → Dpr → Dpr
  update_pid r s = tuned r.gains s

  abbrev pub metered : Option f.Carrier → Dpr → Dpr
  metered none s = s
  metered (some p) s = if f.is_finite p then record s { pressure = p } else s

  unfoldable pub update_pressure : Round → Dpr → Dpr
  update_pressure r s = metered r.measured s

  abbrev pub entering : LoopState → Dpr → Dpr
  entering l s = send (record s { loop_state = l })

  abbrev pub limited : LoopState → Dpr → Dpr
  limited active_nominal s =
      if f.lt f.safety_limit_barg s.pressure then entering active_over_pressure s else s
  limited active_over_pressure s =
      if f.lt s.pressure f.safety_limit_barg then entering active_nominal s else s
  limited passive s = s

  unfoldable pub handle_overpressure : Dpr → Dpr
  handle_overpressure s = limited s.loop_state s

  -- The level that `step_bang` drives the pin to.
  abbrev pub opened : LoopState → Dpr → Bool
  opened active_nominal s = if f.lt s.pressure s.pid.setpoint then true else false
  opened active_over_pressure s = false
  opened passive s = false

  unfoldable pub step_bang : Dpr → Dpr
  step_bang s = record s { valve = opened s.loop_state s }

  -- The body of the loop.
  unfoldable pub dpr_round : Round → Dpr → Dpr
  dpr_round r s =
      step_bang (handle_overpressure (update_pressure r (update_pid r (update_state r s))))

  abbrev pub rounds : List Round → Dpr → Dpr
  rounds [] s = s
  rounds (r ∷ rest) s = rounds rest (dpr_round r s)
