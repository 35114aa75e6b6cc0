-- ===== src/Circuit/Invariant.antt =====
-- execution/circuit_breaker.py: what is true of a breaker in every state that it can reach.
use quantluna.Prelude.{ℕ, ◌≤◌, ◌<◌, ◌≢◌, List, [], ◌∷◌, none, arith}
use quantluna.Circuit.{
  CircuitState, Breaker, Config, closed, open_, half_open, Event, entered, enter, apply, run,
}

abbrev pub IsValidAt : CircuitState → Config → Breaker → Type 0
IsValidAt closed cfg b = b.failures < cfg.failure_threshold
IsValidAt open_ cfg b = b.last_opened ≢ none
IsValidAt half_open cfg b = b.half_calls ≤ cfg.half_open_max_calls

abbrev pub IsValid : Config → Breaker → Type 0
IsValid cfg b = IsValidAt b.state cfg b

module _ (cfg : Config) (positive : 0 < cfg.failure_threshold) where
  pub enter-IsValid : (now : ℕ) (b : Breaker) → IsValid cfg b → IsValid cfg (enter cfg now b).0
  unfolding enter
  enter-IsValid now b v = ground arith

  pub apply-IsValid : (e : Event) (b : Breaker) → IsValid cfg b → IsValid cfg (apply cfg e b)
  unfolding apply
  apply-IsValid (entered now) b v = ground arith
  apply-IsValid e b v = ground arith

  -- In every state that a new breaker reaches, whatever the calls and their order: an open circuit
  -- has the time of its opening, a closed one has fewer failures than the threshold, and a
  -- half-open one has handed out no more probes than allowed. The threshold is above 0.
  pub run-IsValid : (es : List Event) (b : Breaker) → IsValid cfg b → IsValid cfg (run cfg es b)
  unfolding run
  run-IsValid [] b v = v
  run-IsValid (e ∷ es) b v = run-IsValid es (apply cfg e b) (apply-IsValid e b v)
