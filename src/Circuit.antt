-- ===== src/Circuit.antt =====
-- execution/circuit_breaker.py: the breaker that guards WebSocket and CCXT calls. A reading of
-- `time.monotonic()` is a whole number of clock ticks, and `elapsed >= timeout` is written
-- `last + timeout <= now`, which needs no negative numbers.
pub mod Invariant
pub mod Probes
pub mod Runs
mod Tests
use quantluna.Prelude.{
  ℕ, ◌+◌, ◌≡◌, refl, Bool, true, false, Option, none, some, List, [], ◌∷◌, leb, ltb, if◌then◌else◌,
}

pub data CircuitState : Type 0 where
  closed open_ half_open : CircuitState

pub record Config : Type 0 where
  pub failure_threshold : ℕ
  pub recovery_timeout : ℕ
  pub half_open_max_calls : ℕ

pub record Breaker : Type 0 where
  pub state : CircuitState
  pub failures : ℕ
  pub last_opened : Option ℕ
  pub half_calls : ℕ

-- `__init__`
abbrev pub fresh : Breaker
fresh = record { state = closed; failures = 0; last_opened = none; half_calls = 0 }

-- `self._last_opened or 0`
abbrev pub opened_at : Option ℕ → ℕ
opened_at none = 0
opened_at (some t) = t

pub is_due : Config → ℕ → Breaker → Bool
is_due cfg now b = leb (opened_at b.last_opened + cfg.recovery_timeout) now

-- The second guard of `__aenter__`: `false` is the raise of `CircuitOpenError`.
pub take_slot : Config → Breaker → Breaker × Bool
take_slot cfg b =
    if leb cfg.half_open_max_calls b.half_calls
    then (b, false)
    else (record b { half_calls = b.half_calls + 1 }, true)

enter_at : CircuitState → Config → ℕ → Breaker → Breaker × Bool
unfolding is_due take_slot
enter_at closed cfg now b = (b, true)
enter_at open_ cfg now b =
    if is_due cfg now b
    then take_slot cfg (record b { state = half_open; half_calls = 0 })
    else (b, false)
enter_at half_open cfg now b = take_slot cfg b

-- `__aenter__`, with `false` for `CircuitOpenError`
pub enter : Config → ℕ → Breaker → Breaker × Bool
unfolding enter_at
enter cfg now b = enter_at b.state cfg now b

abbrev pub trip : ℕ → Breaker → Breaker
trip now b = record b { state = open_; last_opened = some now }

failed_at : CircuitState → Config → ℕ → Breaker → Breaker
failed_at half_open cfg now b = trip now b
failed_at _ cfg now b = if leb cfg.failure_threshold b.failures then trip now b else b

-- `__aexit__`: `true` if the body raised no exception
pub leave : Config → ℕ → Bool → Breaker → Breaker
unfolding failed_at
leave cfg now true b = record b { state = closed; failures = 0 }
leave cfg now false b = failed_at b.state cfg now (record b { failures = b.failures + 1 })

pub record_success : Breaker → Breaker
record_success b = record b { state = closed; failures = 0 }

pub record_failure : Config → ℕ → Breaker → Breaker
record_failure cfg now b =
    let b' : Breaker = record b { failures = b.failures + 1 } in
    if leb cfg.failure_threshold b'.failures then trip now b' else b'

available_at : CircuitState → Config → ℕ → Breaker → Bool
unfolding is_due
available_at closed cfg now b = true
available_at open_ cfg now b = is_due cfg now b
available_at half_open cfg now b = ltb b.half_calls cfg.half_open_max_calls

pub is_available : Config → ℕ → Breaker → Bool
unfolding available_at
is_available cfg now b = available_at b.state cfg now b

pub reset : Breaker → Breaker
reset b = record b { state = closed; failures = 0; last_opened = none }

-- What may happen to a breaker, each with the clock's reading.
pub data Event : Type 0 where
  entered : ℕ → Event
  left : ℕ → Bool → Event
  success_recorded : Event
  failure_recorded : ℕ → Event
  was_reset : Event

pub apply : Config → Event → Breaker → Breaker
unfolding enter leave record_success record_failure reset
apply cfg (entered now) b = (enter cfg now b).0
apply cfg (left now fine) b = leave cfg now fine b
apply cfg success_recorded b = record_success b
apply cfg (failure_recorded now) b = record_failure cfg now b
apply cfg was_reset b = reset b

pub run : Config → List Event → Breaker → Breaker
unfolding apply
run cfg [] b = b
run cfg (e ∷ es) b = run cfg es (apply cfg e b)

-- `async with cb: body`, entered at `start` and left at `end`; a refused call runs no body.
pub call : Config → ℕ → ℕ → Bool → Breaker → Breaker
unfolding enter leave
call cfg start end fine b =
    let (b', admitted) = enter cfg start b in if admitted then leave cfg end fine b' else b'
