-- ===== src/Circuit/Tests.antt =====
-- execution/circuit_breaker.py: runs of the model, and each theorem at an input.
use quantluna.Prelude.{◌≤◌, ◌≡◌, refl, true, false, some, [], ◌∷◌, arith}
use quantluna.Circuit.{
  Breaker, Config, closed, open_, half_open, entered, left, failure_recorded, fresh, enter, leave,
  call, is_available, run,
}
use quantluna.Circuit.Invariant.{IsValid, run-IsValid}
use quantluna.Circuit.Probes.{is_available-enter, admissions, admissions-le}
use quantluna.Circuit.Runs.{failing_calls, failing_calls-open, call_recovers}

abbrev cfg : Config
cfg = record { failure_threshold = 3; recovery_timeout = 60; half_open_max_calls = 1 }

abbrev tripped : Breaker
tripped = record { state = open_; failures = 3; last_opened = some 100; half_calls = 0 }

events_run :
    run cfg
      (failure_recorded 1 ∷ failure_recorded 2 ∷ failure_recorded 9 ∷ entered 30 ∷ entered 69 ∷ [])
      fresh
    ≡ record { state = half_open; failures = 3; last_opened = some 9; half_calls = 1 }
unfolding run
events_run = refl

-- A call that began before the circuit opened closes it when it ends well, before the timeout.
stale_success : (leave cfg 101 true tripped).state ≡ closed
unfolding leave
stale_success = refl

run-IsValid_example :
    IsValid cfg (run cfg (failure_recorded 1 ∷ left 2 false ∷ left 3 false ∷ entered 70 ∷ []) fresh)
run-IsValid_example =
    run-IsValid cfg (omega arith)
      (failure_recorded 1 ∷ left 2 false ∷ left 3 false ∷ entered 70 ∷ []) fresh (omega arith)

is_available-enter_example : is_available cfg 159 tripped ≡ (enter cfg 159 tripped).1
is_available-enter_example = is_available-enter cfg 159 tripped (omega arith)

admissions-le_example : admissions cfg (110 ∷ 160 ∷ 161 ∷ 162 ∷ []) tripped ≤ 1
admissions-le_example = admissions-le cfg (110 ∷ 160 ∷ 161 ∷ 162 ∷ []) tripped refl

failing_calls-open_example :
    let before = failing_calls cfg ((0, 1) ∷ (2, 3) ∷ []) fresh in
    (before.state ≡ closed)
    × ((call cfg 4 5 false before).state ≡ open_)
    × ((call cfg 4 5 false before).last_opened ≡ some 5)
failing_calls-open_example = failing_calls-open cfg ((0, 1) ∷ (2, 3) ∷ []) 4 5 refl

call_recovers_example :
    ((call cfg 160 170 true tripped).state ≡ closed)
    × ((call cfg 160 170 true tripped).failures ≡ 0)
    × ((call cfg 160 170 false tripped).state ≡ open_)
    × ((call cfg 160 170 false tripped).last_opened ≡ some 170)
call_recovers_example = call_recovers cfg 160 170 tripped refl (omega arith) (omega arith)
