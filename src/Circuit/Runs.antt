-- ===== src/Circuit/Runs.antt =====
-- execution/circuit_breaker.py: runs of calls one after another.
use quantluna.Prelude.{ℕ, ◌+◌, ◌≤◌, ◌<◌, ◌≡◌, refl, true, false, List, [], ◌∷◌, some, arith, length}
use quantluna.Circuit.{Breaker, Config, closed, open_, call, fresh, opened_at}

-- Calls that fail, each entered and left at the times of a pair.
pub failing_calls : Config → List (ℕ × ℕ) → Breaker → Breaker
failing_calls cfg [] b = b
failing_calls cfg ((start, end) ∷ ts) b = failing_calls cfg ts (call cfg start end false b)

call_closed :
    (cfg : Config) (start end : ℕ) (b : Breaker)
    → b.state ≡ closed
    → b.failures + 1 < cfg.failure_threshold
    → let b' = call cfg start end false b in (b'.state ≡ closed) × (b'.failures ≡ b.failures + 1)
unfolding call
call_closed cfg start end b h few = ground arith

call_trips :
    (cfg : Config) (start end : ℕ) (b : Breaker)
    → b.state ≡ closed
    → cfg.failure_threshold ≤ b.failures + 1
    → let b' = call cfg start end false b in (b'.state ≡ open_) × (b'.last_opened ≡ some end)
unfolding call
call_trips cfg start end b h many = ground arith

module _ (cfg : Config) where
  failing_calls_closed :
      (ts : List (ℕ × ℕ)) (b : Breaker)
      → b.state ≡ closed
      → b.failures + length ts < cfg.failure_threshold
      → let b' = failing_calls cfg ts b in
        (b'.state ≡ closed) × (b'.failures ≡ b.failures + length ts)
  unfolding failing_calls
  failing_calls_closed [] b h few = (h, omega arith)
  failing_calls_closed ((start, end) ∷ ts) b h few =
      let (kept, counted) = call_closed cfg start end b h (omega arith) in
      let (still, total) =
        failing_calls_closed ts (call cfg start end false b) kept (omega arith) in
      (still, omega arith)

  -- A new breaker stays closed for as long as the failed calls in a row are fewer than the
  -- threshold, and the call that reaches the threshold opens it, at the time when that call ends.
  pub failing_calls-open :
      (ts : List (ℕ × ℕ)) (start end : ℕ)
      → length ts + 1 ≡ cfg.failure_threshold
      → let before = failing_calls cfg ts fresh in
        let after = call cfg start end false before in
        (before.state ≡ closed) × (after.state ≡ open_) × (after.last_opened ≡ some end)
  failing_calls-open ts start end h =
      let (still, counted) = failing_calls_closed ts fresh refl (omega arith) in
      let (tripped, stamped) =
        call_trips cfg start end (failing_calls cfg ts fresh) still (omega arith) in
      (still, tripped, stamped)

-- An open circuit recovers by the first call after the timeout, if half-open calls are allowed: if
-- it succeeds the circuit is closed with no failures counted, and if it fails the circuit is open
-- again and the timeout runs from the end of that call.
pub call_recovers :
    (cfg : Config) (start end : ℕ) (b : Breaker)
    → b.state ≡ open_
    → opened_at b.last_opened + cfg.recovery_timeout ≤ start
    → 0 < cfg.half_open_max_calls
    → let good = call cfg start end true b in
      let bad = call cfg start end false b in
      (good.state ≡ closed)
      × (good.failures ≡ 0)
      × (bad.state ≡ open_)
      × (bad.last_opened ≡ some end)
unfolding call
call_recovers cfg start end b h due slots = ground arith
