-- ===== src/Traffic/Breaker/Stuck.antt =====
-- core/bybit_traffic_controller.py: what becomes of a probe that fails.
use quantluna.Prelude.{ℕ, ◌≡◌, true, false, List, [], ◌∷◌, arith}
use quantluna.Traffic.Breaker.{Breaker, Config, record_error, try_half_open}

-- What a breaker is told between two successes: an error with its status, or a request for a probe.
pub data Report : Type 0 where
  error : ℕ → ℕ → Report
  probe : ℕ → Report

pub report : Config → Report → Breaker → Breaker
report cfg (error now status) b = record_error cfg now status b
report cfg (probe now) b = (try_half_open cfg now b).0

pub reports : Config → List Report → Breaker → Breaker
reports cfg [] b = b
reports cfg (r ∷ rs) b = reports cfg rs (report cfg r b)

pub record IsStuck (b : Breaker) : Type 0 where
  pub opened : b.is_open ≡ true
  pub probing : b.half_open ≡ true

pub record_error-IsStuck :
    (cfg : Config) (now status : ℕ) (b : Breaker)
    → IsStuck b
    → IsStuck (record_error cfg now status b)
unfolding record_error
record_error-IsStuck cfg now status b s = ground arith

report-IsStuck : (cfg : Config) (r : Report) (b : Breaker) → IsStuck b → IsStuck (report cfg r b)
unfolding report try_half_open
report-IsStuck cfg (error now status) b s = record_error-IsStuck cfg now status b s
report-IsStuck cfg (probe now) b s = ground arith

pub reports-IsStuck :
    (cfg : Config) (rs : List Report) (b : Breaker) → IsStuck b → IsStuck (reports cfg rs b)
unfolding reports
reports-IsStuck cfg [] b s = s
reports-IsStuck cfg (r ∷ rs) b s =
    reports-IsStuck cfg rs (report cfg r b) (report-IsStuck cfg r b s)

-- After one failed probe the breaker never asks for another: once an open circuit has let a probe
-- through, then, without a success, it refuses every later one, however long after the recovery
-- time and whatever errors were reported in between.
probe_once :
    (cfg : Config) (start later : ℕ) (rs : List Report) (b : Breaker)
    → b.is_open ≡ true
    → (try_half_open cfg start b).1 ≡ true
    → let after = reports cfg rs (try_half_open cfg start b).0 in
      try_half_open cfg later after ≡ (after, false)
unfolding try_half_open
probe_once cfg start later rs b opened allowed =
    let stuck : IsStuck (try_half_open cfg start b).0 = ground arith in
    ground (arith, reports-IsStuck cfg rs (try_half_open cfg start b).0 stuck)
