-- ===== src/Traffic/Breaker.antt =====
-- core/bybit_traffic_controller.py: `CircuitBreaker`, with half-open probing.
pub mod Window
pub mod Stuck
use quantluna.Prelude.{
  ℕ, ◌+◌, Bool, true, false, not, List, [], ◌∷◌, ◌++◌, ◌&&◌, ◌||◌, leb, ltb, length, if◌then◌else◌,
  ◌==◌,
}

-- The `cb_` fields of `TrafficConfig`.
pub record Config : Type 0 where
  pub threshold_429 : ℕ
  pub error_threshold : ℕ
  pub window : ℕ
  pub recovery : ℕ

pub record Breaker : Type 0 where
  pub is_open : Bool
  pub half_open : Bool
  pub error_times : List ℕ
  pub opened_at : ℕ

abbrev pub fresh : Breaker
fresh = record { is_open = false; half_open = false; error_times = []; opened_at = 0 }

-- `[t for t in times if t > now - window]`
pub prune : ℕ → ℕ → List ℕ → List ℕ
prune window now [] = []
prune window now (t ∷ ts) =
    let rest = prune window now ts in if ltb now (t + window) then t ∷ rest else rest

-- The two tests of `record_error` against the thresholds.
pub reaches : Config → ℕ → ℕ → Bool
reaches cfg status errors =
    ((status == 429) && leb cfg.threshold_429 errors) || leb cfg.error_threshold errors

unfoldable pub record_error : Config → ℕ → ℕ → Breaker → Breaker
record_error cfg now status b =
    let times = prune cfg.window now (b.error_times ++ (now ∷ [])) in
    let b' : Breaker = record b { error_times = times } in
    if not b.is_open && not b.half_open && reaches cfg status (length times)
    then record b' { is_open = true; opened_at = now }
    else b'

unfoldable pub try_half_open : Config → ℕ → Breaker → Breaker × Bool
try_half_open cfg now b =
    if not b.is_open
    then (b, true)
    else if b.half_open
    then (b, false)
    else if leb (b.opened_at + cfg.recovery) now
    then (record b { half_open = true }, true)
    else (b, false)

unfoldable pub on_success : Breaker → Breaker
on_success b = record b { is_open = false; half_open = false; error_times = [] }

unfoldable pub force_open : Breaker → Breaker
force_open b = record b { is_open = true; half_open = false }
