-- ===== src/Throttle.antt =====
-- execution/order_throttle.py: `OrderThrottle`, a limit on the orders of a symbol and on all orders
-- in a sliding window. Times are whole clock ticks, and `now - t <= window` is written
-- `now <= t + window`. The lock makes each method one step.
pub mod Window
pub mod History
pub mod Limits
mod Tests
use quantluna.Prelude.{
  ℕ, ◌+◌, ◌-◌, Bool, true, false, Option, none, some, List, [], ◌∷◌, ◌++◌, leb, length,
  if◌then◌else◌,
}
use quantluna.Prelude.Dict.{Dict, lookup, insert, erase}

pub record Config : Type 0 where
  pub max_orders : ℕ
  pub window : ℕ
  pub burst_cap : ℕ

pub record Throttle : Type 0 where
  pub buckets : Dict (List ℕ)
  pub global_times : List ℕ

-- `__init__`
abbrev pub empty : Throttle
empty = record { buckets = []; global_times = [] }

-- `[t for t in times if now - t <= window]`
pub prune : ℕ → ℕ → List ℕ → List ℕ
prune window now [] = []
prune window now (t ∷ ts) =
    let rest = prune window now ts in if leb now (t + window) then t ∷ rest else rest

-- `self._buckets.get(symbol, [])`
abbrev pub bucket : ℕ → Throttle → List ℕ
bucket symbol th = elim (lookup symbol th.buckets) [ none ↦ [] | some ts ↦ ts ]

pub allow : Config → ℕ → ℕ → Throttle → Throttle × Bool
allow cfg now symbol th =
    let all = prune cfg.window now th.global_times in
    let own = prune cfg.window now (bucket symbol th) in
    if leb cfg.burst_cap (length all)
    then (record th { global_times = all }, false)
    else if leb cfg.max_orders (length own)
    then (record { buckets = insert symbol own th.buckets; global_times = all }, false)
    else (
      record {
        buckets = insert symbol (own ++ (now ∷ [])) th.buckets;
        global_times = all ++ (now ∷ []);
      },
      true,
    )

-- `max(0, limit - active)` is the subtraction that stops at 0.
pub remaining : Config → ℕ → ℕ → Throttle → ℕ
remaining cfg now symbol th = cfg.max_orders - length (prune cfg.window now (bucket symbol th))

-- `none` stands for `None` and for the empty symbol.
pub reset : Option ℕ → Throttle → Throttle
reset (some symbol) th = record th { buckets = erase symbol th.buckets }
reset none th = empty

-- Requests (a time and a symbol) one after another: the final state, and what was allowed, with
-- the latest first.
pub requests : Config → List (ℕ × ℕ) → Throttle → List (ℕ × ℕ) → Throttle × List (ℕ × ℕ)
unfolding allow
requests cfg [] th done = (th, done)
requests cfg ((now, symbol) ∷ rs) th done =
    let (th', passed) = allow cfg now symbol th in
    requests cfg rs th' (if passed then (now, symbol) ∷ done else done)
