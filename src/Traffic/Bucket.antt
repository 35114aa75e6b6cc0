-- ===== src/Traffic/Bucket.antt =====
-- core/bybit_traffic_controller.py: `TokenBucket`. Tokens are counted in parts, `unit` of them to a
-- token, and `rate` is in parts for each tick of the clock: with `unit` 60000 and a clock of
-- milliseconds the rate `max_rest_rpm / 60.0` tokens a second is `max_rest_rpm` parts for each
-- millisecond, exactly.
pub mod Supply
pub mod Waiting
use quantluna.Prelude.{
  ℕ, zero, suc, ◌+◌, ◌-◌, ◌*◌, ◌/◌, Bool, true, false, leb, ltb, min, if◌then◌else◌,
}

pub record Rate : Type 0 where
  pub unit : ℕ
  pub rate : ℕ
  pub burst : ℕ

pub record Bucket : Type 0 where
  pub tokens : ℕ
  pub last : ℕ

-- `__init__`: a full bucket
unfoldable pub full : Rate → ℕ → Bucket
full r now = record { tokens = r.burst * r.unit; last = now }

-- The tokens at the time `now`.
unfoldable pub refill : Rate → ℕ → Bucket → ℕ
refill r now b = min (r.burst * r.unit) (b.tokens + (now - b.last) * r.rate)

unfoldable pub acquire : Rate → ℕ → Bucket → Bucket × Bool
acquire r now b =
    let tokens = refill r now b in
    if leb r.unit tokens
    then (record { tokens = tokens - r.unit; last = now }, true)
    else (record { tokens = tokens; last = now }, false)

-- A round of the loop of `wait_and_acquire`, with what the later rounds give: `clock n` is the n-th
-- reading of the clock, and a round reads it for the test of the loop and again in `acquire`.
abbrev pub poll_round : Rate → (ℕ → ℕ) → ℕ → ℕ → Bucket → ℕ × Bucket × Bool → ℕ × Bucket × Bool
poll_round r clock deadline n b rest =
    let (b', got) = acquire r (clock (n + 1)) b in
    if ltb (clock n) deadline then (if got then (n + 2, b', true) else rest) else (n + 1, b, false)

-- The loop, with fuel. Each round sleeps before the next.
unfoldable pub poll : ℕ → Rate → (ℕ → ℕ) → ℕ → ℕ → Bucket → ℕ × Bucket × Bool
poll zero r clock deadline n b = (n, b, false)
poll (suc fuel) r clock deadline n b =
    let rest = poll fuel r clock deadline (n + 2) (acquire r (clock (n + 1)) b).0 in
    poll_round r clock deadline n b rest

-- The length of a round's sleep, in ticks.
abbrev pub nap : ℕ
nap = 100

-- The rounds that fit before the deadline, one more for the round that the deadline cuts, and one
-- for the test that ends the loop.
abbrev pub rounds : ℕ → ℕ
rounds timeout = suc (timeout / nap + 1)

unfoldable pub wait_and_acquire : Rate → (ℕ → ℕ) → ℕ → ℕ → Bucket → ℕ × Bucket × Bool
wait_and_acquire r clock timeout n b = poll (rounds timeout) r clock (clock n + timeout) (n + 1) b
