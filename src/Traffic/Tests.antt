-- ===== src/Traffic/Tests.antt =====
-- core/bybit_traffic_controller.py: runs of the model, and each theorem at an input.
use quantluna.Prelude.{
  ℕ, ◌+◌, ◌-◌, ◌*◌, ◌≤◌, ◌≡◌, ◌≢◌, ◌⊎◌, ◌↔◌, refl, true, false, none, some, List, [], ◌∷◌, arith,
  leb, ◌==◌, if◌then◌else◌,
}
use quantluna.Prelude.Dict.{lookup}
use quantluna.Traffic.Breaker
use quantluna.Traffic.Breaker.{Breaker}
use quantluna.Traffic.Breaker.Window.{errors, trips, errors-trips}
use quantluna.Traffic.Bucket.{Rate, full, acquire, refill, poll, rounds, wait_and_acquire}
use quantluna.Traffic.Bucket.Supply.{granted, granted-le, acquire_exact}
use quantluna.Traffic.Bucket.Waiting.{wait_and_acquire_ends}
use quantluna.Traffic.Cache
use quantluna.Traffic.Request.{
  critical_position_protection, account_sync, market_data, Outcome, returned, failed, answer, waits,
  Config, Controller, execute_with_retry, attempts, fail, check_cache, check_breaker, lead, store,
  succeed, request, fetch, pause_non_critical,
}
use quantluna.Traffic.Request.Retries.{execute_with_retry_returns}
use quantluna.Traffic.Request.Flights.{request_keeps}
use quantluna.Traffic.Request.Repeat.{fetch_then_request}
use quantluna.Traffic.Request.Outage.{Call, requests, failed_probe_outage}

abbrev rate : Rate
rate = record { unit = 60000; rate = 120; burst = 10 }

abbrev breaker_cfg : Breaker.Config
breaker_cfg = record { threshold_429 = 5; error_threshold = 10; window = 60000; recovery = 30000 }

abbrev cfg : Config
cfg = record { rate = rate; breaker = breaker_cfg; breaker_enabled = true }

-- A clock that moves 50 ticks from one reading to the next.
abbrev clock : ℕ → ℕ
clock n = 40000 + 50 * n

abbrev begun : Controller ℕ
begun = record {
  bucket = record { tokens = 600000; last = 40000 };
  breaker = Breaker.fresh;
  cache = [];
  stats = record {
    requests_total = λ g. 0;
    requests_429 = 0;
    requests_10006 = 0;
    cache_hits = 0;
    cache_misses = 0;
  };
  inflight = [];
  results = [];
  paused = false;
  reads = 0;
  calls = 0;
}

-- The exchange refuses twice, and then answers.
abbrev third_time : ℕ → Outcome ℕ
third_time n = if leb n 1 then failed 429 else returned (some 5)

abbrev never : ℕ → Outcome ℕ
never n = failed 10006

retried :
    (request cfg clock critical_position_protection 1 (some third_time) 0 begun).1 ≡ answer (some 5)
unfolding request fetch check_cache check_breaker lead wait_and_acquire poll acquire refill
    execute_with_retry attempts fail
retried = refl

given_up : (request cfg clock account_sync 1 (some third_time) 0 begun).1 ≡ answer none
unfolding request fetch check_cache check_breaker lead wait_and_acquire poll acquire refill
    execute_with_retry attempts fail
given_up = refl

not_asked :
    (request cfg clock market_data 1 (some third_time) 0 (pause_non_critical begun)).0.calls ≡ 0
unfolding request pause_non_critical
not_asked = refl

-- An open breaker that was forced open has no new time of opening, so that it probes at once.
forced : (Breaker.try_half_open breaker_cfg 30000 (Breaker.force_open Breaker.fresh)).1 ≡ true
unfolding Breaker.try_half_open Breaker.force_open
forced = refl

errors-trips_example :
    (errors breaker_cfg
      ((1, 429) ∷ (2, 429) ∷ (3, 0) ∷ (9, 0) ∷ (9, 429) ∷ [])
      Breaker.fresh).is_open
    ≡ trips breaker_cfg ((1, 429) ∷ (2, 429) ∷ (3, 0) ∷ (9, 0) ∷ (9, 429) ∷ []) []
errors-trips_example =
    errors-trips breaker_cfg ((1, 429) ∷ (2, 429) ∷ (3, 0) ∷ (9, 0) ∷ (9, 429) ∷ []) (omega arith)

abbrev open_breaker : Breaker
open_breaker = record { is_open = true; half_open = false; error_times = []; opened_at = 0 }

granted-le_example :
    granted rate (5 ∷ 10 ∷ 1000 ∷ []) (full rate 0) * 60000 ≤ 10 * 60000 + (2000 - 0) * 120
granted-le_example = granted-le rate 0 2000 (5 ∷ 10 ∷ 1000 ∷ []) (omega arith)

acquire_exact_example :
    let (b', got) = acquire rate 700 (full rate 0) in
    (b'.tokens ≤ 600000)
    × (b'.tokens + (if got then 60000 else 0) ≡ refill rate 700 (full rate 0))
    × ((got ≡ true) ↔ (60000 ≤ refill rate 700 (full rate 0)))
acquire_exact_example = acquire_exact rate 700 (full rate 0)

abbrev slow_clock : ℕ → ℕ
slow_clock n = 100 * n

wait_and_acquire_ends_example :
    poll (rounds 250 + 7) rate slow_clock 250 1 (record { tokens = 0; last = 0 })
    ≡ wait_and_acquire rate slow_clock 250 0 (record { tokens = 0; last = 0 })
wait_and_acquire_ends_example =
    wait_and_acquire_ends rate slow_clock 7 250 0 (record { tokens = 0; last = 0 }) (omega arith)
      (omega arith)

get-set_example :
    Cache.fetch 120 3 (Cache.set {V = ℕ} 100 3 8 20 [])
    ≡ (if 3 == 3 then (if leb 120 (100 + 20) then some 8 else none) else Cache.fetch 120 3 [])
get-set_example = Cache.get-set 100 120 3 3 20 8 []

get-get_example :
    Cache.fetch 121 3 (Cache.get 121 3 (Cache.set {V = ℕ} 100 3 8 20 [])).0
    ≡ Cache.fetch 121 3 (Cache.set {V = ℕ} 100 3 8 20 [])
get-get_example = Cache.get-get 121 121 3 3 (Cache.set {V = ℕ} 100 3 8 20 []) (omega arith)

get-invalidate_example :
    (Cache.fetch 5 3
        (Cache.invalidate {V = ℕ} (some (λ k. leb k 3)) ((3, (9, 1)) ∷ (4, (9, 2)) ∷ []))
      ≡ none)
    × (Cache.fetch 5 3 (Cache.invalidate {V = ℕ} none ((3, (9, 1)) ∷ (4, (9, 2)) ∷ [])) ≡ none)
get-invalidate_example =
    Cache.get-invalidate {V = ℕ} (λ k. leb k 3) 5 3 ((3, (9, 1)) ∷ (4, (9, 2)) ∷ [])

execute_with_retry_returns_example :
    let (done, got) =
      execute_with_retry cfg clock (some third_time) critical_position_protection begun in
    (got ≡ some 5) × (done.calls ≡ 0 + 2 + 1) × (done.breaker.is_open ≡ false)
execute_with_retry_returns_example =
    execute_with_retry_returns cfg clock third_time critical_position_protection 2 begun (some 5)
      ((429, refl), ((429, refl), tt)) refl (omega arith)

request_keeps_example :
    let (done, reply) = request cfg clock account_sync 1 (some third_time) 30 begun in
    (lookup 1 done.inflight ≡ none) × (done.calls ≤ 0 + 2) × ((reply ≢ waits) ⊎ (done.calls ≡ 0))
request_keeps_example = request_keeps cfg clock account_sync 1 (some third_time) 30 begun 1

abbrev answers : ℕ → Outcome ℕ
answers n = returned (some 5)

fetch_then_request_example :
    let done = (fetch cfg clock account_sync 1 (some answers) 30000 begun).0 in
    let again = request cfg clock market_data 1 (some never) 60 done in
    (again.1 ≡ answer (some 5)) × (again.0.calls ≡ done.calls)
unfolding fetch check_breaker lead wait_and_acquire poll acquire refill execute_with_retry attempts
    store succeed
fetch_then_request_example =
    fetch_then_request cfg clock account_sync market_data 1 30000 60 (some answers) (some never)
      begun 5 refl (omega arith) (omega arith) refl (omega arith)

abbrev down : Controller ℕ
down = record begun { breaker = open_breaker }

abbrev later : List (Call ℕ)
later =
    record { group = critical_position_protection; key = 2; executor = some answers; ttl = 0 }
    ∷ record { group = account_sync; key = 1; executor = some answers; ttl = 30000 }
    ∷ []

failed_probe_outage_example :
    let after = (fetch cfg clock account_sync 1 (some never) 0 down).0 in
    (requests cfg clock later after).calls ≡ after.calls
unfolding check_breaker Breaker.try_half_open
failed_probe_outage_example =
    failed_probe_outage cfg clock account_sync 1 never 0 down later refl refl refl
      ((10006, refl), ((10006, refl), tt))
