-- ===== src/Traffic/Request.antt =====
-- core/bybit_traffic_controller.py: `BybitTrafficController.request` and its retries, as one task
-- runs it. `clock n` is the n-th reading of `time.monotonic()`, and the controller counts the
-- readings; a sleep shows in the readings after it. The executor is the code outside: its n-th call
-- returns a value or raises, with a status. The semaphore only delays a task. The key of a request
-- is never empty, since the digest that stands in for an empty `cache_key` is not.
pub mod Retries
pub mod Flights
pub mod Repeat
pub mod Outage
use quantluna.Prelude.{
  ℕ, zero, suc, ◌+◌, Bool, true, false, not, Option, none, some, List, [], ◌∷◌, ltb, if◌then◌else◌,
  ◌==◌, ◌&&◌,
}
use quantluna.Prelude.Dict.{Dict, lookup, insert, erase, contains}
use quantluna.Traffic.Breaker
use quantluna.Traffic.Breaker.{Breaker}
use quantluna.Traffic.Bucket.{Rate, Bucket, wait_and_acquire}
use quantluna.Traffic.Cache

pub data Group : Type 0 where
  critical_position_protection account_sync execution market_data ui_diagnostics : Group

-- `GROUP_PRIORITY`
abbrev pub priority : Group → ℕ
priority critical_position_protection = 0
priority account_sync = 1
priority execution = 2
priority market_data = 3
priority ui_diagnostics = 4

abbrev pub is_critical : Group → Bool
is_critical g = priority g == 0

abbrev pub is_deferrable : Group → Bool
is_deferrable market_data = true
is_deferrable ui_diagnostics = true
is_deferrable _ = false

pub data Outcome {ℓ} (V : Type ℓ) : Type ℓ where
  returned : Option V → Outcome V
  failed : ℕ → Outcome V

pub data Reply {ℓ} (V : Type ℓ) : Type ℓ where
  answer : Option V → Reply V
  waits : Reply V

pub record Config : Type 0 where
  pub rate : Rate
  pub breaker : Breaker.Config
  pub breaker_enabled : Bool

pub record Stats : Type 0 where
  pub requests_total : Group → ℕ
  pub requests_429 : ℕ
  pub requests_10006 : ℕ
  pub cache_hits : ℕ
  pub cache_misses : ℕ

-- `reads` and `calls` count the readings of the clock and the calls of executors so far.
pub record Controller {ℓ} (V : Type ℓ) : Type ℓ where
  pub bucket : Bucket
  pub breaker : Breaker
  pub cache : Dict (ℕ × V)
  pub stats : Stats
  pub inflight : Dict (Unit {0})
  pub results : Dict (Option V)
  pub paused : Bool
  pub reads : ℕ
  pub calls : ℕ

abbrev pub count_request : Group → Stats → Stats
count_request g s = record s {
  requests_total =
      λ h. if priority g == priority h then s.requests_total h + 1 else s.requests_total h;
}

abbrev pub count_error : ℕ → Stats → Stats
count_error status s =
    if status == 429
    then record s { requests_429 = s.requests_429 + 1 }
    else (if status == 10006 then record s { requests_10006 = s.requests_10006 + 1 } else s)

-- `timeout=5.0` of the wait for a token
abbrev pub token_timeout : ℕ
token_timeout = 5000

abbrev pub max_retries : Group → ℕ
max_retries g = if is_critical g then 3 else 1

-- The status that `record_error` is given: 429 and 10006 themselves, 0 for any other.
abbrev pub reported : ℕ → ℕ
reported status = if status == 429 then 429 else (if status == 10006 then 10006 else 0)

module _ {ℓ} {V : Type ℓ} where
  -- An attempt that returned: two readings, and `on_success`.
  unfoldable pub succeed : Controller V → Controller V
  succeed c = record c {
    breaker = Breaker.on_success c.breaker;
    reads = c.reads + 2;
    calls = c.calls + 1;
  }

  abbrev pub cleanup_inflight : ℕ → Controller V → Controller V
  cleanup_inflight key c = record c { inflight = erase key c.inflight }

  -- What a task that waited for another returns, in the state where it goes on.
  unfoldable pub follow : ℕ → Controller V → Option V
  follow key c = elim (lookup key c.results) [ none ↦ none | some v ↦ v ]

  unfoldable pub pause_non_critical : Controller V → Controller V
  pause_non_critical c = record c { paused = true }

  unfoldable pub resume_non_critical : Controller V → Controller V
  resume_non_critical c = record c { paused = false }

module _ {ℓ} {V : Type ℓ} (cfg : Config) (clock : ℕ → ℕ) where
  -- An attempt that raised: two readings, the counters, and `record_error`, which reads again.
  unfoldable pub fail : ℕ → Controller V → Controller V
  fail status c = record c {
    breaker = Breaker.record_error cfg.breaker (clock (c.reads + 2)) (reported status) c.breaker;
    stats = count_error status c.stats;
    reads = c.reads + 3;
    calls = c.calls + 1;
  }

  -- The loop of `_execute_with_retry`, by the retries that are left.
  unfoldable pub attempts : ℕ → (ℕ → Outcome V) → Controller V → Controller V × Option V
  attempts zero executor c = elim (executor c.calls) [
    | returned v ↦ (succeed c, v)
    | failed status ↦ (fail status c, none)
  ]
  attempts (suc left) executor c = elim (executor c.calls) [
    | returned v ↦ (succeed c, v)
    | failed status ↦ attempts left executor (fail status c)
  ]

  unfoldable pub execute_with_retry :
      Option (ℕ → Outcome V) → Group → Controller V → Controller V × Option V
  execute_with_retry none g c = (c, none)
  execute_with_retry (some executor) g c = attempts (max_retries g) executor c

  -- Step 1 of `request`, the cache, which reads the clock where it has an entry.
  unfoldable pub check_cache : ℕ → ℕ → Controller V → Controller V × Option V
  check_cache key ttl c =
      let (cache', found) = Cache.get (clock c.reads) key c.cache in
      let c' : Controller V = record c {
        cache = cache';
        reads = if contains key c.cache then c.reads + 1 else c.reads;
      } in
      if ltb 0 ttl
      then elim found [
        | none ↦
            (record c' { stats = record c.stats { cache_misses = c.stats.cache_misses + 1 } }, none)
        | some v ↦
            (record c' { stats = record c.stats { cache_hits = c.stats.cache_hits + 1 } }, some v)
      ]
      else (c, none)

  -- Step 2, the circuit breaker: whether the request may go on.
  unfoldable pub check_breaker : Controller V → Controller V × Bool
  check_breaker c =
      if cfg.breaker_enabled && c.breaker.is_open
      then (let (b, probe) = Breaker.try_half_open cfg.breaker (clock c.reads) c.breaker in
          (
            record c { breaker = b; reads = if c.breaker.half_open then c.reads else c.reads + 1 },
            probe,
          ))
      else (c, true)

  -- Step 6, with the result of the executor; `TTLCache.set` reads the clock.
  unfoldable pub store : ℕ → ℕ → Option V → Controller V → Controller V
  store key ttl none c = record c { results = insert key none c.results }
  store key ttl (some v) c =
      if ltb 0 ttl
      then record c {
        cache = Cache.set (clock c.reads) key v ttl c.cache;
        results = insert key (some v) c.results;
        reads = c.reads + 1;
      }
      else record c { results = insert key (some v) c.results }

  -- Step 4: the readings, the bucket, and whether a token was got.
  abbrev pub waited : Controller V → ℕ × Bucket × Bool
  waited c = wait_and_acquire cfg.rate clock token_timeout c.reads c.bucket

  -- The state of a task that leads the requests for its key, after the wait.
  abbrev pub held : ℕ → Controller V → Controller V
  held key c = record c {
    inflight = insert key tt c.inflight;
    bucket = (waited c).1;
    reads = (waited c).0;
  }

  abbrev pub started : Group → ℕ → Controller V → Controller V
  started g key c = record (held key c) { stats = count_request g c.stats }

  -- Steps 3 to 6 of the task that leads.
  unfoldable pub lead :
      Group → ℕ → Option (ℕ → Outcome V) → ℕ → Controller V → Controller V × Option V
  lead g key executor ttl c =
      if (waited c).2
      then (let (done, v) = execute_with_retry executor g (started g key c) in
          (store key ttl v (cleanup_inflight key done), v))
      else (cleanup_inflight key (held key c), none)

  -- `request` from step 2 on, on a miss of the cache.
  unfoldable pub fetch :
      Group → ℕ → Option (ℕ → Outcome V) → ℕ → Controller V → Controller V × Reply V
  fetch g key executor ttl c =
      let (c', go) = check_breaker c in
      if go
      then if contains key c'.inflight
        then (c', waits)
        else (let (done, v) = lead g key executor ttl c' in (done, answer v))
      else (c', answer none)

  unfoldable pub request :
      Group → ℕ → Option (ℕ → Outcome V) → ℕ → Controller V → Controller V × Reply V
  request g key executor ttl c =
      if c.paused && is_deferrable g
      then (c, answer none)
      else let (c', cached) = check_cache key ttl c in
        elim cached [ none ↦ fetch g key executor ttl c' | some v ↦ (c', answer (some v)) ]
