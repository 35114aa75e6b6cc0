-- ===== src/Traffic/Request/Outage.antt =====
-- core/bybit_traffic_controller.py: what a probe that fails does to the requests after it.
use quantluna.Prelude.{
  ℕ, zero, suc, ◌+◌, ◌≡◌, refl, true, Option, none, some, List, [], ◌∷◌, arith, inl, inr,
  Bool-cases, ◌∙◌,
}
use quantluna.Prelude.Dict.{contains}
use quantluna.Traffic.Breaker
use quantluna.Traffic.Breaker.Stuck.{IsStuck, record_error-IsStuck}
use quantluna.Traffic.Request.{
  Group, Outcome, Config, Controller, answer, fail, attempts, max_retries, execute_with_retry,
  check_cache, check_breaker, store, lead, fetch, request, waited, started, cleanup_inflight,
  reported,
}
use quantluna.Traffic.Request.Retries.{Fails, attempts_last, attempts_again, calls-fail}

-- A request: group, key, executor and time to live.
abbrev pub Call {ℓ} : Type ℓ → Type ℓ
Call V = record { group : Group; key : ℕ; executor : Option (ℕ → Outcome V); ttl : ℕ }

module _ {ℓ} {V : Type ℓ} (cfg : Config) (clock : ℕ → ℕ) where
  pub requests : List (Call V) → Controller V → Controller V
  requests [] c = c
  requests (r ∷ rs) c = requests rs (request cfg clock r.group r.key r.executor r.ttl c).0

  check_cache_breaker :
      (key ttl : ℕ) (c : Controller V)
      → let done = (check_cache cfg clock key ttl c).0 in
        (done.breaker ≡ c.breaker) × (done.calls ≡ c.calls)
  unfolding check_cache
  check_cache_breaker key ttl c = ground arith

  fetch_stuck :
      (g : Group) (key : ℕ) (executor : Option (ℕ → Outcome V)) (ttl : ℕ) (c : Controller V)
      → cfg.breaker_enabled ≡ true
      → IsStuck c.breaker
      → let (done, reply) = fetch cfg clock g key executor ttl c in
        (done.breaker ≡ c.breaker) × (done.calls ≡ c.calls) × (reply ≡ answer none)
  unfolding fetch check_breaker Breaker.try_half_open
  fetch_stuck g key executor ttl c on s = ground arith

  request-IsStuck :
      (r : Call V) (c : Controller V)
      → cfg.breaker_enabled ≡ true
      → IsStuck c.breaker
      → let done = (request cfg clock r.group r.key r.executor r.ttl c).0 in
        IsStuck done.breaker × (done.calls ≡ c.calls)
  unfolding request
  request-IsStuck r c on s =
      let miss = (check_cache cfg clock r.key r.ttl c).0 in
      let (kept, same) = check_cache_breaker r.key r.ttl c in
      let stuck : IsStuck miss.breaker = rw kept s in
      ground (arith, kept, same, fetch_stuck r.group r.key r.executor r.ttl miss on stuck)

  requests_stuck :
      (rs : List (Call V)) (c : Controller V)
      → cfg.breaker_enabled ≡ true
      → IsStuck c.breaker
      → (requests rs c).calls ≡ c.calls
  unfolding requests
  requests_stuck [] c on s = refl
  requests_stuck (r ∷ rs) c on s =
      let (stuck, same) = request-IsStuck r c on s in
      requests_stuck rs (request cfg clock r.group r.key r.executor r.ttl c).0 on stuck ∙ same

  fail-IsStuck :
      (status : ℕ) (c : Controller V)
      → IsStuck c.breaker
      → IsStuck (fail cfg clock status c).breaker
  unfolding fail
  fail-IsStuck status c s =
      record_error-IsStuck cfg.breaker (clock (c.reads + 2)) (reported status) c.breaker s

  attempts-IsStuck :
      (left : ℕ) (executor : ℕ → Outcome V) (c : Controller V)
      → Fails (suc left) executor c.calls
      → IsStuck c.breaker
      → IsStuck (attempts cfg clock left executor c).0.breaker
  attempts-IsStuck zero executor c ((status, e), fails) s =
      rw (attempts_last cfg clock executor c status e) (fail-IsStuck status c s)
  attempts-IsStuck (suc left) executor c ((status, e), fails) s =
      rw (attempts_again cfg clock left executor c status e) (
        attempts-IsStuck left executor (fail cfg clock status c)
          (rw (calls-fail cfg clock status c) fails) (fail-IsStuck status c s))

  store_breaker :
      (key ttl : ℕ) (v : Option V) (c : Controller V)
      → (store cfg clock key ttl v c).breaker ≡ c.breaker
  unfolding store
  store_breaker key ttl none c = refl
  store_breaker key ttl (some v) c = ground arith

  lead-IsStuck :
      (g : Group) (key : ℕ) (executor : ℕ → Outcome V) (ttl : ℕ) (c : Controller V)
      → Fails (suc (max_retries g)) executor c.calls
      → IsStuck c.breaker
      → IsStuck (lead cfg clock g key (some executor) ttl c).0.breaker
  unfolding lead execute_with_retry
  lead-IsStuck g key executor ttl c fails s = elim (Bool-cases (waited cfg clock c).2) [
    | inl got ↦
        let (done, v) = attempts cfg clock (max_retries g) executor (started cfg clock g key c) in
        rw got (
          rw (store_breaker key ttl v (cleanup_inflight key done))
            (attempts-IsStuck (max_retries g) executor (started cfg clock g key c) fails s))
    | inr refused ↦ rw refused s
  ]

  check_breaker_probe :
      (c : Controller V)
      → cfg.breaker_enabled ≡ true
      → c.breaker.is_open ≡ true
      → (check_breaker cfg clock c).1 ≡ true
      → IsStuck (check_breaker cfg clock c).0.breaker
        × ((check_breaker cfg clock c).0.calls ≡ c.calls)
  unfolding check_breaker Breaker.try_half_open
  check_breaker_probe c on opened allowed = ground arith

  fetch_probe :
      (g : Group) (key : ℕ) (executor : ℕ → Outcome V) (ttl : ℕ) (c : Controller V)
      → cfg.breaker_enabled ≡ true
      → c.breaker.is_open ≡ true
      → (check_breaker cfg clock c).1 ≡ true
      → Fails (suc (max_retries g)) executor c.calls
      → IsStuck (fetch cfg clock g key (some executor) ttl c).0.breaker
  unfolding fetch
  fetch_probe g key executor ttl c on opened allowed fails =
      let c' = (check_breaker cfg clock c).0 in
      let (stuck, same) = check_breaker_probe c on opened allowed in
      let led = lead-IsStuck g key executor ttl c' (rw same fails) stuck in
      elim (Bool-cases (contains key c'.inflight)) [
        | inl flying ↦ rw (allowed, flying) stuck
        | inr free ↦ rw (allowed, free) led
      ]

  -- One failed probe blocks the exchange for good. If an open circuit lets a request probe, and its
  -- executor raises at every attempt, then no executor is ever called again, whatever requests
  -- follow and however much later: the cache may still answer, and all else is `None`.
  pub failed_probe_outage :
      (g : Group) (key : ℕ) (executor : ℕ → Outcome V) (ttl : ℕ) (c : Controller V)
      (rs : List (Call V))
      → cfg.breaker_enabled ≡ true
      → c.breaker.is_open ≡ true
      → (check_breaker cfg clock c).1 ≡ true
      → Fails (suc (max_retries g)) executor c.calls
      → let after = (fetch cfg clock g key (some executor) ttl c).0 in
        (requests rs after).calls ≡ after.calls
  failed_probe_outage g key executor ttl c rs on opened allowed fails =
      requests_stuck rs (fetch cfg clock g key (some executor) ttl c).0 on
        (fetch_probe g key executor ttl c on opened allowed fails)
