-- ===== src/Traffic/Request/Flights.antt =====
-- core/bybit_traffic_controller.py: what a request leaves in flight, and how often it calls out.
use quantluna.Prelude.{
  ◌⊎◌, ◌≢◌, ℕ, zero, suc, ◌+◌, ◌≤◌, ◌≡◌, refl, Option, none, some, arith, inl, inr, if◌then◌else◌,
  Bool-cases, ◌==◌, ◌∙◌, ap,
}
use quantluna.Prelude.Dict.{Dict, lookup, insert, lookup-insert, lookup-erase}
use quantluna.Traffic.Request.Retries.{Outcome-cases, attempts_first, attempts_last, attempts_again}
use quantluna.Traffic.Request.{
  Group, Outcome, Config, Controller, waits, succeed, fail, attempts, max_retries,
  execute_with_retry, check_cache, check_breaker, store, lead, fetch, request, waited, started,
  cleanup_inflight,
}

erase-insert :
    (j key : ℕ) (d : Dict (Unit {0}))
    → (if j == key then none else lookup j (insert key tt d))
      ≡ (if j == key then none else lookup j d)
erase-insert j key d = ground (arith, lookup-insert j key tt d)

module _ {ℓ} {V : Type ℓ} (cfg : Config) (clock : ℕ → ℕ) where
  attempts_keeps :
      (left : ℕ) (executor : ℕ → Outcome V) (c : Controller V)
      → let done = (attempts cfg clock left executor c).0 in
        (done.inflight ≡ c.inflight) × (done.calls ≤ c.calls + (left + 1))
  unfolding succeed fail
  attempts_keeps zero executor c = elim (Outcome-cases (executor c.calls)) [
    | inl (v, e) ↦ rw (attempts_first cfg clock zero executor c v e) (refl, omega arith)
    | inr (status, e) ↦ rw (attempts_last cfg clock executor c status e) (refl, omega arith)
  ]
  attempts_keeps (suc left) executor c = elim (Outcome-cases (executor c.calls)) [
    | inl (v, e) ↦ rw (attempts_first cfg clock (suc left) executor c v e) (refl, omega arith)
    | inr (status, e) ↦
        let (same, few) = attempts_keeps left executor (fail cfg clock status c) in
        rw (attempts_again cfg clock left executor c status e) (same, omega (arith, few))
  ]

  execute_keeps :
      (executor : Option (ℕ → Outcome V)) (g : Group) (c : Controller V)
      → let done = (execute_with_retry cfg clock executor g c).0 in
        (done.inflight ≡ c.inflight) × (done.calls ≤ c.calls + (max_retries g + 1))
  unfolding execute_with_retry
  execute_keeps none g c = (refl, omega arith)
  execute_keeps (some executor) g c = attempts_keeps (max_retries g) executor c

  store_keeps :
      (key ttl : ℕ) (v : Option V) (c : Controller V)
      → let done = store cfg clock key ttl v c in
        (done.inflight ≡ c.inflight) × (done.calls ≡ c.calls)
  unfolding store
  store_keeps key ttl none c = ground arith
  store_keeps key ttl (some v) c = ground arith

  check_breaker_keeps :
      (c : Controller V)
      → let done = (check_breaker cfg clock c).0 in
        (done.inflight ≡ c.inflight) × (done.calls ≡ c.calls)
  unfolding check_breaker
  check_breaker_keeps c = ground arith

  check_cache_keeps :
      (key ttl : ℕ) (c : Controller V)
      → let done = (check_cache cfg clock key ttl c).0 in
        (done.inflight ≡ c.inflight) × (done.calls ≡ c.calls)
  unfolding check_cache
  check_cache_keeps key ttl c = ground arith

  lead_keeps :
      (g : Group) (key : ℕ) (executor : Option (ℕ → Outcome V)) (ttl : ℕ) (c : Controller V)
      → let done = (lead cfg clock g key executor ttl c).0 in
        ((j : ℕ) → lookup j done.inflight ≡ (if j == key then none else lookup j c.inflight))
        × (done.calls ≤ c.calls + (max_retries g + 1))
  unfolding lead
  lead_keeps g key executor ttl c = elim (Bool-cases (waited cfg clock c).2) [
    | inl got ↦
        let begun = started cfg clock g key c in
        let (done, v) = execute_with_retry cfg clock executor g begun in
        let (same, few) = execute_keeps executor g begun in
        let (kept, equal) = store_keeps key ttl v (cleanup_inflight key done) in
        rw got (
          λ j.
              ap (lookup j) kept
              ∙ lookup-erase j key done.inflight
              ∙ ap (λ (d : Dict (Unit {0})). if j == key then none else lookup j d) same
              ∙ erase-insert j key c.inflight,
          omega (arith, equal, few),
        )
    | inr refused ↦ rw refused (
      λ j. lookup-erase j key (insert key tt c.inflight) ∙ erase-insert j key c.inflight,
      omega arith,
    )
  ]

  fetch_keeps :
      (g : Group) (key : ℕ) (executor : Option (ℕ → Outcome V)) (ttl : ℕ) (c : Controller V) (j : ℕ)
      → let (done, reply) = fetch cfg clock g key executor ttl c in
        (lookup j done.inflight ≡ lookup j c.inflight)
        × (done.calls ≤ c.calls + (max_retries g + 1))
        × ((reply ≢ waits) ⊎ (done.calls ≡ c.calls))
  unfolding fetch
  fetch_keeps g key executor ttl c j =
      let go = (check_breaker cfg clock c).0 in
      let (same, few) = lead_keeps g key executor ttl go in
      ground (arith, check_breaker_keeps c, same j, few)

  -- A request leaves the same keys in flight as before, on every path: one that is paused, blocked
  -- or answered by the cache, one that finds its key in flight, a token that is not got, an executor
  -- that raises, and a result. It calls the executor at most once more than the retries of its
  -- group, and not at all if it finds its key in flight.
  pub request_keeps :
      (g : Group) (key : ℕ) (executor : Option (ℕ → Outcome V)) (ttl : ℕ) (c : Controller V) (j : ℕ)
      → let (done, reply) = request cfg clock g key executor ttl c in
        (lookup j done.inflight ≡ lookup j c.inflight)
        × (done.calls ≤ c.calls + (max_retries g + 1))
        × ((reply ≢ waits) ⊎ (done.calls ≡ c.calls))
  unfolding request
  request_keeps g key executor ttl c j =
      let miss = (check_cache cfg clock key ttl c).0 in
      ground (arith, check_cache_keeps key ttl c, fetch_keeps g key executor ttl miss j)
