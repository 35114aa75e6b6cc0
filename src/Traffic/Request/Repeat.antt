-- ===== src/Traffic/Request/Repeat.antt =====
-- core/bybit_traffic_controller.py: repeated requests and the cache.
use quantluna.Prelude.{
  none≢some, ℕ, ◌+◌, ◌-◌, ◌≤◌, ◌<◌, ◌≡◌, refl, false, Option, some, arith, inl, inr, ◌&&◌,
  Bool-cases, ap, ◌∙◌,
}
use quantluna.Prelude.Dict.{lookup, lookup-insert}
use quantluna.Traffic.Cache
use quantluna.Traffic.Request.{
  Group, Outcome, Config, Controller, answer, check_cache, check_breaker, store, lead, fetch,
  request, waited, started, cleanup_inflight, execute_with_retry, is_deferrable,
}

module _ {ℓ} {V : Type ℓ} (cfg : Config) (clock : ℕ → ℕ) where
  -- What the cache holds for a key after a value was fetched for it.
  abbrev Holds : ℕ → ℕ → V → Controller V → Type ℓ
  Holds key ttl v done = lookup key done.cache ≡ some (clock (done.reads - 1) + ttl, v)

  store-Holds :
      (key ttl : ℕ) (v : V) (c : Controller V)
      → 0 < ttl
      → Holds key ttl v (store cfg clock key ttl (some v) c)
  unfolding store Cache.set
  store-Holds key ttl v c pos =
      let same : c.reads + 1 - 1 ≡ c.reads = omega arith in
      ground (arith, same, lookup-insert key key (clock c.reads + ttl, v) c.cache)

  lead_stores :
      (g : Group) (key : ℕ) (executor : Option (ℕ → Outcome V)) (ttl : ℕ) (c : Controller V) (v : V)
      → (lead cfg clock g key executor ttl c).1 ≡ some v
      → (before : Controller V) × (lead cfg clock g key executor ttl c
          ≡ (store cfg clock key ttl (some v) before, some v))
  unfolding lead
  lead_stores g key executor ttl c v e = elim (Bool-cases (waited cfg clock c).2) [
    | inl got ↦
        let run = execute_with_retry cfg clock executor g (started cfg clock g key c) in
        let before = cleanup_inflight key run.0 in
        let value : run.1 ≡ some v = rw got at e in
        (
          before,
          rw got
              (ap {B = Controller V × Option V} (λ w. (store cfg clock key ttl w before, w)) value),
        )
    | inr refused ↦ absurd (none≢some (rw refused at e))
  ]

  fetch_leads :
      (g : Group) (key : ℕ) (executor : Option (ℕ → Outcome V)) (ttl : ℕ) (c : Controller V) (v : V)
      → (fetch cfg clock g key executor ttl c).1 ≡ answer (some v)
      → let led = lead cfg clock g key executor ttl (check_breaker cfg clock c).0 in
        ((fetch cfg clock g key executor ttl c).0 ≡ led.0) × (led.1 ≡ some v)
  unfolding fetch
  fetch_leads g key executor ttl c v e = ground arith

  fetch_stores :
      (g : Group) (key : ℕ) (executor : Option (ℕ → Outcome V)) (ttl : ℕ) (c : Controller V) (v : V)
      → (fetch cfg clock g key executor ttl c).1 ≡ answer (some v)
      → (before : Controller V) × ((fetch cfg clock g key executor ttl c).0
          ≡ store cfg clock key ttl (some v) before)
  fetch_stores g key executor ttl c v e =
      let (led, value) = fetch_leads g key executor ttl c v e in
      let (before, stored) = lead_stores g key executor ttl (check_breaker cfg clock c).0 v value in
      (before, led ∙ ap (λ (p : Controller V × Option V). p.0) stored)

  check_cache_hit :
      (key ttl later : ℕ) (v : V) (c : Controller V)
      → 0 < ttl
      → 0 < later
      → Holds key ttl v c
      → clock c.reads ≤ clock (c.reads - 1) + ttl
      → let (done, found) = check_cache cfg clock key later c in
        (found ≡ some v) × (done.calls ≡ c.calls)
  unfolding check_cache Cache.get
  check_cache_hit key ttl later v c pos pos' holds fresh = ground arith

  request_hit :
      (g : Group) (key : ℕ) (executor : Option (ℕ → Outcome V)) (ttl : ℕ) (c : Controller V) (v : V)
      → (c.paused && is_deferrable g) ≡ false
      → (check_cache cfg clock key ttl c).1 ≡ some v
      → request cfg clock g key executor ttl c
        ≡ ((check_cache cfg clock key ttl c).0, answer (some v))
  unfolding request
  request_hit g key executor ttl c v live hit = rw (live, hit, request)

  -- A value that a request fetched and cached answers the next request for its key, with no call of
  -- an executor, whatever the group, the executor and the circuit, if the next reading of the clock
  -- is at most `ttl` after the last, and if the group is not paused.
  pub fetch_then_request :
      (g h : Group) (key ttl later : ℕ) (executor other : Option (ℕ → Outcome V)) (c : Controller V)
      (v : V)
      → let fetched = fetch cfg clock g key executor ttl c in
        let done = fetched.0 in
        let again = request cfg clock h key other later done in
        fetched.1 ≡ answer (some v)
        → 0 < ttl
        → 0 < later
        → (done.paused && is_deferrable h) ≡ false
        → clock done.reads ≤ clock (done.reads - 1) + ttl
        → (again.1 ≡ answer (some v)) × (again.0.calls ≡ done.calls)
  fetch_then_request g h key ttl later executor other c v got pos pos' live fresh =
      let done = (fetch cfg clock g key executor ttl c).0 in
      let (before, stored) = fetch_stores g key executor ttl c v got in
      let holds : Holds key ttl v done = rw stored (store-Holds key ttl v before pos) in
      let (hit, same) = check_cache_hit key ttl later v done pos pos' holds fresh in
      rw (request_hit h key other later done v live hit) (refl, same)
