-- ===== src/Traffic/Request/Retries.antt =====
-- core/bybit_traffic_controller.py: how often an executor is called, and what comes back.
use quantluna.Prelude.{
  ◌⊎◌, inl, inr, ℕ, zero, suc, ◌+◌, ◌≤◌, ◌≡◌, refl, false, Option, none, some, arith,
}
use Prim.Native.Nat.add
use quantluna.Traffic.Breaker
use quantluna.Traffic.Request.{
  Group, Outcome, returned, failed, Config, Controller, succeed, fail, attempts, max_retries,
  execute_with_retry,
}

pub Outcome-cases {ℓ} :
    {V : Type ℓ} (o : Outcome V)
    → ((v : Option V) × (o ≡ returned v)) ⊎ ((status : ℕ) × (o ≡ failed status))
Outcome-cases (returned v) = inl (v, refl)
Outcome-cases (failed status) = inr (status, refl)

-- The executor fails in this many calls from the n-th on.
abbrev pub Fails {ℓ} : {V : Type ℓ} → ℕ → (ℕ → Outcome V) → ℕ → Type ℓ
Fails zero executor n = Unit
Fails (suc k) executor n = ((status : ℕ) × (executor n ≡ failed status)) × Fails k executor (suc n)

module _ {ℓ} {V : Type ℓ} (cfg : Config) (clock : ℕ → ℕ) where
  pub attempts_first :
      (left : ℕ) (executor : ℕ → Outcome V) (c : Controller V) (v : Option V)
      → executor c.calls ≡ returned v
      → attempts cfg clock left executor c ≡ (succeed c, v)
  unfolding attempts
  attempts_first zero executor c v e = rw (e, attempts)
  attempts_first (suc left) executor c v e = rw (e, attempts)

  pub attempts_last :
      (executor : ℕ → Outcome V) (c : Controller V) (status : ℕ)
      → executor c.calls ≡ failed status
      → attempts cfg clock zero executor c ≡ (fail cfg clock status c, none)
  unfolding attempts
  attempts_last executor c status e = rw (e, attempts)

  pub attempts_again :
      (left : ℕ) (executor : ℕ → Outcome V) (c : Controller V) (status : ℕ)
      → executor c.calls ≡ failed status
      → attempts cfg clock (suc left) executor c
        ≡ attempts cfg clock left executor (fail cfg clock status c)
  unfolding attempts
  attempts_again left executor c status e = rw (e, attempts)

  pub calls-fail : (status : ℕ) (c : Controller V) → (fail cfg clock status c).calls ≡ suc c.calls
  unfolding fail
  calls-fail status c = omega arith

  attempts_return :
      (left : ℕ) (executor : ℕ → Outcome V) (k : ℕ) (c : Controller V) (v : Option V)
      → Fails k executor c.calls
      → executor (k + c.calls) ≡ returned v
      → k ≤ left
      → let (done, got) = attempts cfg clock left executor c in
        (got ≡ v) × (done.calls ≡ c.calls + k + 1) × (done.breaker.is_open ≡ false)
  attempts_return left executor zero c v fails ok le =
      let here : executor c.calls ≡ returned v = rw add.zero at ok in
      rw (attempts_first left executor c v here)
        (unfold succeed Breaker.on_success in (refl, omega arith, refl))
  attempts_return zero executor (suc k) c v fails ok le = absurd (omega arith)
  attempts_return (suc left) executor (suc k) c v ((status, e), fails) ok le =
      let next = fail cfg clock status c in
      let at : c.calls + 1 ≡ suc c.calls = omega arith in
      let same : next.calls ≡ suc c.calls = calls-fail status c in
      let shift : suc k + c.calls ≡ k + suc c.calls = omega arith in
      let (value, count, closed) =
        attempts_return left executor k next v (rw same fails) (rw (same, ← shift) ok)
          (omega arith) in
      rw (attempts_again left executor c status e) (value, omega arith, closed)

  attempts_fail :
      (left : ℕ) (executor : ℕ → Outcome V) (c : Controller V)
      → Fails (suc left) executor c.calls
      → let (done, got) = attempts cfg clock left executor c in
        (got ≡ none) × (done.calls ≡ c.calls + left + 1)
  attempts_fail zero executor c ((status, e), fails) =
      rw (attempts_last executor c status e) (refl, omega (arith, calls-fail status c))
  attempts_fail (suc left) executor c ((status, e), fails) =
      let (value, count) =
        attempts_fail left executor (fail cfg clock status c) (rw (calls-fail status c) fails) in
      rw (attempts_again left executor c status e)
        (value, omega (arith, calls-fail status c, count))

  -- A request retries until the executor returns: if it raises `k` times and then returns a value,
  -- and `k` is at most the retries of the group, the result is that value after `k + 1` calls, and
  -- the circuit is closed.
  pub execute_with_retry_returns :
      (executor : ℕ → Outcome V) (g : Group) (k : ℕ) (c : Controller V) (v : Option V)
      → Fails k executor c.calls
      → executor (k + c.calls) ≡ returned v
      → k ≤ max_retries g
      → let (done, got) = execute_with_retry cfg clock (some executor) g c in
        (got ≡ v) × (done.calls ≡ c.calls + k + 1) × (done.breaker.is_open ≡ false)
  unfolding execute_with_retry
  execute_with_retry_returns executor g k c v = attempts_return (max_retries g) executor k c v

  -- If the executor raises at every one of `max_retries + 1` calls, exactly these calls are made,
  -- and the result is `None`.
  execute_with_retry_gives_up :
      (executor : ℕ → Outcome V) (g : Group) (c : Controller V)
      → Fails (suc (max_retries g)) executor c.calls
      → let (done, got) = execute_with_retry cfg clock (some executor) g c in
        (got ≡ none) × (done.calls ≡ c.calls + max_retries g + 1)
  unfolding execute_with_retry
  execute_with_retry_gives_up executor g c = attempts_fail (max_retries g) executor c
