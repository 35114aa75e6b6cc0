-- ===== src/Traffic/Bucket/Waiting.antt =====
-- core/bybit_traffic_controller.py: the end of the loop of `wait_and_acquire`.
use quantluna.Prelude.{
  ℕ, zero, suc, ◌+◌, ◌*◌, ◌/◌, ◌≤◌, ◌<◌, ◌≡◌, arith, ltb, Bool-cases, ap, inl, inr,
}
use quantluna.Traffic.Bucket.{
  Rate, Bucket, acquire, poll, poll_round, wait_and_acquire, nap, rounds,
}

-- What the loop relies on, for some rounds from the reading `n` on: the clock does not run back, and
-- the sleep between two rounds takes its time.
abbrev pub Naps : (ℕ → ℕ) → ℕ → ℕ → Type 0
Naps clock zero n = Unit
Naps clock (suc f) n =
    (clock n ≤ clock (n + 1)) × (clock (n + 1) + nap ≤ clock (n + 2)) × Naps clock f (n + 2)

module _ (r : Rate) (clock : ℕ → ℕ) where
  poll_fuel :
      (f extra deadline n : ℕ) (b : Bucket)
      → Naps clock f n
      → deadline < clock n + f * nap + 1
      → poll (suc (f + extra)) r clock deadline n b ≡ poll (suc f) r clock deadline n b
  unfolding poll
  poll_fuel zero extra deadline n b s h = ground arith
  poll_fuel (suc f) extra deadline n b s h = elim (Bool-cases (ltb (clock n) deadline)) [
    | inl early ↦
        let b' = (acquire r (clock (n + 1)) b).0 in
        let same : suc f + extra ≡ suc (f + extra) = omega arith in
        rw same (
          ap (poll_round r clock deadline n b)
            (poll_fuel f extra deadline (n + 2) b' s.2 (omega arith)))
    | inr late ↦ rw late
  ]

  -- The loop ends by its own test and never for want of fuel: on a clock that does not run back and
  -- where a sleep takes its time, any number of further rounds changes nothing, neither the result
  -- nor the bucket nor the readings of the clock.
  pub wait_and_acquire_ends :
      (extra timeout n : ℕ) (b : Bucket)
      → clock n ≤ clock (n + 1)
      → Naps clock (timeout / nap + 1) (n + 1)
      → poll (rounds timeout + extra) r clock (clock n + timeout) (n + 1) b
        ≡ wait_and_acquire r clock timeout n b
  unfolding wait_and_acquire
  wait_and_acquire_ends extra timeout n b up s =
      let f = timeout / nap + 1 in
      let same : suc f + extra ≡ suc (f + extra) = omega arith in
      rw same (poll_fuel f extra (clock n + timeout) (n + 1) b s (omega arith))
