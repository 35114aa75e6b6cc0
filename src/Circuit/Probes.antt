-- ===== src/Circuit/Probes.antt =====
-- execution/circuit_breaker.py: which calls the breaker lets through.
use quantluna.Prelude.{
  ℕ, ◌+◌, ◌≤◌, ◌<◌, ◌≡◌, false, List, [], ◌∷◌, arith, inl, inr, ◌⊎◌, if◌then◌else◌,
}
use quantluna.Circuit.{Breaker, Config, open_, half_open, enter, is_available}

-- The check that does not block agrees with entering, in every state: the breaker is available
-- exactly when a call would be admitted, if at least one half-open call is allowed.
pub is_available-enter :
    (cfg : Config) (now : ℕ) (b : Breaker)
    → 0 < cfg.half_open_max_calls
    → is_available cfg now b ≡ (enter cfg now b).1
unfolding is_available enter
is_available-enter cfg now b h = ground arith

-- How many of the calls that try to enter at these times, with none of them left, are admitted.
pub admissions : Config → List ℕ → Breaker → ℕ
admissions cfg [] b = 0
admissions cfg (t ∷ ts) b =
    let (b', admitted) = enter cfg t b in (if admitted then 1 else 0) + admissions cfg ts b'

module _ (cfg : Config) where
  enter_half_open :
      (t : ℕ) (b : Breaker)
      → b.state ≡ half_open
      → b.half_calls ≤ cfg.half_open_max_calls
      → let (b', admitted) = enter cfg t b in
        (b'.state ≡ half_open)
        × (b'.half_calls ≤ cfg.half_open_max_calls)
        × (b'.half_calls ≡ (if admitted then 1 else 0) + b.half_calls)
  unfolding enter
  enter_half_open t b h s = ground arith

  admissions_half_open :
      (ts : List ℕ) (b : Breaker)
      → b.state ≡ half_open
      → b.half_calls ≤ cfg.half_open_max_calls
      → admissions cfg ts b + b.half_calls ≤ cfg.half_open_max_calls
  unfolding admissions
  admissions_half_open [] b h s = omega arith
  admissions_half_open (t ∷ ts) b h s =
      let (kept, small, counted) = enter_half_open t b h s in
      omega (arith, admissions_half_open ts (enter cfg t b).0 kept small)

  enter_open :
      (t : ℕ) (b : Breaker)
      → b.state ≡ open_
      → let (b', admitted) = enter cfg t b in
        ((b'.state ≡ open_) × (admitted ≡ false))
        ⊎ ((b'.state ≡ half_open)
            × (b'.half_calls ≤ cfg.half_open_max_calls)
            × (b'.half_calls ≡ (if admitted then 1 else 0)))
  unfolding enter
  enter_open t b h = ground arith

  -- While a circuit is open, and after it turns half-open, at most `half_open_max_calls` of any
  -- number of calls are admitted before one of them ends, at whatever times they come.
  pub admissions-le :
      (ts : List ℕ) (b : Breaker) → b.state ≡ open_ → admissions cfg ts b ≤ cfg.half_open_max_calls
  unfolding admissions
  admissions-le [] b h = omega arith
  admissions-le (t ∷ ts) b h = elim (enter_open t b h) [
    | inl (kept, refused) ↦ rw refused (omega (arith, admissions-le ts (enter cfg t b).0 kept))
    | inr (half, small, counted) ↦
        omega (arith, admissions_half_open ts (enter cfg t b).0 half small)
  ]
