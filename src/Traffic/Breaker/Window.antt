-- ===== src/Traffic/Breaker/Window.antt =====
-- core/bybit_traffic_controller.py: the breaker's pruned list of error times against a log of all
-- the errors.
use quantluna.Prelude.{
  ℕ, ◌+◌, ◌≤◌, ◌≡◌, refl, Bool, false, List, [], ◌∷◌, ◌++◌, ◌||◌, arith, ltb, length, if◌then◌else◌,
}
use quantluna.Traffic.Breaker.{Breaker, Config, prune, reaches, record_error, fresh}

abbrev pub recent : ℕ → ℕ → List ℕ → ℕ
recent w now [] = 0
recent w now (t ∷ ts) = (if ltb now (t + w) then 1 else 0) + recent w now ts

-- Errors, each with its time and its status, reported one after another.
pub errors : Config → List (ℕ × ℕ) → Breaker → Breaker
errors cfg [] b = b
errors cfg ((now, status) ∷ es) b = errors cfg es (record_error cfg now status b)

-- Whether one of the errors comes when the errors of the window before it, itself included, reach a
-- threshold. The log has the latest error first and forgets nothing.
pub trips : Config → List (ℕ × ℕ) → List ℕ → Bool
trips cfg [] log = false
trips cfg ((now, status) ∷ es) log =
    reaches cfg status (recent cfg.window now (now ∷ log)) || trips cfg es (now ∷ log)

abbrev pub IsRising : ℕ → List (ℕ × ℕ) → Type 0
IsRising now [] = Unit
IsRising now ((t, status) ∷ es) = (now ≤ t) × IsRising t es

module _ (w : ℕ) where
  length-prune-prune :
      (now later : ℕ) (ts : List ℕ)
      → now ≤ later
      → length (prune w later (prune w now ts)) ≡ length (prune w later ts)
  unfolding prune
  length-prune-prune now later [] h = refl
  length-prune-prune now later (t ∷ ts) h = ground (arith, length-prune-prune now later ts h)

  length-prune-append :
      (now t : ℕ) (ts : List ℕ)
      → length (prune w now (ts ++ (t ∷ [])))
        ≡ (if ltb now (t + w) then 1 else 0) + length (prune w now ts)
  unfolding prune
  length-prune-append now t [] = ground arith
  length-prune-append now t (u ∷ ts) = ground (arith, length-prune-append now t ts)

-- From the time `now` on, the breaker's list and the log have the same counts.
record Represents (w now : ℕ) (b : Breaker) (log : List ℕ) : Type 0 where
  idle : b.half_open ≡ false
  counts : (t : ℕ) → now ≤ t → length (prune w t b.error_times) ≡ recent w t log

module _ (cfg : Config) where
  record_error_counts :
      (now t status : ℕ) (b : Breaker) (log : List ℕ)
      → Represents cfg.window now b log
      → now ≤ t
      → (u : ℕ) → t ≤ u
      → length (prune cfg.window u (record_error cfg t status b).error_times)
        ≡ recent cfg.window u (t ∷ log)
  unfolding record_error
  record_error_counts now t status b log r le u lu = ground (
    arith,
    r.counts u (omega arith),
    length-prune-prune cfg.window t u (b.error_times ++ (t ∷ [])) lu,
    length-prune-append cfg.window u t b.error_times,
  )

  record_error_open :
      (now t status : ℕ) (b : Breaker) (log : List ℕ)
      → Represents cfg.window now b log
      → now ≤ t
      → ((record_error cfg t status b).half_open ≡ false)
        × ((record_error cfg t status b).is_open
            ≡ (b.is_open || reaches cfg status (recent cfg.window t (t ∷ log))))
  unfolding record_error
  record_error_open now t status b log r le =
      ground (arith, r.idle, r.counts t le, length-prune-append cfg.window t t b.error_times)

  errors_open :
      (es : List (ℕ × ℕ)) (now : ℕ) (b : Breaker) (log : List ℕ)
      → IsRising now es
      → Represents cfg.window now b log
      → (errors cfg es b).is_open ≡ (b.is_open || trips cfg es log)
  unfolding errors trips
  errors_open [] now b log up r = ground arith
  errors_open ((t, status) ∷ es) now b log up r =
      let (idle, step) = record_error_open now t status b log r up.0 in
      let next : Represents cfg.window t (record_error cfg t status b) (t ∷ log) = record {
        idle = idle;
        counts = record_error_counts now t status b log r up.0;
      } in
      ground (arith, step, errors_open es t (record_error cfg t status b) (t ∷ log) up.1 next)

  -- A new breaker is open after a run of errors, on a clock that does not run back, exactly if one
  -- of them came when the window that ends with it held `error_threshold` errors, or
  -- `threshold_429` errors and its own status was 429: pruning loses no error that still counts.
  pub errors-trips :
      (es : List (ℕ × ℕ)) → IsRising 0 es → (errors cfg es fresh).is_open ≡ trips cfg es []
  unfolding prune
  errors-trips es up = errors_open es 0 fresh [] up (record { idle = refl; counts = λ t le. refl })
