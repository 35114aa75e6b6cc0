-- ===== src/RiskBreaker/Cooldown.antt =====
-- risk/circuit_breaker.py: how long a tripped breaker refuses, and what trips it.
use quantluna.Prelude.{
  ℕ, suc, ◌+◌, ◌≤◌, ◌<◌, ◌≡◌, ◌≢◌, ◌↔◌, ◌⊎◌, true, some, List, [], ◌∷◌, arith, All,
}
use quantluna.Prelude.Float.{Float}
use quantluna.RiskBreaker.{
  closed, opened, Config, Breaker, trip, maybe_transition, allow, record_win, record_loss,
  record_error, set_equity, drawdown_of,
}

-- What the trading code tells a breaker, and its question.
pub data Report {ℓ} (W : Type ℓ) : Type ℓ where
  win : W → Report W
  loss : W → Report W
  error : Report W
  equity : W → Report W
  question : Report W

module _ {ℓ} {W : Type ℓ} ⦃f : Float W⦄ where
  unfoldable pub report : Config W → ℕ → Report W → Breaker W → Breaker W
  report cfg now (win pnl) b = record_win pnl b
  report cfg now (loss pnl) b = record_loss cfg now pnl b
  report cfg now error b = record_error cfg now b
  report cfg now (equity e) b = set_equity e b
  report cfg now question b = (allow cfg now b).0

  pub reports : Config W → List (ℕ × Report W) → Breaker W → Breaker W
  reports cfg [] b = b
  reports cfg ((now, r) ∷ rs) b = reports cfg rs (report cfg now r b)

  abbrev IsOpenSince : ℕ → Breaker W → Type 0
  IsOpenSince t b = (b.status ≡ opened) × (b.open_at ≡ some t)

  report-IsOpenSince :
      (cfg : Config W) (t now : ℕ) (r : Report W) (b : Breaker W)
      → now < t + cfg.cooldown
      → IsOpenSince t b
      → IsOpenSince t (report cfg now r b)
  unfolding report record_win record_loss record_error set_equity allow maybe_transition trip
  report-IsOpenSince cfg t now (win pnl) b h o = ground arith
  report-IsOpenSince cfg t now (loss pnl) b h o = ground arith
  report-IsOpenSince cfg t now error b h o = ground arith
  report-IsOpenSince cfg t now (equity e) b h o = ground arith
  report-IsOpenSince cfg t now question b h o = ground arith

  reports-IsOpenSince :
      (cfg : Config W) (t : ℕ) (rs : List (ℕ × Report W)) (b : Breaker W)
      → All (λ r. r.0 < t + cfg.cooldown) rs
      → IsOpenSince t b
      → IsOpenSince t (reports cfg rs b)
  unfolding reports
  reports-IsOpenSince cfg t [] b h o = o
  reports-IsOpenSince cfg t ((now, r) ∷ rs) b h o =
      reports-IsOpenSince cfg t rs (report cfg now r b) h.1 (report-IsOpenSince cfg t now r b h.0 o)

  -- A breaker that tripped at a time refuses until the cooldown has passed: whatever was reported or
  -- asked before that, an order is allowed exactly from the end of the cooldown on.
  pub reports-allow :
      (cfg : Config W) (t now : ℕ) (rs : List (ℕ × Report W)) (b : Breaker W)
      → b.status ≡ opened
      → b.open_at ≡ some t
      → All (λ r. r.0 < t + cfg.cooldown) rs
      → ((allow cfg now (reports cfg rs b)).1 ≡ true) ↔ (t + cfg.cooldown ≤ now)
  unfolding allow maybe_transition
  reports-allow cfg t now rs b e o h =
      let held = reports-IsOpenSince cfg t rs b h (e, o) in ground arith

  -- A loss opens a breaker that was not open exactly if it completes the streak, or takes the equity
  -- so far below a positive peak that the drawdown reaches its limit.
  pub record_loss-opens :
      (cfg : Config W) (now : ℕ) (pnl : W) (b : Breaker W)
      → b.status ≢ opened
      → let after = record_loss cfg now pnl b in
        (after.status ≡ opened) ↔ (
          (cfg.max_losses ≤ suc b.consecutive_losses)
          ⊎ ((f.lt f.nought b.peak_equity ≡ true) × (f.le cfg.max_dd (drawdown_of after) ≡ true)))
  unfolding record_loss trip
  record_loss-opens cfg now pnl b h = ground arith

  -- Nothing but `reset` closes a breaker again: once it has tripped, no report and no question brings
  -- it back to closed, however much later; a win in the half-open state does not either.
  pub reports-not-closed :
      (cfg : Config W) (rs : List (ℕ × Report W)) (b : Breaker W)
      → b.status ≢ closed
      → (reports cfg rs b).status ≢ closed
  unfolding reports report record_win record_loss record_error set_equity allow maybe_transition
      trip
  reports-not-closed cfg [] b h = h
  reports-not-closed cfg ((now, r) ∷ rs) b h =
      reports-not-closed cfg rs (report cfg now r b) (report-not-closed r)
    where
      report-not-closed : (r : Report W) → (report cfg now r b).status ≢ closed
      report-not-closed (win pnl) = ground arith
      report-not-closed (loss pnl) = ground arith
      report-not-closed error = ground arith
      report-not-closed (equity e) = ground arith
      report-not-closed question = ground arith
