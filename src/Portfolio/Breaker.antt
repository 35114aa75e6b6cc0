-- ===== src/Portfolio/Breaker.antt =====
-- risk/portfolio_risk.py: its circuit breaker under the calls of the allocator.
use quantluna.Prelude.{ℕ, ◌≡◌, refl, ◌∙◌, true, false, Option, none, some, List, [], ◌∷◌, arith}
use quantluna.Prelude.Dict.{lookup}
use quantluna.Prelude.Float.{Float}
use quantluna.Portfolio.{
  PairExposure, Risk, update_pnl, set_pnl, remove_position, summary, check_drawdown,
}
use quantluna.Portfolio.Allocator.{
  Config, Allocator, Request, request_entry, update_pnls, update_state, record_exit, manual_resume,
  portfolio_summary,
}
use quantluna.Portfolio.Agreement.{
  Call, entry, tick, exit, resume, report, call, calls, entry_keeps, entry_outcome,
}

module _ {ℓ} {W : Type ℓ} ⦃f : Float W⦄ (cfg : Config W) where
  abbrev IsTripped : Allocator W → Type 0
  IsTripped a = a.portfolio_risk.circuit_breaker ≡ true

  set_pnl-breaker :
      (pair : ℕ) (pnl : W) (found : Option (PairExposure W)) (r : Risk W)
      → (set_pnl cfg.risk pair pnl found r).circuit_breaker ≡ r.circuit_breaker
  set_pnl-breaker pair pnl none r = refl
  set_pnl-breaker pair pnl (some held) r = refl

  update_pnls-breaker :
      (profits : List (ℕ × W)) (r : Risk W)
      → (update_pnls cfg profits r).circuit_breaker ≡ r.circuit_breaker
  unfolding update_pnls update_pnl
  update_pnls-breaker [] r = refl
  update_pnls-breaker (item ∷ items) r =
      update_pnls-breaker items (update_pnl cfg.risk item.0 item.1 r)
      ∙ set_pnl-breaker item.0 item.1 (lookup item.0 r.positions) r

  check_drawdown-breaker :
      (r : Risk W) → r.circuit_breaker ≡ true → (check_drawdown cfg.risk r).0.circuit_breaker ≡ true
  unfolding check_drawdown
  check_drawdown-breaker r h = grind (arith, h)

  check_drawdown-trips :
      (r : Risk W)
      → f.le cfg.risk.max_dd (check_drawdown cfg.risk r).1 ≡ true
      → (check_drawdown cfg.risk r).0.circuit_breaker ≡ true
  unfolding check_drawdown
  check_drawdown-trips r h = grind (arith, h)

  call-IsTripped : (x : Call W) (a : Allocator W) → IsTripped a → IsTripped (call cfg x a)
  unfolding call update_state record_exit remove_position manual_resume portfolio_summary summary
  call-IsTripped (entry q) a v =
      entry_keeps cfg IsTripped q a v (λ room. absurd (grind (arith, v, room.2)))
  call-IsTripped (tick profits) a v = update_pnls-breaker profits a.portfolio_risk ∙ v
  call-IsTripped (exit k) a v = v
  call-IsTripped resume a v = v
  call-IsTripped report a v = check_drawdown-breaker a.portfolio_risk v

  calls-IsTripped :
      (xs : List (Call W)) (a : Allocator W) → IsTripped a → IsTripped (calls cfg xs a)
  unfolding calls
  calls-IsTripped [] a v = v
  calls-IsTripped (x ∷ xs) a v = calls-IsTripped xs (call cfg x a) (call-IsTripped x a v)

  tripped_refuses :
      (q : Request W) (a : Allocator W) → IsTripped a → (request_entry cfg q a).1.allowed ≡ false
  tripped_refuses q a v = grind (arith, v, entry_outcome cfg q a)

  -- After a summary that reports a drawdown of at least the maximum, every request is refused,
  -- whatever calls come in between, resumes included.
  pub tripped_for_ever :
      (a : Allocator W) (xs : List (Call W)) (q : Request W)
      → let (after, seen) = portfolio_summary cfg a in
        f.le cfg.risk.max_dd seen.drawdown ≡ true
        → (request_entry cfg q (calls cfg xs after)).1.allowed ≡ false
  unfolding portfolio_summary summary
  tripped_for_ever a xs q deep =
      let after = (portfolio_summary cfg a).0 in
      tripped_refuses q (calls cfg xs after)
        (calls-IsTripped xs after (check_drawdown-trips a.portfolio_risk deep))
