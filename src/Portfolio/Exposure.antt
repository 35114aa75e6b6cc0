-- ===== src/Portfolio/Exposure.antt =====
-- risk/multi_pair_allocator.py: the limit on the exposure.
use quantluna.Prelude.{ℕ, ◌+◌, ◌≤◌, ◌≡◌, refl, ◌∙◌, ap, List, [], ◌∷◌, arith}
use quantluna.Prelude.Dict.{Dict, insert, erase}
use quantluna.Prelude.Float.{Float}
use quantluna.Portfolio.{PairExposure, total_exposure}
use quantluna.Portfolio.Allocator.{
  Config, Allocator, Request, new, sum_notionals, admit, request_entry, update_state, record_exit,
  manual_resume, portfolio_summary,
}
use quantluna.Portfolio.Agreement.{
  Call, entry, tick, exit, resume, report, call, calls, notionals, call-DoAgree, asked, entered,
  HasRoom, entry_keeps,
}

total-notionals {ℓ} :
    {W : Type ℓ} (items : Dict (PairExposure W))
    → total_exposure items ≡ sum_notionals (notionals items)
total-notionals [] = refl
total-notionals (item ∷ items) = grind (arith, total-notionals items)

sum-insert :
    (pair n : ℕ) (items : Dict ℕ) → sum_notionals (insert pair n items) ≤ sum_notionals items + n
sum-insert pair n [] = omega arith
sum-insert pair n (item ∷ items) = grind (arith, sum-insert pair n items)

sum-erase : (pair : ℕ) (items : Dict ℕ) → sum_notionals (erase pair items) ≤ sum_notionals items
sum-erase pair [] = omega arith
sum-erase pair (item ∷ items) = grind (arith, sum-erase pair items)

module _ {ℓ} {W : Type ℓ} ⦃f : Float W⦄ (cfg : Config W) where
  abbrev IsWithin : Allocator W → Type 0
  IsWithin a =
      (notionals a.portfolio_risk.positions ≡ a.active_pairs)
      × (sum_notionals a.active_pairs ≤ cfg.risk.max_exposure)

  entered-IsWithin :
      (q : Request W) (a : Allocator W)
      → IsWithin a
      → HasRoom cfg q a
      → sum_notionals (entered cfg q a).active_pairs ≤ cfg.risk.max_exposure
  unfolding admit
  entered-IsWithin q a v room =
      let more = sum-insert q.pair_id (asked cfg q a) a.active_pairs in
      let total = total-notionals a.portfolio_risk.positions ∙ ap sum_notionals v.0 in
      omega (arith, more, total, room.3)

  entry-IsWithin :
      (q : Request W) (a : Allocator W)
      → IsWithin a
      → sum_notionals (request_entry cfg q a).0.active_pairs ≤ cfg.risk.max_exposure
  entry-IsWithin q a v =
      entry_keeps cfg (λ a'. sum_notionals a'.active_pairs ≤ cfg.risk.max_exposure) q a v.1
        (entered-IsWithin q a v)

  call-IsWithin : (x : Call W) (a : Allocator W) → IsWithin a → IsWithin (call cfg x a)
  unfolding call update_state record_exit manual_resume portfolio_summary
  call-IsWithin (entry q) a v = (call-DoAgree cfg (entry q) a v.0, entry-IsWithin q a v)
  call-IsWithin (tick profits) a v = (call-DoAgree cfg (tick profits) a v.0, v.1)
  call-IsWithin (exit pair) a v =
      let fewer = sum-erase pair a.active_pairs in
      (call-DoAgree cfg (exit pair) a v.0, omega (arith, fewer, v.1))
  call-IsWithin resume a v = (call-DoAgree cfg resume a v.0, v.1)
  call-IsWithin report a v = (call-DoAgree cfg report a v.0, v.1)

  calls-IsWithin : (xs : List (Call W)) (a : Allocator W) → IsWithin a → IsWithin (calls cfg xs a)
  unfolding calls
  calls-IsWithin [] a v = v
  calls-IsWithin (x ∷ xs) a v = calls-IsWithin xs (call cfg x a) (call-IsWithin x a v)

  -- After any calls on a new allocator its active pairs are the positions of the risk monitor with
  -- their notionals, and the sum of the notionals is within the limit on the exposure.
  pub exposure_within :
      (xs : List (Call W))
      → let a = calls cfg xs (new cfg) in
        (notionals a.portfolio_risk.positions ≡ a.active_pairs)
        × (total_exposure a.portfolio_risk.positions ≤ cfg.risk.max_exposure)
        × (sum_notionals a.active_pairs ≤ cfg.risk.max_exposure)
  exposure_within xs =
      let v = calls-IsWithin xs (new cfg) (refl, omega arith) in
      let same = total-notionals (calls cfg xs (new cfg)).portfolio_risk.positions in
      (v.0, grind (arith, v.0, v.1, same), v.1)
