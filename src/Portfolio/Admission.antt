-- ===== src/Portfolio/Admission.antt =====
-- risk/multi_pair_allocator.py: when a request is admitted, and what it leaves in the tables.
use mathlib.Core.Path.{subst}
use quantluna.Prelude.{
  refl, sym, ℕ, suc, ◌+◌, ◌≡◌, Bool, true, false, not, ◌&&◌, some, arith, ◌==◌, leb, ltb,
  if◌then◌else◌,
}
use quantluna.Prelude.Dict.{lookup, lookup-insert}
use quantluna.Prelude.Float.{Float}
use quantluna.Drawdown
use quantluna.Portfolio.{total_exposure, add_position}
use quantluna.Portfolio.Allocator.{
  Config, Allocator, Request, exposure_of, admit, enter, request_entry,
}
use quantluna.Portfolio.Agreement.{asked, entered}

module _ {ℓ} {W : Type ℓ} ⦃f : Float W⦄ (cfg : Config W) where
  -- No gate stands against the request.
  abbrev pub passes : Request W → Allocator W → Bool
  passes q a =
      Drawdown.can_open_new a.dd
      && ltb a.n_pairs cfg.max_concurrent_pairs
      && q.corr_allowed
      && leb 10 (asked cfg q a)
      && not a.portfolio_risk.circuit_breaker
      && leb (total_exposure a.portfolio_risk.positions + asked cfg q a) cfg.risk.max_exposure

  entry-passes :
      (q : Request W) (a : Allocator W)
      → let (after, decision) = request_entry cfg q a in
        (after ≡ (if passes q a then entered cfg q a else a))
        × (decision.allowed ≡ passes q a)
        × (decision.notional_usd ≡ (if passes q a then asked cfg q a else 0))
  unfolding request_entry enter add_position
  entry-passes q a = grind arith

  -- What an allocator has of a pair.
  abbrev HasIn : ℕ → Request W → Allocator W → Bool → Allocator W → Type ℓ
  HasIn pair q a ok after =
      let changed = ok && pair == q.pair_id in
      (lookup pair after.active_pairs
        ≡ (if changed then some (asked cfg q a) else lookup pair a.active_pairs))
      × (lookup pair after.portfolio_risk.positions ≡ (
          if changed
          then some (exposure_of cfg q (asked cfg q a))
          else lookup pair a.portfolio_risk.positions))
      × (lookup pair after.dd.pair_states ≡ (
          if changed
          then some (Drawdown.fresh_pair cfg.drawdown a.dd)
          else lookup pair a.dd.pair_states))
      × (after.n_pairs ≡ (if ok then suc a.n_pairs else a.n_pairs))

  if-HasIn :
      (q : Request W) (a : Allocator W) (pair : ℕ) (ok : Bool)
      → HasIn pair q a ok (if ok then entered cfg q a else a)
  unfolding admit Drawdown.open_pair
  if-HasIn q a pair false = (refl, refl, refl, refl)
  if-HasIn q a pair true = (
    lookup-insert pair q.pair_id (asked cfg q a) a.active_pairs,
    lookup-insert pair q.pair_id (exposure_of cfg q (asked cfg q a)) a.portfolio_risk.positions,
    lookup-insert pair q.pair_id (Drawdown.fresh_pair cfg.drawdown a.dd) a.dd.pair_states,
    omega arith,
  )

  -- A request is admitted exactly if no gate stands against it. In that case its pair is found with the
  -- asked notional among the active pairs, with its exposure among the positions and as new at the
  -- drawdown controller, every other pair is found as before in each, and the count is one more;
  -- otherwise the decision has a notional of 0 and every pair and the count are as before.
  pub entry_in_tables :
      (q : Request W) (a : Allocator W) (pair : ℕ)
      → let (after, decision) = request_entry cfg q a in
        let ok = passes q a in
        let changed = ok && pair == q.pair_id in
        (decision.allowed ≡ ok)
        × (decision.notional_usd ≡ (if ok then asked cfg q a else 0))
        × (lookup pair after.active_pairs
            ≡ (if changed then some (asked cfg q a) else lookup pair a.active_pairs))
        × (lookup pair after.portfolio_risk.positions ≡ (
            if changed
            then some (exposure_of cfg q (asked cfg q a))
            else lookup pair a.portfolio_risk.positions))
        × (lookup pair after.dd.pair_states ≡ (
            if changed
            then some (Drawdown.fresh_pair cfg.drawdown a.dd)
            else lookup pair a.dd.pair_states))
        × (after.n_pairs ≡ (if ok then suc a.n_pairs else a.n_pairs))
  entry_in_tables q a pair =
      let (state, allowed, notional) = entry-passes q a in
      let tables =
        subst (HasIn pair q a (passes q a)) (sym state) (if-HasIn q a pair (passes q a)) in
      (allowed, notional, tables.0, tables.1, tables.2, tables.3)
