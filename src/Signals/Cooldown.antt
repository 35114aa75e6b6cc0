-- ===== src/Signals/Cooldown.antt =====
-- strategy/signal.py: what a `SignalGenerator` does in the bars after it has left a trade.
use quantluna.Prelude.{◌≤◌, ◌+◌, ◌≡◌, true, false, List, [], ◌∷◌, ap, arith, length, All}
use quantluna.Prelude.Float.{Float}
use quantluna.Signals.State.{exit, Config, Numerics, Generator, dynamic_cooldown}
use quantluna.Signals.{
  Bar, exit_now, exit_if_needed, is_timed_out, is_partial_due, partial, keep, after_exits, exits,
  gates, measure, compute_signal, observe, generate_live,
}
use quantluna.Signals.Protocol.{update_vol_buffer-keeps}
use quantluna.Signals.Runs.{Tick, live}

module _ {ℓ} {W : Type ℓ} ⦃f : Float W⦄ (num : Numerics W) (cfg : Config W) where
  -- No hard stop: the score is below the limit.
  abbrev pub IsCalm : Bar W → Type 0
  IsCalm bar = f.le cfg.zscore_stop (f.abs bar.z) ≡ false

  exits-waits :
      (bar : Bar W) (g : Generator W)
      → IsCalm bar
      → g.in_trade ≡ false
      → 1 ≤ g.cooldown_remaining
      → let (after, v) = exits num cfg bar g in
        (v.signal ≡ exit)
        × (after.in_trade ≡ false)
        × (g.cooldown_remaining ≤ after.cooldown_remaining + 1)
  unfolding exits after_exits is_timed_out is_partial_due
  exits-waits bar g calm out wait = ground arith

  gates-waits :
      (bar : Bar W) (g : Generator W)
      → IsCalm bar
      → g.in_trade ≡ false
      → 1 ≤ g.cooldown_remaining
      → let (after, v) = gates num cfg bar g in
        (v.signal ≡ exit)
        × (after.in_trade ≡ false)
        × (g.cooldown_remaining ≤ after.cooldown_remaining + 1)
  unfolding gates exit_if_needed
  gates-waits bar g calm out wait = grind (arith, exits-waits bar g calm out wait)

  generate_live-waits :
      (spread : W) (bar : Bar W) (g : Generator W)
      → IsCalm bar
      → g.in_trade ≡ false
      → 1 ≤ g.cooldown_remaining
      → let (after, v) = generate_live num cfg spread true bar g in
        (v.signal ≡ exit)
        × (after.in_trade ≡ false)
        × (g.cooldown_remaining ≤ after.cooldown_remaining + 1)
  unfolding generate_live compute_signal
  generate_live-waits spread bar g calm out wait =
      let same = update_vol_buffer-keeps num cfg spread g in
      let wait_same = ap (λ u. u.cooldown_remaining) same in
      let (is_exit, still_out, waits) =
        gates-waits bar (measure num cfg (observe num cfg spread bar.z g)) calm (rw same out)
          (rw same wait) in
      (is_exit, still_out, omega arith)

  live-waits :
      (ts : List (Tick W)) (g : Generator W)
      → All (λ t. IsCalm t.bar) ts
      → g.in_trade ≡ false
      → length ts ≤ g.cooldown_remaining
      → let (final, signals) = live num cfg ts g in
        All (λ s. s ≡ exit) signals × (final.in_trade ≡ false)
  unfolding live
  live-waits [] g calm out long_enough = (tt, out)
  live-waits (t ∷ ts) g calm out long_enough =
      let (is_exit, still_out, wait) =
        generate_live-waits t.spread t.bar g calm.0 out (omega arith) in
      let (exits_only, final) =
        live-waits ts (generate_live num cfg t.spread true t.bar g).0 calm.1 still_out
          (omega arith) in
      ((is_exit, exits_only), final)

  gates-leaves :
      (bar : Bar W) (g : Generator W)
      → g.in_trade ≡ true
      → (gates num cfg bar g).0.in_trade ≡ false
      → (gates num cfg bar g).0.cooldown_remaining ≡ dynamic_cooldown num cfg bar.half_life
  unfolding gates exits after_exits exit_if_needed exit_now keep partial
  gates-leaves bar g inside left = grind arith

  generate_live-leaves :
      (spread : W) (bar : Bar W) (g : Generator W)
      → g.in_trade ≡ true
      → (generate_live num cfg spread true bar g).0.in_trade ≡ false
      → (generate_live num cfg spread true bar g).0.cooldown_remaining
        ≡ dynamic_cooldown num cfg bar.half_life
  unfolding generate_live compute_signal
  generate_live-leaves spread bar g inside left =
      gates-leaves bar (measure num cfg (observe num cfg spread bar.z g))
        (rw (update_vol_buffer-keeps num cfg spread g) inside) left

  -- A bar that ends a trade is followed by a cooldown: of the next bars, as many as the cooldown for
  -- that bar's half life, each gives an exit and no trade is opened, if none of them has a score at
  -- the hard stop.
  pub no_reentry :
      (t : Tick W) (g : Generator W) (ts : List (Tick W))
      → g.in_trade ≡ true
      → (generate_live num cfg t.spread true t.bar g).0.in_trade ≡ false
      → All (λ t'. IsCalm t'.bar) ts
      → length ts ≤ dynamic_cooldown num cfg t.bar.half_life
      → let (final, signals) = live num cfg ts (generate_live num cfg t.spread true t.bar g).0 in
        All (λ s. s ≡ exit) signals × (final.in_trade ≡ false)
  no_reentry t g ts inside left calm few =
      let after = (generate_live num cfg t.spread true t.bar g).0 in
      let wait = generate_live-leaves t.spread t.bar g inside left in
      live-waits ts after calm left (omega arith)
