-- ===== src/Signals/Duration.antt =====
-- strategy/signal.py: how long a trade of a `SignalGenerator` can last.
use quantluna.Prelude.{
  ℕ, suc, ◌≤◌, ◌<◌, ◌+◌, ◌-◌, ◌≡◌, ◌⊎◌, inl, inr, true, false, List, [], ◌∷◌, arith, ap, length,
  if◌then◌else◌,
}
use quantluna.Prelude.Float.{Float}
use quantluna.Signals.State.{exit, Config, Numerics, Generator, is_nan}
use quantluna.Signals.{
  Bar, time_limit, exit_now, exit_if_needed, is_timed_out, is_partial_due, partial, keep,
  after_exits, exits, gates, measure, compute_signal, observe, generate_live,
}
use quantluna.Signals.Protocol.{update_vol_buffer-keeps, IsValid, generate_live-IsStep}
use quantluna.Signals.Runs.{Tick, live, Has, found, later}

-- Every bar has the same half life.
pub data HasHalfLife {ℓ} {W : Type ℓ} (h : W) : List (Tick W) → Type ℓ where
  no_bar : HasHalfLife h []
  bar_more :
      {t : Tick W} {ts : List (Tick W)}
      → t.bar.half_life ≡ h
      → HasHalfLife h ts
      → HasHalfLife h (t ∷ ts)

module _ {ℓ} {W : Type ℓ} ⦃f : Float W⦄ (num : Numerics W) (cfg : Config W) where
  -- The bars that are left to a trade, one of them for the partial exit.
  abbrev pub bars_left : W → Generator W → ℕ
  bars_left half_life g =
      suc (time_limit num cfg half_life) - g.bars_in_trade + (if g.partial_exit_done then 0 else 1)

  keep-lasts :
      (z h : W) (g : Generator W)
      → g.in_trade ≡ true
      → is_nan h ≡ false
      → is_timed_out num cfg h g ≡ false
      → (keep num cfg z g).0.in_trade ≡ true
        × suc (bars_left h (keep num cfg z g).0) ≤ bars_left h g
  unfolding keep is_timed_out
  keep-lasts z h g inside number early = ground arith

  partial-lasts :
      (z h : W) (g : Generator W)
      → is_nan h ≡ false
      → is_timed_out num cfg h g ≡ false
      → is_partial_due num cfg z g ≡ true
      → (partial num cfg z g).0.in_trade ≡ true
        × suc (bars_left h (partial num cfg z g).0) ≤ bars_left h g
  unfolding partial is_timed_out is_partial_due
  partial-lasts z h g number early due = ground arith

  gates-lasts :
      (bar : Bar W) (g : Generator W)
      → g.in_trade ≡ true
      → g.cooldown_remaining ≡ 0
      → is_nan bar.half_life ≡ false
      → let (after, v) = gates num cfg bar g in
        (v.signal ≡ exit)
        ⊎ ((after.in_trade ≡ true)
            × (suc (bars_left bar.half_life after) ≤ bars_left bar.half_life g))
  unfolding gates exits after_exits exit_if_needed exit_now
  gates-lasts bar g inside ready number = grind (
    arith,
    keep-lasts bar.z bar.half_life g inside number,
    partial-lasts bar.z bar.half_life g number,
  )

  generate_live-lasts :
      (spread : W) (bar : Bar W) (g : Generator W)
      → IsValid g
      → g.in_trade ≡ true
      → is_nan bar.half_life ≡ false
      → let (after, v) = generate_live num cfg spread true bar g in
        (v.signal ≡ exit)
        ⊎ ((after.in_trade ≡ true)
            × (suc (bars_left bar.half_life after) ≤ bars_left bar.half_life g))
  unfolding generate_live compute_signal
  generate_live-lasts spread bar g valid inside number =
      let same = update_vol_buffer-keeps num cfg spread g in
      let seen = measure num cfg (observe num cfg spread bar.z g) in
      let ready : g.cooldown_remaining ≡ 0 = grind (arith, valid) in
      let left = ap (bars_left bar.half_life) same in
      grind (arith, left, gates-lasts bar seen (rw same inside) (rw same ready) number)

  live-lasts :
      (h : W) (ts : List (Tick W)) (g : Generator W)
      → is_nan h ≡ false
      → IsValid g
      → g.in_trade ≡ true
      → HasHalfLife h ts
      → Has exit (live num cfg ts g).1 ⊎ (length ts ≤ bars_left h g)
  unfolding live
  live-lasts h [] g number valid inside same = inr (omega arith)
  live-lasts h (t ∷ ts) g number valid inside (bar_more first same) =
      let after = (generate_live num cfg t.spread true t.bar g).0 in
      let valid' = (generate_live-IsStep num cfg t.spread t.bar g valid).0 in
      elim (generate_live-lasts t.spread t.bar g valid inside (rw first number)) [
        | inl left ↦ inl (rw left found)
        | inr (still, fewer) ↦ elim (live-lasts h ts after number valid' still same) [
          | inl out ↦ inl (later out)
          | inr short_enough ↦ inr (grind (arith, first, fewer, short_enough))
        ]
      ]

  -- A trade ends: with one half life that is a number at every bar, the bars of a trade that has lasted
  -- for some bars already bring an exit before they are more than what is left of the time limit, a
  -- bar beyond it, and a bar for the partial exit if that is still to come.
  pub trade_ends :
      (h : W) (ts : List (Tick W)) (g : Generator W)
      → is_nan h ≡ false
      → IsValid g
      → g.in_trade ≡ true
      → HasHalfLife h ts
      → bars_left h g < length ts
      → Has exit (live num cfg ts g).1
  trade_ends h ts g number valid inside same many =
      elim (live-lasts h ts g number valid inside same) [
        | inl out ↦ out
        | inr few ↦ absurd (omega arith)
      ]
