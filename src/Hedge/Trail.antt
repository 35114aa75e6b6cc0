-- ===== src/Hedge/Trail.antt =====
-- execution/single_hedge_manager.py: how the stop moves, and the price that it follows.
use quantluna.Prelude.{
  ◌≡◌, refl, Bool, true, false, some, List, [], ◌∷◌, ◌&&◌, arith, ◌⊎◌, inl, inr, not, Option-cases,
  Bool-cases,
}
use quantluna.Prelude.Float.{Float, IsOrdered, max_of}
use quantluna.Hedge.{
  Manager, Poll, Sources, quoted, poll, poll_loop, on_price_tick, fetch_mark_price, first_price,
  has_active_legs,
}
use quantluna.Hedge.Leg.{
  Config, LegState, update_trailing_sl_long, check_sl_tp_long, close_leg, tick_long,
}

module _ {ℓ} {W : Type ℓ} ⦃f : Float W⦄ where
  -- A price that was fetched is above 0, and one of the three sources gave it.
  fetch_mark_price_source :
      (s : Sources W) (price : W)
      → fetch_mark_price s ≡ some price
      → (f.lt f.nought price ≡ true)
        × ((s.mark_price ≡ quoted price)
            ⊎ ((s.tickers ≡ quoted price) ⊎ (s.positions ≡ quoted price)))
  unfolding fetch_mark_price first_price
  fetch_mark_price_source s price e = ground arith

  -- Ticks of the trailing stop of a long leg, one after another.
  unfoldable pub trail : Config W → List W → LegState W → LegState W
  trail cfg [] st = st
  trail cfg (price ∷ prices) st = trail cfg prices (update_trailing_sl_long cfg price st).0

  update_slow :
      (cfg : Config W) (price : W) (st : LegState W)
      → let high = max_of st.trailing_high price in
        f.le (f.add st.trailing_high (f.mul st.entry_price cfg.trailing_step_pct)) high ≡ false
        → (update_trailing_sl_long cfg price st).0 ≡ record st { trailing_high = high }
  unfolding update_trailing_sl_long
  update_slow cfg price st e = rw e refl

  -- Every price lies below the highest one before it and a step.
  abbrev pub IsSlow : W → W → List W → Type 0
  IsSlow step high [] = Unit
  IsSlow step high (price ∷ prices) =
      (f.le (f.add high step) (max_of high price) ≡ false) × IsSlow step (max_of high price) prices

  abbrev pub highest : W → List W → W
  highest high [] = high
  highest high (price ∷ prices) = highest (max_of high price) prices

  -- A rise that stays under a step per tick never moves the stop, however far it goes in all, since
  -- the step is counted from the highest price, which each tick moves.
  pub slow_rise :
      (cfg : Config W) (prices : List W) (st : LegState W)
      → IsSlow (f.mul st.entry_price cfg.trailing_step_pct) st.trailing_high prices
      → ((trail cfg prices st).sl_price ≡ st.sl_price)
        × ((trail cfg prices st).trailing_high ≡ highest st.trailing_high prices)
  unfolding trail
  slow_rise cfg [] st h = (refl, refl)
  slow_rise cfg (price ∷ prices) st h =
      let later = record st { trailing_high = max_of st.trailing_high price } in
      let same = update_slow cfg price st h.0 in rw (same, trail) (slow_rise cfg prices later h.1)

  -- The stop of the manager's long leg is a number and not below the given one.
  abbrev pub Stands : W → Manager W → Type ℓ
  Stands sl m = (st : LegState W) × ((m.long_state ≡ some st) × (f.le sl st.sl_price ≡ true))

module _ {ℓ} {W : Type ℓ} ⦃f : Float W⦄ (laws : IsOrdered W) where
  tick_long_rises :
      (cfg : Config W) (took : Bool) (price sl : W) (st : LegState W)
      → f.le sl st.sl_price ≡ true
      → f.le sl (tick_long cfg took price st).0.sl_price ≡ true
  unfolding tick_long update_trailing_sl_long check_sl_tp_long close_leg
  tick_long_rises cfg took price sl st h = grind (arith, laws.lt→le, laws.le_trans)

  on_price_tick-Stands :
      (cfg : Config W) (takes_long takes_short : Bool) (price sl : W) (m : Manager W)
      → Stands sl m
      → Stands sl (on_price_tick cfg takes_long takes_short price m)
  unfolding on_price_tick
  on_price_tick-Stands cfg takes_long takes_short price sl m (st, (e, h)) = (
    (tick_long cfg takes_long price st).0,
    (ground (arith, e), tick_long_rises cfg takes_long price sl st h),
  )

  fetched-Stands :
      (cfg : Config W) (p : Poll W) (sl : W) (m : Manager W)
      → Stands sl m
      → Stands sl (poll cfg p m)
  unfolding poll
  fetched-Stands cfg p sl m h = elim (Option-cases (fetch_mark_price p.sources)) [
    | inl e ↦ rw (e, poll) h
    | inr (price, e) ↦
        rw (e, poll) (on_price_tick-Stands cfg p.takes_long p.takes_short price sl m h)
  ]

  -- The stop of a long leg never falls while the manager polls: whatever prices come and whether
  -- orders are taken or not, it stays at least what it was, if it was a number.
  pub poll_loop-Stands :
      (cfg : Config W) (ps : List (Poll W)) (sl : W) (m : Manager W)
      → Stands sl m
      → Stands sl (poll_loop cfg ps m).0
  unfolding poll_loop
  poll_loop-Stands cfg [] sl m h = h
  poll_loop-Stands cfg (p ∷ ps) sl m h = elim (Bool-cases (not p.stopped && has_active_legs m)) [
    | inl e ↦
        rw (e, poll_loop) (poll_loop-Stands cfg ps sl (poll cfg p m) (fetched-Stands cfg p sl m h))
    | inr e ↦ rw (e, poll_loop) h
  ]
