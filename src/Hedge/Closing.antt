-- ===== src/Hedge/Closing.antt =====
-- execution/single_hedge_manager.py: how often a leg is closed in a run.
use quantluna.Prelude.{
  ℕ, ◌+◌, ◌≡◌, refl, Bool, true, false, Option, none, some, List, [], ◌∷◌, if◌then◌else◌, arith,
  All, Option-cases, inl, inr, ◌∙◌,
}
use quantluna.Prelude.Float.{Float}
use quantluna.Hedge.{
  Manager, Poll, Position, GroupLeg, start, verify_position, verify_positions, apply_initial_sl_tp,
  on_price_tick, poll, poll_loop, manage, has_active_legs, all_read,
}
use quantluna.Hedge.Leg.{Side, long, short, Config}
use quantluna.Hedge.Orders.{
  accepted, accepted_append, still_open, tick_long_orders, tick_short_orders, initial_orders,
}

abbrev counted {ℓ} : {A : Type ℓ} → Option A → ℕ
counted none = 0
counted (some _) = 1

module _ {ℓ} {W : Type ℓ} ⦃f : Float W⦄ where
  -- The closing orders of a side that were accepted, and the side's leg if it is open.
  abbrev closings : Side → Manager W → ℕ
  closings side m = accepted side m.calls + still_open side m

  initial_keeps :
      (cfg : Config W) (side : Side) (m : Manager W)
      → closings side (apply_initial_sl_tp cfg m) ≡ closings side m
  unfolding apply_initial_sl_tp
  initial_keeps cfg long m = grind (arith, initial_orders cfg long, accepted_append)
  initial_keeps cfg short m = grind (arith, initial_orders cfg short, accepted_append)

  tick_keeps :
      (cfg : Config W) (side : Side) (takes_long takes_short : Bool) (price : W) (m : Manager W)
      → closings side (on_price_tick cfg takes_long takes_short price m) ≡ closings side m
  unfolding on_price_tick
  tick_keeps cfg long takes_long takes_short price m =
      grind (arith, tick_long_orders, tick_short_orders, accepted_append)
  tick_keeps cfg short takes_long takes_short price m =
      grind (arith, tick_long_orders, tick_short_orders, accepted_append)

  verify_one_keeps :
      (side : Side) (s : Option Side) (entry : W) (m : Manager W)
      → closings side (verify_position s entry m) ≡ closings side m
  unfolding verify_position
  verify_one_keeps side none entry m = refl
  verify_one_keeps long (some long) entry m = ground arith
  verify_one_keeps long (some short) entry m = ground arith
  verify_one_keeps short (some long) entry m = ground arith
  verify_one_keeps short (some short) entry m = ground arith

  verify_keeps :
      (side : Side) (ps : List (Position W)) (m : Manager W)
      → closings side (verify_positions ps m) ≡ closings side m
  unfolding verify_positions
  verify_keeps side [] m = refl
  verify_keeps side (p ∷ ps) m = elim (Option-cases (all_read p)) [
    | inl e ↦ rw (e, verify_positions) refl
    | inr (entry, e) ↦
        rw (e, verify_positions)
          (verify_keeps side ps (verify_position p.side entry m)
            ∙ verify_one_keeps side p.side entry m)
  ]

  loop_keeps :
      (cfg : Config W) (side : Side) (ps : List (Poll W)) (m : Manager W)
      → closings side (poll_loop cfg ps m).0 ≡ closings side m
  unfolding poll_loop poll
  loop_keeps cfg side [] m = refl
  loop_keeps cfg side (p ∷ ps) m = grind (arith, loop_keeps cfg side ps, tick_keeps cfg side)

  prepared_keeps :
      (cfg : Config W) (side : Side) (b : Bool) (m : Manager W)
      → closings side (if b then apply_initial_sl_tp cfg m else m) ≡ closings side m
  prepared_keeps cfg side true m = initial_keeps cfg side m
  prepared_keeps cfg side false m = refl

  manage_keeps :
      (cfg : Config W) (side : Side) (positions : List (Position W)) (ps : List (Poll W))
      (m : Manager W)
      → closings side (manage cfg positions ps m).0 ≡ closings side m
  unfolding manage
  manage_keeps cfg side positions ps m =
      loop_keeps cfg side ps _
      ∙ prepared_keeps cfg side cfg.apply_initial_sl_tp _
      ∙ verify_keeps side positions m

  start_counts :
      (long_leg short_leg : Option (GroupLeg W))
      → (closings long (start long_leg short_leg) ≡ counted long_leg)
        × (closings short (start long_leg short_leg) ≡ counted short_leg)
  unfolding start accepted
  start_counts long_leg short_leg = ground arith

  -- Each leg is closed once. In every state of a run, the closing orders of a side that the exchange
  -- accepted, and the leg of that side if it is still open, are together the leg that was there at
  -- the start: an accepted order closes the leg for good, and one that raises leaves it open.
  pub manage_closes_once :
      (cfg : Config W) (positions : List (Position W)) (ps : List (Poll W))
      (long_leg short_leg : Option (GroupLeg W))
      → let m = (manage cfg positions ps (start long_leg short_leg)).0 in
        (accepted long m.calls + still_open long m ≡ counted long_leg)
        × (accepted short m.calls + still_open short m ≡ counted short_leg)
  manage_closes_once cfg positions ps long_leg short_leg =
      let started = start_counts long_leg short_leg in
      (
        manage_keeps cfg long positions ps _ ∙ started.0,
        manage_keeps cfg short positions ps _ ∙ started.1,
      )

  loop_ends_closed :
      (cfg : Config W) (ps : List (Poll W)) (m : Manager W)
      → All (λ p. p.stopped ≡ false) ps
      → (poll_loop cfg ps m).1 ≡ true
      → has_active_legs (poll_loop cfg ps m).0 ≡ false
  unfolding poll_loop
  loop_ends_closed cfg [] m h e = ground arith
  loop_ends_closed cfg (p ∷ ps) m h e = ground (arith, loop_ends_closed cfg ps (poll cfg p m))

  closed_counts :
      (m : Manager W)
      → has_active_legs m ≡ false
      → (still_open long m ≡ 0) × (still_open short m ≡ 0)
  unfolding has_active_legs
  closed_counts m e = ground arith

  -- If nothing calls `stop`, then a run whose loop has ended has closed each leg that there was at the
  -- start, by one accepted order.
  pub manage_ends_closed :
      (cfg : Config W) (positions : List (Position W)) (ps : List (Poll W))
      (long_leg short_leg : Option (GroupLeg W))
      → All (λ p. p.stopped ≡ false) ps
      → let (m, ended) = manage cfg positions ps (start long_leg short_leg) in
        ended ≡ true
        → (accepted long m.calls ≡ counted long_leg) × (accepted short m.calls ≡ counted short_leg)
  unfolding manage
  manage_ends_closed cfg positions ps long_leg short_leg none_stops e =
      let once = manage_closes_once cfg positions ps long_leg short_leg in
      let closed = closed_counts _ (loop_ends_closed cfg ps _ none_stops e) in
      (omega arith, omega arith)
