-- ===== src/Hedge/Orders.antt =====
-- execution/single_hedge_manager.py: the closing orders of one leg in a tick.
use quantluna.Prelude.{
  ℕ, ◌+◌, ◌≡◌, Bool, true, false, Option, none, some, List, [], ◌∷◌, ◌++◌, ◌&&◌, if◌then◌else◌,
  arith, ◌⊎◌, ◌↔◌,
}
use quantluna.Prelude.Float.{Float}
use quantluna.Hedge.{Manager}
use quantluna.Hedge.Leg.{
  Side, long, short, Config, LegState, Call, set_sl, create_order, close_leg, check_sl_tp_long,
  check_sl_tp_short, update_trailing_sl_long, update_trailing_sl_short, tick_long, tick_short,
  trail_long, trail_short, initial_long, initial_short,
}

abbrev same : Side → Side → Bool
same long long = true
same short short = true
same _ _ = false

-- How many closing orders of a side were accepted.
unfoldable pub accepted {ℓ} : {W : Type ℓ} → Side → List (Call W) → ℕ
accepted side [] = 0
accepted side (set_sl _ _ _ _ ∷ cs) = accepted side cs
accepted side (create_order s _ took ∷ cs) =
    (if took && same side s then 1 else 0) + accepted side cs

pub accepted_append {ℓ} :
    {W : Type ℓ} (side : Side) (cs ds : List (Call W))
    → accepted side (cs ++ ds) ≡ accepted side cs + accepted side ds
unfolding accepted
accepted_append side [] ds = ground arith
accepted_append side (set_sl _ _ _ _ ∷ cs) ds = accepted_append side cs ds
accepted_append side (create_order s _ took ∷ cs) ds = ground (arith, accepted_append side cs ds)

abbrev pub open_legs {ℓ} : {W : Type ℓ} → LegState W → ℕ
open_legs st = if st.active then 1 else 0

abbrev of_option {ℓ} : {W : Type ℓ} → Option (LegState W) → ℕ
of_option none = 0
of_option (some st) = open_legs st

abbrev pub still_open {ℓ} : {W : Type ℓ} → Side → Manager W → ℕ
still_open long m = of_option m.long_state
still_open short m = of_option m.short_state

module _ {ℓ} {W : Type ℓ} ⦃f : Float W⦄ where
  close_orders :
      (took : Bool) (st : LegState W)
      → let (long_left, long_made) = close_leg long took st in
        let (short_left, short_made) = close_leg short took st in
        ((accepted long long_made + open_legs long_left ≡ open_legs st)
          × (accepted short long_made ≡ 0))
        × ((accepted short short_made + open_legs short_left ≡ open_legs st)
            × (accepted long short_made ≡ 0))
  unfolding close_leg accepted
  close_orders took st = ground arith

  -- Trailing the stop closes nothing.
  trail_orders :
      (cfg : Config W) (side : Side) (price : W) (st : LegState W)
      → ((accepted side (trail_long cfg price st).1 ≡ 0)
          × ((trail_long cfg price st).0.active ≡ st.active))
        × ((accepted side (trail_short cfg price st).1 ≡ 0)
            × ((trail_short cfg price st).0.active ≡ st.active))
  unfolding update_trailing_sl_long update_trailing_sl_short accepted
  trail_orders cfg side price st = ground arith

  check_long_orders :
      (took : Bool) (price : W) (st : LegState W)
      → let (st', made) = check_sl_tp_long took price st in
        (accepted long made + open_legs st' ≡ open_legs st) × (accepted short made ≡ 0)
  unfolding check_sl_tp_long accepted
  check_long_orders took price st = grind (arith, close_orders took st)

  check_short_orders :
      (took : Bool) (price : W) (st : LegState W)
      → let (st', made) = check_sl_tp_short took price st in
        (accepted short made + open_legs st' ≡ open_legs st) × (accepted long made ≡ 0)
  unfolding check_sl_tp_short accepted
  check_short_orders took price st = grind (arith, close_orders took st)

  pub tick_long_orders :
      (cfg : Config W) (took : Bool) (price : W) (st : LegState W)
      → let (st', made) = tick_long cfg took price st in
        (accepted long made + open_legs st' ≡ open_legs st) × (accepted short made ≡ 0)
  unfolding tick_long accepted
  tick_long_orders cfg took price st = grind (
    arith,
    trail_orders cfg long price st,
    trail_orders cfg short price st,
    check_long_orders took price,
    accepted_append,
  )

  pub tick_short_orders :
      (cfg : Config W) (took : Bool) (price : W) (st : LegState W)
      → let (st', made) = tick_short cfg took price st in
        (accepted short made + open_legs st' ≡ open_legs st) × (accepted long made ≡ 0)
  unfolding tick_short accepted
  tick_short_orders cfg took price st = grind (
    arith,
    trail_orders cfg short price st,
    trail_orders cfg long price st,
    check_short_orders took price,
    accepted_append,
  )

  pub initial_orders :
      (cfg : Config W) (side : Side) (st : LegState W)
      → ((accepted side (initial_long cfg st).1 ≡ 0)
          × (open_legs (initial_long cfg st).0 ≡ open_legs st))
        × ((accepted side (initial_short cfg st).1 ≡ 0)
            × (open_legs (initial_short cfg st).0 ≡ open_legs st))
  unfolding initial_long initial_short accepted
  initial_orders cfg side st = ground arith

  -- The stop or the target of a leg is reached at a price.
  abbrev pub IsHit : Side → W → LegState W → Type 0
  IsHit long price st =
      ((f.lt f.nought st.sl_price ≡ true) × (f.le price st.sl_price ≡ true))
      ⊎ ((f.lt f.nought st.tp_price ≡ true) × (f.le st.tp_price price ≡ true))
  IsHit short price st =
      ((f.lt f.nought st.sl_price ≡ true) × (f.le st.sl_price price ≡ true))
      ⊎ ((f.lt f.nought st.tp_price ≡ true) × (f.le price st.tp_price ≡ true))

  -- A tick closes an active leg exactly if the exchange takes the order and, after the stop was
  -- trailed to this price, the price reaches the stop or the target.
  pub tick_closes :
      (cfg : Config W) (took : Bool) (price : W) (st : LegState W)
      → st.active ≡ true
      → (((tick_long cfg took price st).0.active ≡ false)
          ↔ ((took ≡ true) × IsHit long price (trail_long cfg price st).0))
        × (((tick_short cfg took price st).0.active ≡ false)
            ↔ ((took ≡ true) × IsHit short price (trail_short cfg price st).0))
  unfolding tick_long tick_short update_trailing_sl_long update_trailing_sl_short check_sl_tp_long
      check_sl_tp_short close_leg
  tick_closes cfg took price st h = ground arith
