-- ===== src/Hedge/Leg.antt =====
-- execution/single_hedge_manager.py: `LegState`, and what a tick does to one leg.
use quantluna.Prelude.{Bool, true, false, List, [], ◌∷◌, ◌++◌, ◌&&◌, ◌||◌, if◌then◌else◌}
use quantluna.Prelude.Float.{Float, max_of, min_of}

pub data Side : Type 0 where
  long short : Side

pub record Config {ℓ} (W : Type ℓ) : Type ℓ where
  pub trailing_sl_enabled : Bool
  pub trailing_sl_pct : W
  pub trailing_step_pct : W
  pub initial_sl_pct : W
  pub initial_tp_pct : W
  pub apply_initial_sl_tp : Bool

pub record LegState {ℓ} (W : Type ℓ) : Type ℓ where
  pub qty : W
  pub entry_price : W
  pub current_price : W
  pub sl_price : W
  pub tp_price : W
  pub trailing_high : W
  pub trailing_low : W
  pub active : Bool

-- A call of the exchange: `place_sl_tp` for a side with quantity, stop and target, or a reduce-only
-- market order that closes a side (a sell for the long one), with the quantity and whether it was
-- accepted. Both carry the position index of the side.
pub data Call {ℓ} (W : Type ℓ) : Type ℓ where
  set_sl : Side → W → W → W → Call W
  create_order : Side → W → Bool → Call W

module _ {ℓ} {W : Type ℓ} ⦃f : Float W⦄ where
  abbrev pub adopt_long : W → W → W → LegState W
  adopt_long qty entry price = record {
    qty = qty;
    entry_price = entry;
    current_price = price;
    sl_price = f.nought;
    tp_price = f.nought;
    trailing_high = price;
    trailing_low = f.infinity;
    active = true;
  }

  abbrev pub adopt_short : W → W → W → LegState W
  adopt_short qty entry price = record {
    qty = qty;
    entry_price = entry;
    current_price = price;
    sl_price = f.nought;
    tp_price = f.nought;
    trailing_high = f.nought;
    trailing_low = price;
    active = true;
  }

  unfoldable pub update_trailing_sl_long : Config W → W → LegState W → LegState W × List (Call W)
  update_trailing_sl_long cfg price st =
      let high = max_of st.trailing_high price in
      let step = f.mul st.entry_price cfg.trailing_step_pct in
      let new_sl = f.mul high (f.sub f.one cfg.trailing_sl_pct) in
      if f.le (f.add st.trailing_high step) high
      then if f.lt st.sl_price new_sl
        then (
          record st { sl_price = new_sl; trailing_high = high },
          set_sl long st.qty new_sl f.nought ∷ [],
        )
        else (st, [])
      else (record st { trailing_high = high }, [])

  unfoldable pub update_trailing_sl_short : Config W → W → LegState W → LegState W × List (Call W)
  update_trailing_sl_short cfg price st =
      let low = min_of st.trailing_low price in
      let step = f.mul st.entry_price cfg.trailing_step_pct in
      let new_sl = f.mul low (f.add f.one cfg.trailing_sl_pct) in
      if f.le low (f.sub st.trailing_low step)
      then if f.le st.sl_price f.nought || f.lt new_sl st.sl_price
        then (
          record st { sl_price = new_sl; trailing_low = low },
          set_sl short st.qty new_sl f.nought ∷ [],
        )
        else (st, [])
      else (record st { trailing_low = low }, [])

  -- `_close_leg`: the leg is set inactive before the order, and active again when it raises.
  unfoldable pub close_leg : Side → Bool → LegState W → LegState W × List (Call W)
  close_leg side accepted st =
      if st.active
      then if accepted
        then (record st { active = false }, create_order side st.qty true ∷ [])
        else (record st { active = true }, create_order side st.qty false ∷ [])
      else (st, [])

  unfoldable pub check_sl_tp_long : Bool → W → LegState W → LegState W × List (Call W)
  check_sl_tp_long accepted price st =
      if st.active
      then if f.lt f.nought st.sl_price && f.le price st.sl_price
        then close_leg long accepted st
        else if f.lt f.nought st.tp_price && f.le st.tp_price price
        then close_leg long accepted st
        else (st, [])
      else (st, [])

  unfoldable pub check_sl_tp_short : Bool → W → LegState W → LegState W × List (Call W)
  check_sl_tp_short accepted price st =
      if st.active
      then if f.lt f.nought st.sl_price && f.le st.sl_price price
        then close_leg short accepted st
        else if f.lt f.nought st.tp_price && f.le price st.tp_price
        then close_leg short accepted st
        else (st, [])
      else (st, [])

  abbrev pub trail_long : Config W → W → LegState W → LegState W × List (Call W)
  trail_long cfg price st =
      let seen = record st { current_price = price } in
      if cfg.trailing_sl_enabled then update_trailing_sl_long cfg price seen else (seen, [])

  abbrev pub trail_short : Config W → W → LegState W → LegState W × List (Call W)
  trail_short cfg price st =
      let seen = record st { current_price = price } in
      if cfg.trailing_sl_enabled then update_trailing_sl_short cfg price seen else (seen, [])

  -- The part of `_on_price_tick` for the long leg, of which `trail_long` is the first half, and for the short one.
  unfoldable pub tick_long : Config W → Bool → W → LegState W → LegState W × List (Call W)
  tick_long cfg accepted price st =
      if st.active
      then (let (trailed, moved) = trail_long cfg price st in
          let (left, closed) = check_sl_tp_long accepted price trailed in (left, moved ++ closed))
      else (st, [])

  unfoldable pub tick_short : Config W → Bool → W → LegState W → LegState W × List (Call W)
  tick_short cfg accepted price st =
      if st.active
      then (let (trailed, moved) = trail_short cfg price st in
          let (left, closed) = check_sl_tp_short accepted price trailed in (left, moved ++ closed))
      else (st, [])

  -- `st.sl_price == 0`
  abbrev no_stop : LegState W → Bool
  no_stop st = f.le st.sl_price f.nought && f.le f.nought st.sl_price

  unfoldable pub initial_long : Config W → LegState W → LegState W × List (Call W)
  initial_long cfg st =
      let sl = f.mul st.entry_price (f.sub f.one cfg.initial_sl_pct) in
      let tp = f.mul st.entry_price (f.add f.one cfg.initial_tp_pct) in
      if st.active && no_stop st
      then (record st { sl_price = sl; tp_price = tp }, set_sl long st.qty sl tp ∷ [])
      else (st, [])

  unfoldable pub initial_short : Config W → LegState W → LegState W × List (Call W)
  initial_short cfg st =
      let sl = f.mul st.entry_price (f.add f.one cfg.initial_sl_pct) in
      let tp = f.mul st.entry_price (f.sub f.one cfg.initial_tp_pct) in
      if st.active && no_stop st
      then (record st { sl_price = sl; tp_price = tp }, set_sl short st.qty sl tp ∷ [])
      else (st, [])
