-- ===== src/ProfitGuard.antt =====
-- execution/profit_guard.py: `ProfitGuard`, which closes a position for its profit. A pair is the number
-- of its name.
pub mod Closing
pub mod Ladder
mod Tests
use quantluna.Prelude.{
  ℕ, suc, ◌-◌, Bool, true, false, not, ◌&&◌, Option, none, some, List, [], ◌∷◌, ltb, leb, length,
  get_elem?, if◌then◌else◌,
}
use quantluna.Prelude.Dict.{Dict, lookup, insert, erase}
use quantluna.Prelude.Float.{Float}

pub data Side : Type 0 where
  long_spread short_spread unknown : Side

-- `ProfitGuardConfig`
pub record Config {ℓ} (W : Type ℓ) : Type ℓ where
  pub tp_zscore_improvement : W
  pub tp_profit_pct : W
  pub ladder_enabled : Bool
  pub ladder_levels : List (W × W)
  pub trailing_enabled : Bool
  pub trailing_activation_z : W
  pub trailing_distance_z : W
  pub time_decay_enabled : Bool
  pub time_decay_bars : ℕ
  pub time_decay_min_profit_pct : W
  pub emergency_stop_pct : W
  pub max_hold_bars : ℕ
  pub enabled : Bool
  -- 1e-12
  pub tiny : W

-- `GuardedPosition`, without the prices and quantities, which the guard does not read.
pub record Position {ℓ} (W : Type ℓ) : Type ℓ where
  pub entry_zscore : W
  pub entry_spread : W
  pub side : Side
  pub best_zscore : W
  pub best_profit_pct : W
  pub bars_held : ℕ
  pub partial_closes : ℕ
  pub last_profit_update_bar : ℕ

pub record Guard {ℓ} (W : Type ℓ) : Type ℓ where
  pub positions : Dict (Position W)
  pub bar_counter : ℕ

pub data Reason : Type 0 where
  not_registered disabled emergency_stop max_hold trailing_stop tp_zscore tp_pnl : Reason
  time_decay monitoring : Reason

-- `GuardAction`, a partial close with its ratio.
pub data Action {ℓ} (W : Type ℓ) : Type ℓ where
  hold : Reason → Action W
  partial_close : W → Action W
  full_close : Reason → Action W

module _ {ℓ} {W : Type ℓ} where
  abbrev pub new_guard : Guard W
  new_guard = record { positions = []; bar_counter = 0 }

  -- `unregister`
  unfoldable pub unregister : ℕ → Guard W → Guard W
  unregister pair g = record g { positions = erase pair g.positions }

  -- What an action leaves of a position: the object is in the dict until it is taken out.
  unfoldable pub settle : ℕ → Position W → Action W → Guard W → Guard W
  settle pair p (hold _) g = record g { positions = insert pair p g.positions }
  settle pair p (partial_close _) g = record g {
    positions = insert pair (record p { partial_closes = suc p.partial_closes }) g.positions;
  }
  settle pair p (full_close _) g = unregister pair g

module _ {ℓ} {W : Type ℓ} ⦃f : Float W⦄ where
  -- `register`
  unfoldable pub register : ℕ → Position W → Guard W → Guard W
  register pair p g = record g {
    positions =
        insert pair (record p { best_zscore = f.abs p.entry_zscore; best_profit_pct = f.nought })
          g.positions;
  }

  -- `register_from_entry`
  unfoldable pub register_from_entry : ℕ → W → W → Side → Guard W → Guard W
  register_from_entry pair zscore spread side g =
      register pair
        (record {
          entry_zscore = zscore;
          entry_spread = spread;
          side = side;
          best_zscore = f.nought;
          best_profit_pct = f.nought;
          bars_held = 0;
          partial_closes = 0;
          last_profit_update_bar = 0;
        })
        g

  abbrev narrowing : W → W → W
  narrowing entry spread = f.div (f.sub entry spread) entry

  abbrev widening : W → W → W
  widening entry spread = f.div (f.sub spread entry) entry

  -- `_estimate_profit`
  unfoldable pub estimate_profit : Config W → Position W → W → W
  estimate_profit cfg p spread =
      if f.lt (f.abs p.entry_spread) cfg.tiny then f.nought else elim p.side [
        | long_spread ↦ narrowing p.entry_spread spread
        | short_spread ↦ widening p.entry_spread spread
        | unknown ↦
            if f.lt p.entry_zscore f.nought
            then narrowing p.entry_spread spread
            else widening p.entry_spread spread
      ]

  -- The best values of `update`.
  unfoldable pub track_zscore : ℕ → W → Position W → Position W
  track_zscore bar zscore p =
      if f.lt (f.abs zscore) (f.abs p.best_zscore)
      then record p { best_zscore = zscore; last_profit_update_bar = bar }
      else p

  unfoldable pub track_profit : ℕ → W → Position W → Position W
  track_profit bar profit p =
      if f.lt p.best_profit_pct profit
      then record p { best_profit_pct = profit; last_profit_update_bar = bar }
      else p

  abbrev pub track : ℕ → W → W → Position W → Position W
  track bar zscore profit p =
      track_profit bar profit (track_zscore bar zscore (record p { bars_held = suc p.bars_held }))

  -- Step 3.
  unfoldable pub is_trailed : Config W → W → Position W → Bool
  is_trailed cfg zscore p =
      cfg.trailing_enabled
      && f.le cfg.trailing_activation_z (f.sub (f.abs p.entry_zscore) (f.abs zscore))
      && f.le cfg.trailing_distance_z (f.sub (f.abs zscore) (f.abs p.best_zscore))

  -- Step 4.
  unfoldable pub is_improved : Config W → W → W → Position W → Bool
  is_improved cfg zscore profit p =
      f.le cfg.tp_zscore_improvement (f.sub (f.abs p.entry_zscore) (f.abs zscore))
      && f.lt f.nought profit

  -- Step 5: the level of the ladder that comes next, if it is reached.
  unfoldable pub reached : Config W → W → Position W → Option W
  reached cfg profit p =
      if cfg.ladder_enabled
      then elim (get_elem? cfg.ladder_levels p.partial_closes) [
        | none ↦ none
        | some (trigger, ratio) ↦ if f.le trigger profit then some ratio else none
      ]
      else none

  -- Step 6.
  unfoldable pub is_decayed : Config W → ℕ → W → Position W → Bool
  is_decayed cfg bar profit p =
      cfg.time_decay_enabled
      && f.le cfg.time_decay_min_profit_pct profit
      && leb cfg.time_decay_bars (bar - p.last_profit_update_bar)

  unfoldable pub ladder_or_decay : Config W → ℕ → W → Position W → Action W
  ladder_or_decay cfg bar profit p = elim (reached cfg profit p) [
    | some ratio ↦ partial_close ratio
    | none ↦ if is_decayed cfg bar profit p then full_close time_decay else hold monitoring
  ]

  -- Steps 1 to 6 of `update`.
  unfoldable pub evaluate : Config W → ℕ → W → W → Position W → Action W
  evaluate cfg bar zscore profit p =
      if f.lt profit cfg.emergency_stop_pct
      then full_close emergency_stop
      else if ltb cfg.max_hold_bars p.bars_held
      then full_close max_hold
      else if is_trailed cfg zscore p
      then full_close trailing_stop
      else if is_improved cfg zscore profit p
      then full_close tp_zscore
      else if f.le cfg.tp_profit_pct profit
      then full_close tp_pnl
      else ladder_or_decay cfg bar profit p

  -- The end of `update`, for a position with its best values.
  abbrev pub conclude : Config W → ℕ → ℕ → W → W → Position W → Guard W → Guard W × Action W
  conclude cfg pair bar zscore profit p g =
      let action = evaluate cfg bar zscore profit p in (settle pair p action g, action)

  -- `update`
  unfoldable pub update : Config W → ℕ → W → W → Guard W → Guard W × Action W
  update cfg pair zscore spread g =
      let bar = suc g.bar_counter in
      let counted = record g { bar_counter = bar } in
      elim (lookup pair g.positions) [
        | none ↦ (counted, hold not_registered)
        | some p ↦
            if not cfg.enabled
            then (counted, hold disabled)
            else (let profit = estimate_profit cfg p spread in
                conclude cfg pair bar zscore profit (track bar zscore profit p) counted)
      ]
