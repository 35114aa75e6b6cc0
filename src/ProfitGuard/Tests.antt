-- ===== src/ProfitGuard/Tests.antt =====
-- execution/profit_guard.py: a position of 1,000 parts of spread, with numbers in thousandths.
use quantluna.Prelude.{◌≢◌, refl, true, false, List, [], ◌∷◌, arith}
use quantluna.Prelude.Float.{Thousandths, thousandths_float, Thousandths-IsOrdered}
use quantluna.ProfitGuard.{
  Config, Guard, long_spread, new_guard, register, register_from_entry, update, partial_close,
}
use quantluna.ProfitGuard.Closing.{
  updates, ratios, IsPrefix, HasClose, ladder_in_order, held_then_closed, skipped_level,
}

-- The default configuration, but for the trailing stop and three bars at most.
abbrev config : Config Thousandths
config = record {
  tp_zscore_improvement = 1000;
  tp_profit_pct = 30;
  ladder_enabled = true;
  ladder_levels = (20, 300) ∷ ((30, 400) ∷ ((50, 300) ∷ []));
  trailing_enabled = false;
  trailing_activation_z = 1000;
  trailing_distance_z = 500;
  time_decay_enabled = true;
  time_decay_bars = 20;
  time_decay_min_profit_pct = 10;
  emergency_stop_pct = 0;
  max_hold_bars = 3;
  enabled = true;
  tiny = 0;
}

abbrev entered : Guard Thousandths
entered = register_from_entry 1 2000 1000 long_spread new_guard

abbrev bars : List (Thousandths × Thousandths)
bars = (1900, 990) ∷ ((1900, 975) ∷ ((1900, 980) ∷ ((1900, 990) ∷ [])))

ladder_in_order_example :
    IsPrefix (ratios (updates config 1 bars entered).1) (300 ∷ (400 ∷ (300 ∷ [])))
unfolding register register_from_entry
ladder_in_order_example = ladder_in_order config 1 bars entered 0 0 refl refl

held_then_closed_example : HasClose (updates config 1 bars entered).1
unfolding register register_from_entry
held_then_closed_example =
    held_then_closed config 1 bars entered 0 0 refl refl (omega arith) (omega arith)

-- After the first level, the second has the profit of the take profit.
abbrev climbed_once : Guard Thousandths
climbed_once = record {
  positions =
      (
        1,
        record {
          entry_zscore = 2000;
          entry_spread = 1000;
          side = long_spread;
          best_zscore = 2000;
          best_profit_pct = 25;
          bars_held = 1;
          partial_closes = 1;
          last_profit_update_bar = 1;
        },
      )
      ∷ [];
  bar_counter = 1;
}

skipped_level_example : (update config 1 1900 900 climbed_once).1 ≢ partial_close 400
skipped_level_example =
    skipped_level config 1 Thousandths-IsOrdered 1900 900 30 400 400 climbed_once 1 1 refl refl refl
      refl
