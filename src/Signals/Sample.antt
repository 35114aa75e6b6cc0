-- ===== src/Signals/Sample.antt =====
-- strategy/signal.py: a configuration and bars for examples, in thousandths, none of them negative.
use quantluna.Prelude.{ℕ, suc, ◌+◌, ◌/◌, ◌*◌, true, false, List, [], ◌∷◌}
use quantluna.Prelude.Float.{Thousandths, thousandths_float}
use quantluna.Signals.State.{Config, Numerics}
use quantluna.Signals.Runs.{Tick}

abbrev total : List ℕ → ℕ
total [] = 0
total (x ∷ xs) = x + total xs

abbrev count : List ℕ → ℕ
count [] = 0
count (x ∷ xs) = suc (count xs)

abbrev pub numerics : Numerics Thousandths
numerics = record {
  two = 2000;
  tenth = 100;
  tiny = 0;
  neg = λ x. 0;
  ceil = λ x. (x + 999) / 1000;
  mean = λ xs. total xs / count xs;
  share = λ a b. a * 1000 / b;
}

abbrev pub config : Config Thousandths
config = record {
  zscore_entry = 2000;
  zscore_exit = 300;
  zscore_stop = 4000;
  max_uncertainty = 1000;
  funding_threshold_annual = 50;
  partial_exit_enabled = true;
  partial_exit_zscore = 1000;
  partial_exit_pct = 500;
  vol_adj_enabled = true;
  vol_adj_factor = 500;
  vol_adj_max_multiplier = 1500;
  vol_adj_lookback = 100;
  dz_filter_enabled = false;
  dz_block_ratio = 300;
  dz_lookback = 3;
  dynamic_cooldown_enabled = true;
  cooldown_hl_factor = 500;
  cooldown_min = 1;
  cooldown_max = 8;
  base_cooldown = 3;
}

abbrev pub tick : ℕ → Tick Thousandths
tick score = record {
  spread = 100;
  bar = record {
    z = score;
    uncertainty = 10;
    half_life = 1000;
    funding_annual = 0;
    regime_multiplier = 1000;
    coint_valid = true;
  };
}
