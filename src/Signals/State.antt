-- ===== src/Signals/State.antt =====
-- strategy/signal.py: the state of a `SignalGenerator`, and the helpers of `_compute_signal`.
use quantluna.Prelude.{
  ℕ, ◌+◌, ◌-◌, Bool, true, false, not, Option, none, some, List, [], ◌∷◌, ◌++◌, ◌&&◌, ◌||◌, ltb,
  length, drop, if◌then◌else◌,
}
use quantluna.Prelude.Float.{Float, max_of, min_of}

pub data Signal : Type 0 where
  long_spread short_spread exit partial_exit : Signal

-- The texts of `reason`; `skipped` is the empty one.
pub data Reason : Type 0 where
  high_uncertainty regime_breakdown stale_pair hard_stop time_stop partial_exit_z0 : Reason
  mean_reversion cooldown funding_gate dz_momentum_block zscore_entry_long : Reason
  zscore_entry_short hold no_signal warming_up skipped : Reason

-- `_entry_side`: 0, 1 and -1.
pub data Side : Type 0 where
  flat long short : Side

abbrev pub is_long : Side → Bool
is_long long = true
is_long _ = false

abbrev pub is_short : Side → Bool
is_short short = true
is_short _ = false

-- `SignalConfig`, `cooldown_bars` and `funding_threshold_annual`.
pub record Config {ℓ} (W : Type ℓ) : Type ℓ where
  pub zscore_entry : W
  pub zscore_exit : W
  pub zscore_stop : W
  pub max_uncertainty : W
  pub funding_threshold_annual : W
  pub partial_exit_enabled : Bool
  pub partial_exit_zscore : W
  pub partial_exit_pct : W
  pub vol_adj_enabled : Bool
  pub vol_adj_factor : W
  pub vol_adj_max_multiplier : W
  pub vol_adj_lookback : ℕ
  pub dz_filter_enabled : Bool
  pub dz_block_ratio : W
  pub dz_lookback : ℕ
  pub dynamic_cooldown_enabled : Bool
  pub cooldown_hl_factor : W
  pub cooldown_min : ℕ
  pub cooldown_max : ℕ
  pub base_cooldown : ℕ

-- Numerals, negation, `math.ceil` (of what is not above 0, 0: the code takes a maximum with a number
-- that is not negative), and numpy's mean of numbers, and of that many true values in so many.
pub record Numerics {ℓ} (W : Type ℓ) : Type ℓ where
  pub two : W
  pub tenth : W
  pub tiny : W
  pub neg : W → W
  pub ceil : W → ℕ
  pub mean : List W → W
  pub share : ℕ → ℕ → W

pub record Generator {ℓ} (W : Type ℓ) : Type ℓ where
  pub current_signal : Signal
  pub in_trade : Bool
  pub bars_in_trade : ℕ
  pub cooldown_remaining : ℕ
  pub vol_buffer : List W
  pub last_spread_for_vol : Option W
  pub zscore_buffer : List W
  pub partial_exit_done : Bool
  pub entry_side : Side
  pub last_vol_rank : W
  pub last_effective_threshold : W
  pub last_dz_blocked : Bool

-- `append` on a deque of a limited length: the oldest entries fall out.
abbrev pub push {ℓ} : {A : Type ℓ} → ℕ → List A → A → List A
push limit buffer x = let all = buffer ++ (x ∷ []) in drop (length all - limit) all

module _ {ℓ} {W : Type ℓ} ⦃f : Float W⦄ where
  -- `math.isnan`
  abbrev pub is_nan : W → Bool
  is_nan x = not (f.le x x)

  -- `np.clip`
  abbrev pub clip : W → W → W → W
  clip x low high = min_of (max_of x low) high

  abbrev equals_nought : W → Bool
  equals_nought x = f.le x f.nought && f.le f.nought x

  -- `_update_vol_buffer`; NaN counts as unequal to 0
  unfoldable pub update_vol_buffer : Config W → W → Generator W → Generator W
  update_vol_buffer cfg spread g = elim g.last_spread_for_vol [
    | none ↦ record g { last_spread_for_vol = some spread }
    | some last ↦
        if equals_nought last then record g { last_spread_for_vol = some spread } else record g {
          vol_buffer =
              push cfg.vol_adj_lookback g.vol_buffer (f.abs (f.div (f.sub spread last) last));
          last_spread_for_vol = some spread;
        }
  ]

  abbrev last_or : W → List W → W
  last_or x [] = x
  last_or x (y ∷ ys) = last_or y ys

  abbrev but_last : List W → List W
  but_last [] = []
  but_last (x ∷ []) = []
  but_last (x ∷ (y ∷ ys)) = x ∷ but_last (y ∷ ys)

  -- How many are at most a limit.
  abbrev at_most : W → List W → ℕ
  at_most limit [] = 0
  at_most limit (x ∷ xs) = (if f.le x limit then 1 else 0) + at_most limit xs

  -- `_compute_vol_rank`
  unfoldable pub compute_vol_rank : Numerics W → List W → W
  compute_vol_rank num buffer =
      if ltb (length buffer) 10
      then f.nought
      else (let before = but_last buffer in
          clip (num.share (at_most (last_or f.nought buffer) before) (length before)) f.nought
            f.one)

  unfoldable pub effective_entry_threshold : Config W → W → W
  effective_entry_threshold cfg rank =
      if cfg.vol_adj_enabled
      then f.mul cfg.zscore_entry
          (min_of (f.add f.one (f.mul cfg.vol_adj_factor rank)) cfg.vol_adj_max_multiplier)
      else cfg.zscore_entry

  abbrev diffs : List W → List W
  diffs [] = []
  diffs (x ∷ []) = []
  diffs (x ∷ (y ∷ ys)) = f.sub y x ∷ diffs (y ∷ ys)

  -- `_is_dz_blocked`
  unfoldable pub is_dz_blocked : Numerics W → Config W → W → List W → Bool
  is_dz_blocked num cfg z buffer =
      if not cfg.dz_filter_enabled || ltb (length buffer) 2
      then false
      else (let average = num.mean (diffs buffer) in
          ((f.lt f.nought z && f.lt f.nought average) || (f.lt z f.nought && f.lt average f.nought))
          && f.lt (f.mul cfg.dz_block_ratio (f.abs z)) (f.abs average))

  -- `_dynamic_cooldown`
  unfoldable pub dynamic_cooldown : Numerics W → Config W → W → ℕ
  dynamic_cooldown num cfg half_life =
      if not cfg.dynamic_cooldown_enabled || is_nan half_life
      then cfg.base_cooldown
      else (let raw = num.ceil (f.mul half_life cfg.cooldown_hl_factor) in
          let above = if ltb raw cfg.cooldown_min then cfg.cooldown_min else raw in
          if ltb cfg.cooldown_max above then cfg.cooldown_max else above)

  -- `_confidence_for_z`
  unfoldable pub confidence_for_z : Numerics W → Config W → W → Bool → W
  confidence_for_z num cfg z in_trade =
      let thr = max_of cfg.zscore_entry num.tiny in
      if in_trade
      then clip (f.div (f.abs z) thr) num.tenth f.one
      else clip (f.div (f.sub (f.abs z) thr) thr) f.nought f.one

  -- `__init__`, which `_reset_trade_state` repeats
  abbrev pub new : Config W → Generator W
  new cfg = record {
    current_signal = exit;
    in_trade = false;
    bars_in_trade = 0;
    cooldown_remaining = 0;
    vol_buffer = [];
    last_spread_for_vol = none;
    zscore_buffer = [];
    partial_exit_done = false;
    entry_side = flat;
    last_vol_rank = f.nought;
    last_effective_threshold = cfg.zscore_entry;
    last_dz_blocked = false;
  }
