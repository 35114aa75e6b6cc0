-- ===== src/Signals.antt =====
-- strategy/signal.py: `SignalGenerator`, the entries and exits of one pair. The numbers are doubles of
-- an abstract type. What numpy, `math` and `SpreadEngine` compute is an argument.
pub mod State
pub mod Protocol
pub mod Runs
pub mod Cooldown
pub mod Duration
pub mod Sample
mod Tests
use quantluna.Prelude.{
  ℕ, suc, ◌+◌, ◌-◌, Bool, true, false, not, Option, none, some, List, [], ◌∷◌, ◌++◌, ◌&&◌, ◌||◌,
  ltb, length, if◌then◌else◌,
}
use quantluna.Prelude.Float.{Float, max_of}
use State.{
  Signal, long_spread, short_spread, exit, partial_exit, Reason, high_uncertainty, regime_breakdown,
  stale_pair, hard_stop, time_stop, partial_exit_z0, mean_reversion, cooldown, funding_gate,
  dz_momentum_block, zscore_entry_long, zscore_entry_short, hold, no_signal, warming_up, skipped,
  Side, flat, long, short, Config, Numerics, Generator, is_long, is_short, is_nan, compute_vol_rank,
  effective_entry_threshold, is_dz_blocked, dynamic_cooldown, confidence_for_z, clip,
  update_vol_buffer, push, new,
}

-- The arguments of `_compute_signal`.
pub record Bar {ℓ} (W : Type ℓ) : Type ℓ where
  pub z : W
  pub uncertainty : W
  pub half_life : W
  pub funding_annual : W
  pub regime_multiplier : W
  pub coint_valid : Bool

-- A row of the frame of `generate_batch`.
pub record Row {ℓ} (W : Type ℓ) : Type ℓ where
  pub is_warm : Bool
  pub spread : W
  pub bar : Bar W

-- A signal with its confidence and reason, and the fields of `meta`.
pub record Verdict {ℓ} (W : Type ℓ) : Type ℓ where
  pub signal : Signal
  pub confidence : W
  pub reason : Reason
  pub effective_threshold : W
  pub vol_rank : W
  pub dz_blocked : Bool
  pub partial_close_pct : W

module _ {ℓ} {W : Type ℓ} ⦃f : Float W⦄ (num : Numerics W) (cfg : Config W) where
  -- A verdict with the meta fields of `meta_base`, which `_compute_signal` has stored before.
  abbrev verdict : Signal → W → Reason → Generator W → Verdict W
  verdict signal confidence reason g = record {
    signal = signal;
    confidence = confidence;
    reason = reason;
    effective_threshold = g.last_effective_threshold;
    vol_rank = g.last_vol_rank;
    dz_blocked = false;
    partial_close_pct = f.nought;
  }

  -- `_exit`
  unfoldable pub exit_now : Reason → W → Generator W → Generator W × Verdict W
  exit_now reason half_life g = (
    record g {
      in_trade = false;
      current_signal = exit;
      bars_in_trade = 0;
      partial_exit_done = false;
      entry_side = flat;
      cooldown_remaining = dynamic_cooldown num cfg half_life;
    },
    verdict exit f.one reason g,
  )

  -- An exit signal that changes nothing.
  abbrev quiet : Reason → Generator W → Generator W × Verdict W
  quiet reason g = (g, verdict exit f.nought reason g)

  -- `_exit_if_needed`
  unfoldable pub exit_if_needed : Reason → W → Generator W → Generator W × Verdict W
  exit_if_needed reason half_life g =
      if g.in_trade then exit_now reason half_life g else quiet reason g

  -- `_enter`
  unfoldable pub enter : Side → Signal → W → Reason → Bool → Generator W → Generator W × Verdict W
  enter side signal z reason blocked g = (
    record g {
      in_trade = true;
      current_signal = signal;
      bars_in_trade = 1;
      partial_exit_done = false;
      entry_side = side;
    },
    record (verdict signal (confidence_for_z num cfg z false) reason g) { dz_blocked = blocked },
  )

  -- Step 5: the trade has lasted longer than `max(4, ceil(2 * half_life))` bars.
  abbrev pub time_limit : W → ℕ
  time_limit half_life =
      let bars = num.ceil (f.mul num.two half_life) in if ltb 4 bars then bars else 4

  unfoldable pub is_timed_out : W → Generator W → Bool
  is_timed_out half_life g =
      g.in_trade && not (is_nan half_life) && ltb (time_limit half_life) g.bars_in_trade

  -- Step 6: the score has come back to the threshold of the partial exit.
  unfoldable pub is_partial_due : W → Generator W → Bool
  is_partial_due z g =
      cfg.partial_exit_enabled
      && g.in_trade
      && not g.partial_exit_done
      && ((is_long g.entry_side && f.le (num.neg (f.abs cfg.partial_exit_zscore)) z)
          || (is_short g.entry_side && f.le z (f.abs cfg.partial_exit_zscore)))

  unfoldable pub partial : W → Generator W → Generator W × Verdict W
  partial z g = (
    record g { partial_exit_done = true },
    record (verdict partial_exit
        (clip (f.sub f.one (f.div (f.abs z) (max_of cfg.zscore_entry num.tiny))) f.nought f.one)
        partial_exit_z0 g) { partial_close_pct = cfg.partial_exit_pct },
  )

  -- Step 11 has blocked an entry.
  abbrev refuse : Bool → Generator W → Generator W × Verdict W
  refuse blocked g =
      (g, record (verdict exit f.nought dz_momentum_block g) { dz_blocked = blocked })

  -- Steps 10 to 12, with no trade open.
  unfoldable pub try_entry : W → Generator W → Generator W × Verdict W
  try_entry z g =
      let blocked = is_dz_blocked num cfg z g.zscore_buffer in
      let seen = record g { last_dz_blocked = blocked } in
      if f.le z (num.neg g.last_effective_threshold)
      then (if blocked
          then refuse blocked seen
          else enter long long_spread z zscore_entry_long blocked seen)
      else if f.le g.last_effective_threshold z
      then (if blocked
          then refuse blocked seen
          else enter short short_spread z zscore_entry_short blocked seen)
      else quiet no_signal seen

  -- Step 13, in a trade.
  unfoldable pub keep : W → Generator W → Generator W × Verdict W
  keep z g = (
    record g { bars_in_trade = suc g.bars_in_trade },
    verdict g.current_signal (confidence_for_z num cfg z true) hold g,
  )

  -- Steps 8 to 13.
  unfoldable pub after_exits : Bar W → Generator W → Generator W × Verdict W
  after_exits bar g =
      if ltb 0 g.cooldown_remaining
      then quiet cooldown (record g { cooldown_remaining = g.cooldown_remaining - 1 })
      else if not g.in_trade && f.lt cfg.funding_threshold_annual (f.abs bar.funding_annual)
      then quiet funding_gate g
      else if g.in_trade
      then keep bar.z g
      else try_entry bar.z g

  -- Steps 4 to 7.
  unfoldable pub exits : Bar W → Generator W → Generator W × Verdict W
  exits bar g =
      if f.le cfg.zscore_stop (f.abs bar.z)
      then exit_now hard_stop bar.half_life g
      else if is_timed_out bar.half_life g
      then exit_now time_stop bar.half_life g
      else if is_partial_due bar.z g
      then partial bar.z g
      else if g.in_trade && f.le (f.abs bar.z) cfg.zscore_exit
      then exit_now mean_reversion bar.half_life g
      else after_exits bar g

  -- Steps 1 to 3.
  unfoldable pub gates : Bar W → Generator W → Generator W × Verdict W
  gates bar g =
      if f.lt cfg.max_uncertainty bar.uncertainty
      then exit_if_needed high_uncertainty bar.half_life g
      else if f.le bar.regime_multiplier f.nought
      then exit_if_needed regime_breakdown bar.half_life g
      else if not bar.coint_valid && not g.in_trade
      then quiet stale_pair g
      else exits bar g

  -- What `_compute_signal` stores before step 1.
  abbrev pub measure : Generator W → Generator W
  measure g =
      let rank = compute_vol_rank num g.vol_buffer in
      record g {
        last_vol_rank = rank;
        last_effective_threshold = effective_entry_threshold cfg rank;
      }

  -- `_compute_signal`
  unfoldable pub compute_signal : Bar W → Generator W → Generator W × Verdict W
  compute_signal bar g = gates bar (measure g)

  -- What `SpreadEngine.update_one` returns for a bar, as far as it is used here.
  abbrev pub observe : W → W → Generator W → Generator W
  observe spread z g =
      let seen = update_vol_buffer cfg spread g in
      record seen { zscore_buffer = push (suc cfg.dz_lookback) seen.zscore_buffer z }

  -- `generate_live`, with the update of the spread engine: the spread, whether it is warm, and the bar
  -- with a score of 0 for a missing one.
  unfoldable pub generate_live : W → Bool → Bar W → Generator W → Generator W × Verdict W
  generate_live spread is_warm bar g =
      let seen = observe spread bar.z g in
      if is_warm
      then (let (g', v) = compute_signal bar seen in
          (g', record v { confidence = f.mul v.confidence bar.regime_multiplier }))
      else (
        seen,
        record (verdict exit f.nought warming_up seen) {
          effective_threshold = cfg.zscore_entry;
          vol_rank = f.nought;
        },
      )

  -- One turn of the loop of `generate_batch`: a row that is not warm, or has no score, leaves the state
  -- alone.
  unfoldable pub batch_row : Row W → Generator W → Generator W × Verdict W
  batch_row row g =
      if row.is_warm && not (is_nan row.bar.z)
      then compute_signal row.bar (observe row.spread row.bar.z g)
      else (
        g,
        record (verdict exit f.nought (if row.is_warm then skipped else warming_up) g) {
          effective_threshold = cfg.zscore_entry;
          vol_rank = f.nought;
        },
      )

  unfoldable pub rows_from : List (Row W) → Generator W → Generator W × List (Verdict W)
  rows_from [] g = (g, [])
  rows_from (row ∷ rows) g =
      let (g', v) = batch_row row g in let (final, vs) = rows_from rows g' in (final, v ∷ vs)

  -- `generate_batch`
  unfoldable pub generate_batch : List (Row W) → Generator W × List (Verdict W)
  generate_batch rows = rows_from rows (new cfg)
