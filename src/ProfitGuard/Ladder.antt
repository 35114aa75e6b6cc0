-- ===== src/ProfitGuard/Ladder.antt =====
-- execution/profit_guard.py: the partial closes of one position from one bar to the next.
use quantluna.Prelude.{
  ℕ, suc, ◌≤◌, ◌≡◌, refl, sym, Bool, true, false, Option, none, some, get_elem?, arith,
  if◌then◌else◌, ltb,
}
use mathlib.Core.Path.{subst}
use quantluna.Prelude.Dict.{Dict, lookup, insert, erase, lookup-insert, lookup-erase}
use quantluna.Prelude.Float.{Float, IsOrdered}
use quantluna.ProfitGuard.{
  Config, Position, Guard, Action, Reason, hold, partial_close, full_close, unregister, settle,
  track, track_zscore, track_profit, reached, ladder_or_decay, evaluate, conclude, is_decayed,
  time_decay, monitoring, tp_pnl, tp_zscore, trailing_stop, max_hold, emergency_stop, is_improved,
  is_trailed,
}

-- The ratio of a level.
abbrev pub ratio_of {ℓ} : {W : Type ℓ} → Option (W × W) → Option W
ratio_of none = none
ratio_of (some level) = some level.1

-- The levels that a position has used, and the bars that it was held.
abbrev pub counts_of {ℓ} : {W : Type ℓ} → Option (Position W) → Option (ℕ × ℕ)
counts_of none = none
counts_of (some p) = some (p.partial_closes, p.bars_held)

abbrev pub counts {ℓ} : {W : Type ℓ} → ℕ → Guard W → Option (ℕ × ℕ)
counts pair g = counts_of (lookup pair g.positions)

-- What one bar makes of the counts of an enabled guard.
pub data IsStep {ℓ} {W : Type ℓ} (cfg : Config W) (n b : ℕ)
    : Action W → Option (ℕ × ℕ) → Type ℓ where
  kept : {why : Reason} → suc b ≤ cfg.max_hold_bars → IsStep cfg n b (hold why) (some (n, suc b))
  climbed :
      {ratio : W}
      → suc b ≤ cfg.max_hold_bars
      → ratio_of (get_elem? cfg.ladder_levels n) ≡ some ratio
      → IsStep cfg n b (partial_close ratio) (some (suc n, suc b))
  left : {why : Reason} → IsStep cfg n b (full_close why) none

-- What holds of a position at an action.
data IsFine {ℓ} {W : Type ℓ} (cfg : Config W) (p : Position W) : Action W → Type ℓ where
  stays : {why : Reason} → p.bars_held ≤ cfg.max_hold_bars → IsFine cfg p (hold why)
  climbs :
      {ratio : W}
      → p.bars_held ≤ cfg.max_hold_bars
      → ratio_of (get_elem? cfg.ladder_levels p.partial_closes) ≡ some ratio
      → IsFine cfg p (partial_close ratio)
  closes : {why : Reason} → IsFine cfg p (full_close why)

lookup-inserted {ℓ} :
    {A : Type ℓ} (k : ℕ) (x : A) (items : Dict A) → lookup k (insert k x items) ≡ some x
lookup-inserted k x items = grind (arith, lookup-insert k k x items)

lookup-erased {ℓ} : {A : Type ℓ} (k : ℕ) (items : Dict A) → lookup k (erase k items) ≡ none
lookup-erased k items = grind (arith, lookup-erase k k items)

module _ {ℓ} {W : Type ℓ} ⦃f : Float W⦄ (cfg : Config W) where
  reached-ratio :
      (profit : W) (p : Position W) (ratio : W)
      → reached cfg profit p ≡ some ratio
      → ratio_of (get_elem? cfg.ladder_levels p.partial_closes) ≡ some ratio
  unfolding reached
  reached-ratio profit p ratio e = grind (arith, e)

  close-IsFine :
      (p : Position W) (b : Bool) (why : Reason) (a : Action W)
      → (b ≡ false → IsFine cfg p a)
      → IsFine cfg p (if b then full_close why else a)
  close-IsFine p true why a h = closes
  close-IsFine p false why a h = h refl

  next-IsFine :
      (bar : ℕ) (profit : W) (p : Position W) (next : Option W)
      → p.bars_held ≤ cfg.max_hold_bars
      → ((ratio : W)
          → next ≡ some ratio
          → ratio_of (get_elem? cfg.ladder_levels p.partial_closes) ≡ some ratio)
      → IsFine cfg p (elim next [
        | some ratio ↦ partial_close ratio
        | none ↦ if is_decayed cfg bar profit p then full_close time_decay else hold monitoring
      ])
  next-IsFine bar profit p none held h =
      close-IsFine p (is_decayed cfg bar profit p) time_decay (hold monitoring) (λ e. stays held)
  next-IsFine bar profit p (some ratio) held h = climbs held (h ratio refl)

  ladder_or_decay-IsFine :
      (bar : ℕ) (profit : W) (p : Position W)
      → p.bars_held ≤ cfg.max_hold_bars
      → IsFine cfg p (ladder_or_decay cfg bar profit p)
  unfolding ladder_or_decay
  ladder_or_decay-IsFine bar profit p held =
      next-IsFine bar profit p (reached cfg profit p) held (reached-ratio profit p)

  evaluate-IsFine :
      (bar : ℕ) (zscore profit : W) (p : Position W)
      → IsFine cfg p (evaluate cfg bar zscore profit p)
  unfolding evaluate
  evaluate-IsFine bar zscore profit p =
      let last = ladder_or_decay cfg bar profit p in
      let pnl = if f.le cfg.tp_profit_pct profit then full_close tp_pnl else last in
      let improved = if is_improved cfg zscore profit p then full_close tp_zscore else pnl in
      let trailed = if is_trailed cfg zscore p then full_close trailing_stop else improved in
      let timed = if ltb cfg.max_hold_bars p.bars_held then full_close max_hold else trailed in
      close-IsFine p (f.lt profit cfg.emergency_stop_pct) emergency_stop timed (λ e.
        close-IsFine p (ltb cfg.max_hold_bars p.bars_held) max_hold trailed (λ early.
          close-IsFine p (is_trailed cfg zscore p) trailing_stop improved (λ e.
            close-IsFine p (is_improved cfg zscore profit p) tp_zscore pnl (λ e.
              close-IsFine p (f.le cfg.tp_profit_pct profit) tp_pnl last
                (λ e. ladder_or_decay-IsFine bar profit p (ground (arith, early)))))))

  settle-IsStep :
      (pair : ℕ) (p : Position W) (b : ℕ) (a : Action W) (g : Guard W)
      → p.bars_held ≡ suc b
      → IsFine cfg p a
      → IsStep cfg p.partial_closes b a (counts pair (settle pair p a g))
  unfolding settle unregister
  settle-IsStep pair p b (hold why) g e (stays held) =
      rw (lookup-inserted pair p g.positions, e) (kept (rw (sym e) held))
  settle-IsStep pair p b (partial_close ratio) g e (climbs held h) =
      rw (lookup-inserted pair (record p { partial_closes = suc p.partial_closes }) g.positions, e)
        (climbed (rw (sym e) held) h)
  settle-IsStep pair p b (full_close why) g e closes = rw (lookup-erased pair g.positions) left

  pub track-same :
      (bar : ℕ) (zscore profit : W) (p : Position W)
      → ((track bar zscore profit p).partial_closes ≡ p.partial_closes)
        × ((track bar zscore profit p).bars_held ≡ suc p.bars_held)
  unfolding track_profit track_zscore
  track-same bar zscore profit p = ground arith

  pub conclude-IsStep :
      (pair bar : ℕ) (zscore profit : W) (p : Position W) (g : Guard W)
      → let (after, action) = conclude cfg pair bar zscore profit (track bar zscore profit p) g in
        IsStep cfg p.partial_closes p.bars_held action (counts pair after)
  conclude-IsStep pair bar zscore profit p g =
      let p' = track bar zscore profit p in
      let (closes_same, bars_same) = track-same bar zscore profit p in
      let action = evaluate cfg bar zscore profit p' in
      subst (λ n. IsStep cfg n p.bars_held action (counts pair (settle pair p' action g)))
        closes_same
        (settle-IsStep pair p' p.bars_held action g bars_same
          (evaluate-IsFine bar zscore profit p'))

  -- A level above the take profit is not reached by `evaluate`.
  pub evaluate-not-partial :
      IsOrdered W
      → (bar : ℕ) (zscore profit trigger : W) (p : Position W) (ratio ratio' : W)
      → get_elem? cfg.ladder_levels p.partial_closes ≡ some (trigger, ratio)
      → f.le cfg.tp_profit_pct trigger ≡ true
      → evaluate cfg bar zscore profit p ≡ partial_close ratio'
      → ⊥
  unfolding evaluate ladder_or_decay reached
  evaluate-not-partial law bar zscore profit trigger p ratio ratio' level above e =
      grind (arith, e, level, law.le_trans cfg.tp_profit_pct trigger profit above)
