-- ===== src/Drawdown.antt =====
-- risk/drawdown_controller.py: `DrawdownController`, the limits on the drawdown of pairs and portfolio. A
-- pair is the number of its name; a dict of profits is the list of its items.
pub mod Halting
mod Tests
use quantluna.Prelude.{
  ℕ, ◌-◌, Bool, true, false, Option, none, some, List, [], ◌∷◌, ◌++◌, length, drop, if◌then◌else◌,
}
use quantluna.Prelude.Dict.{Dict, lookup, insert, erase}
use quantluna.Prelude.Float.{Float, max_of}

-- `DDLevel`
pub data Level : Type 0 where
  normal soft_limit hard_stop : Level

-- `DDConfig`, with the 1e-9 of `_pair_dd`.
pub record Config {ℓ} (W : Type ℓ) : Type ℓ where
  pub pair_soft_dd : W
  pub portfolio_soft_dd : W
  pub portfolio_hard_dd : W
  pub capital_usd : W
  pub hwm_reset_on_manual_resume : Bool
  pub equity_curve_maxlen : ℕ
  pub tiny : W

-- `PairDDState`
pub record PairState {ℓ} (W : Type ℓ) : Type ℓ where
  pub entry_equity_snapshot : W
  pub current_open_pnl : W
  pub max_open_pnl : W
  pub force_close : Bool

pub record Controller {ℓ} (W : Type ℓ) : Type ℓ where
  pub equity_curve : List W
  pub hwm : W
  pub level : Level
  pub pair_states : Dict (PairState W)
  pub hard_stop_triggered : Bool

-- `DDSnapshot`, without the notes; the pairs are a set in the code.
pub record Snapshot {ℓ} (W : Type ℓ) : Type ℓ where
  pub level : Level
  pub portfolio_dd_pct : W
  pub portfolio_equity : W
  pub hwm : W
  pub pairs_force_close : List ℕ

abbrev pub keys {ℓ} : {A : Type ℓ} → Dict A → List ℕ
keys [] = []
keys (item ∷ items) = item.0 ∷ keys items

module _ {ℓ} {W : Type ℓ} ⦃f : Float W⦄ (cfg : Config W) where
  abbrev last_or : W → List W → W
  last_or x [] = x
  last_or x (y ∷ ys) = last_or y ys

  -- The last value of the equity curve, which is never empty.
  abbrev equity_now : Controller W → W
  equity_now c = last_or cfg.capital_usd c.equity_curve

  abbrev pub new : Controller W
  new = record {
    equity_curve = cfg.capital_usd ∷ [];
    hwm = cfg.capital_usd;
    level = normal;
    pair_states = [];
    hard_stop_triggered = false;
  }

  -- `open_pair`
  abbrev pub fresh_pair : Controller W → PairState W
  fresh_pair c = record {
    entry_equity_snapshot = equity_now c;
    current_open_pnl = f.nought;
    max_open_pnl = f.nought;
    force_close = false;
  }

  unfoldable pub open_pair : ℕ → Controller W → Controller W
  open_pair pair c = record c { pair_states = insert pair (fresh_pair c) c.pair_states }

  -- `close_pair`
  unfoldable pub close_pair : ℕ → Controller W → Controller W × Option (PairState W)
  close_pair pair c =
      (record c { pair_states = erase pair c.pair_states }, lookup pair c.pair_states)

  -- `_pair_dd`
  unfoldable pub pair_dd : PairState W → W
  pair_dd s = max_of f.nought (
      if f.lt f.nought s.max_open_pnl
      then f.div (f.sub s.max_open_pnl s.current_open_pnl)
          (f.add (f.add s.entry_equity_snapshot s.max_open_pnl) cfg.tiny)
      else f.div (f.abs s.current_open_pnl) (f.add s.entry_equity_snapshot cfg.tiny))

  abbrev marked : W → PairState W → PairState W
  marked pnl s = record s { current_open_pnl = pnl; max_open_pnl = max_of s.max_open_pnl pnl }

  abbrev pair_or_new : ℕ → Controller W → PairState W
  pair_or_new pair c = elim (lookup pair c.pair_states) [ some s ↦ s | none ↦ fresh_pair c ]

  -- A pair with its new profit, in the loop of `update`.
  unfoldable pub mark_pair : ℕ → W → Controller W → Controller W × Bool
  mark_pair pair pnl c =
      let s = marked pnl (pair_or_new pair c) in
      let closes = f.le cfg.pair_soft_dd (pair_dd s) in
      (
        record c {
          pair_states =
              insert pair (if closes then record s { force_close = true } else s) c.pair_states;
        },
        closes,
      )

  -- The loop: the total profit, and the pairs to close.
  unfoldable pub mark_pairs : List (ℕ × W) → W → Controller W → Controller W × W × List ℕ
  mark_pairs [] total c = (c, total, [])
  mark_pairs (item ∷ items) total c =
      let (c', closes) = mark_pair item.0 item.1 c in
      let (final, sum, pairs) = mark_pairs items (f.add total item.1) c' in
      (final, sum, if closes then item.0 ∷ pairs else pairs)

  -- `append` on the deque
  abbrev push : List W → W → List W
  push curve equity =
      let all = curve ++ (equity ∷ []) in drop (length all - cfg.equity_curve_maxlen) all

  unfoldable pub portfolio_dd : W → W → W
  portfolio_dd hwm equity =
      if f.lt f.nought hwm then max_of f.nought (f.div (f.sub hwm equity) hwm) else f.nought

  -- The level for a drawdown.
  unfoldable pub set_level : W → Controller W → Controller W
  set_level dd c =
      if f.le cfg.portfolio_hard_dd dd
      then record c { level = hard_stop; hard_stop_triggered = true }
      else if f.le cfg.portfolio_soft_dd dd
      then record c { level = soft_limit }
      else if c.hard_stop_triggered
      then c
      else record c { level = normal }

  abbrev with_equity : W → Controller W → Controller W
  with_equity equity c = record c {
    equity_curve = push c.equity_curve equity;
    hwm = if f.lt c.hwm equity then equity else c.hwm;
  }

  -- `update` after its loop
  unfoldable pub conclude : W → List ℕ → Controller W → Controller W × Snapshot W
  conclude total pairs c =
      let equity = f.add cfg.capital_usd total in
      let seen = with_equity equity c in
      let dd = portfolio_dd seen.hwm equity in
      let after = set_level dd seen in
      (
        after,
        record {
          level = after.level;
          portfolio_dd_pct = dd;
          portfolio_equity = equity;
          hwm = after.hwm;
          pairs_force_close =
              if f.le cfg.portfolio_hard_dd dd then keys after.pair_states else pairs;
        },
      )

  -- `update`
  unfoldable pub update : List (ℕ × W) → Controller W → Controller W × Snapshot W
  update profits c =
      let (marked, total, pairs) = mark_pairs profits f.nought c in conclude total pairs marked

  -- `manual_resume`
  unfoldable pub manual_resume : Controller W → Controller W × Bool
  manual_resume c =
      if c.hard_stop_triggered
      then (
        record c {
          hard_stop_triggered = false;
          level = normal;
          hwm = if cfg.hwm_reset_on_manual_resume then equity_now c else c.hwm;
        },
        true,
      )
      else (c, false)

-- `can_open_new` and `is_trading_allowed`
abbrev pub can_open_new {ℓ} : {W : Type ℓ} → Controller W → Bool
can_open_new c = elim c.level [ normal ↦ true | _ ↦ false ]
