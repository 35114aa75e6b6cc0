-- ===== src/Portfolio/Allocator.antt =====
-- risk/multi_pair_allocator.py: `PortfolioAllocator`. What the correlation matrix and the Kelly sizing
-- answer stands in the request.
use quantluna.Prelude.{
  ℕ, ◌+◌, ◌-◌, max, Bool, true, false, not, ◌&&◌, Option, none, some, List, [], ◌∷◌, ltb, leb,
  if◌then◌else◌,
}
use quantluna.Prelude.Dict.{Dict, insert, erase}
use quantluna.Prelude.Float.{Float}
use quantluna.Drawdown
use quantluna.Portfolio

-- `AllocatorConfig`
pub record Config {ℓ} (W : Type ℓ) : Type ℓ where
  pub drawdown : Drawdown.Config W
  pub risk : Portfolio.Config W
  pub max_concurrent_pairs : ℕ

pub record Allocator {ℓ} (W : Type ℓ) : Type ℓ where
  pub dd : Drawdown.Controller W
  pub portfolio_risk : Portfolio.Risk W
  pub active_pairs : Dict ℕ
  pub n_pairs : ℕ

-- The arguments of `request_entry`. `final_notional` is the answer of `compute` to the sum of the
-- active notionals.
pub record Request {ℓ} (W : Type ℓ) : Type ℓ where
  pub pair_id : ℕ
  pub corr_allowed : Bool
  pub final_notional : ℕ → ℕ
  pub current_zscore : W
  pub entry_beta : W

pub data RejectReason : Type 0 where
  dd_level max_pairs corr_high notional_too_small exposure_limit : RejectReason

-- `AllocationDecision`
pub record Decision : Type 0 where
  pub pair_id : ℕ
  pub allowed : Bool
  pub reject_reason : Option RejectReason
  pub notional_usd : ℕ

abbrev pub sum_notionals : Dict ℕ → ℕ
sum_notionals [] = 0
sum_notionals (item ∷ items) = item.1 + sum_notionals items

abbrev reject : ℕ → RejectReason → Decision
reject pair why = record {
  pair_id = pair;
  allowed = false;
  reject_reason = some why;
  notional_usd = 0;
}

abbrev allow : ℕ → ℕ → Decision
allow pair notional = record {
  pair_id = pair;
  allowed = true;
  reject_reason = none;
  notional_usd = notional;
}

-- The least notional of an entry.
abbrev min_notional : ℕ
min_notional = 10

module _ {ℓ} {W : Type ℓ} ⦃f : Float W⦄ (cfg : Config W) where
  abbrev pub new : Allocator W
  new = record {
    dd = Drawdown.new cfg.drawdown;
    portfolio_risk = Portfolio.new cfg.risk;
    active_pairs = [];
    n_pairs = 0;
  }

  abbrev pub exposure_of : Request W → ℕ → Portfolio.PairExposure W
  exposure_of q notional = record {
    pair = q.pair_id;
    notional_usdt = notional;
    current_pnl = f.nought;
    entry_zscore = q.current_zscore;
    current_zscore = q.current_zscore;
    beta = q.entry_beta;
  }

  -- The end of `request_entry`, where every gate is passed.
  unfoldable pub admit : ℕ → ℕ → Allocator W → Allocator W
  admit pair notional a = record a {
    dd = Drawdown.open_pair cfg.drawdown pair a.dd;
    active_pairs = insert pair notional a.active_pairs;
    n_pairs = a.n_pairs + 1;
  }

  -- Gate 5 of `request_entry` and what follows.
  unfoldable pub enter : Request W → ℕ → Allocator W → Allocator W × Decision
  enter q notional a =
      let (risk, ok) = Portfolio.add_position cfg.risk (exposure_of q notional) a.portfolio_risk in
      let after = record a { portfolio_risk = risk } in
      if ok
      then (admit q.pair_id notional after, allow q.pair_id notional)
      else (after, reject q.pair_id exposure_limit)

  -- `request_entry`
  unfoldable pub request_entry : Request W → Allocator W → Allocator W × Decision
  request_entry q a =
      let notional = q.final_notional (sum_notionals a.active_pairs) in
      if not (Drawdown.can_open_new a.dd)
      then (a, reject q.pair_id dd_level)
      else if leb cfg.max_concurrent_pairs a.n_pairs
      then (a, reject q.pair_id max_pairs)
      else if not q.corr_allowed
      then (a, reject q.pair_id corr_high)
      else if ltb notional min_notional
      then (a, reject q.pair_id notional_too_small)
      else enter q notional a

  -- The loop over the profits in `update_state`.
  unfoldable pub update_pnls : List (ℕ × W) → Portfolio.Risk W → Portfolio.Risk W
  update_pnls [] r = r
  update_pnls (item ∷ items) r = update_pnls items (Portfolio.update_pnl cfg.risk item.0 item.1 r)

  -- `update_state`
  unfoldable pub update_state : List (ℕ × W) → Allocator W → Allocator W × Drawdown.Snapshot W
  update_state profits a =
      let (dd, snap) = Drawdown.update cfg.drawdown profits a.dd in
      (record a { dd = dd; portfolio_risk = update_pnls profits a.portfolio_risk }, snap)

  -- `record_exit`
  unfoldable pub record_exit : ℕ → Allocator W → Allocator W
  record_exit pair a = record {
    dd = (Drawdown.close_pair cfg.drawdown pair a.dd).0;
    portfolio_risk = (Portfolio.remove_position cfg.risk pair a.portfolio_risk).0;
    active_pairs = erase pair a.active_pairs;
    n_pairs = max 0 (a.n_pairs - 1);
  }

  -- `manual_resume`
  unfoldable pub manual_resume : Allocator W → Allocator W × Bool
  manual_resume a =
      let (dd, done) = Drawdown.manual_resume cfg.drawdown a.dd in (record a { dd = dd }, done)

  -- What `portfolio_summary` does to the allocator, with the part of the risk monitor.
  unfoldable pub portfolio_summary : Allocator W → Allocator W × Portfolio.Summary W
  portfolio_summary a =
      let (risk, report) = Portfolio.summary cfg.risk a.portfolio_risk in
      (record a { portfolio_risk = risk }, report)

  -- `is_trading_allowed`
  abbrev pub is_trading_allowed : Allocator W → Bool
  is_trading_allowed a = Drawdown.can_open_new a.dd && Portfolio.is_active a.portfolio_risk
