-- ===== src/Portfolio.antt =====
-- risk/portfolio_risk.py: `PortfolioRisk`, the limit on the exposure of all pairs and its circuit
-- breaker. A pair is the number of its name, a notional a whole number of units of money.
pub mod Allocator
pub mod Admission
pub mod Agreement
pub mod Breaker
pub mod Exposure
pub mod Halts
pub mod Slots
mod Tests
use quantluna.Prelude.{
  ℕ, ◌+◌, ◌-◌, Bool, true, false, not, Option, none, some, List, [], ◌∷◌, ◌++◌, length, drop, ltb,
  if◌then◌else◌,
}
use quantluna.Prelude.Dict.{Dict, lookup, insert, erase}
use quantluna.Prelude.Float.{Float, max_of}

-- `PairExposure`, without the time of the opening, which nothing sets.
pub record PairExposure {ℓ} (W : Type ℓ) : Type ℓ where
  pub pair : ℕ
  pub notional_usdt : ℕ
  pub current_pnl : W
  pub entry_zscore : W
  pub current_zscore : W
  pub beta : W

-- The arguments of `__init__`; `max_exposure` is their product of share and capital, rounded down.
pub record Config {ℓ} (W : Type ℓ) : Type ℓ where
  pub max_exposure : ℕ
  pub max_dd : W
  pub capital : W

pub record Risk {ℓ} (W : Type ℓ) : Type ℓ where
  pub positions : Dict (PairExposure W)
  pub equity_curve : List W
  pub circuit_breaker : Bool
  pub trade_pnl_history : List W

-- The sum of the notionals.
abbrev pub total_exposure {ℓ} : {W : Type ℓ} → Dict (PairExposure W) → ℕ
total_exposure [] = 0
total_exposure (item ∷ items) = item.1.notional_usdt + total_exposure items

-- The trades that are kept.
abbrev history_size : ℕ
history_size = 500

-- What `summary` returns.
pub record Summary {ℓ} (W : Type ℓ) : Type ℓ where
  pub n_positions : ℕ
  pub total_exposure_usdt : ℕ
  pub total_pnl_usdt : W
  pub circuit_breaker : Bool
  pub drawdown : W
  pub n_trades_recorded : ℕ

module _ {ℓ} {W : Type ℓ} ⦃f : Float W⦄ (cfg : Config W) where
  abbrev pub new : Risk W
  new = record {
    positions = [];
    equity_curve = cfg.capital ∷ [];
    circuit_breaker = false;
    trade_pnl_history = [];
  }

  -- `add_position`
  unfoldable pub add_position : PairExposure W → Risk W → Risk W × Bool
  add_position exposure r =
      if r.circuit_breaker
      then (r, false)
      else if ltb cfg.max_exposure (total_exposure r.positions + exposure.notional_usdt)
      then (r, false)
      else (record r { positions = insert exposure.pair exposure r.positions }, true)

  -- The test of `update_pnl`: the position of the pair, if it is in the dict.
  abbrev pub set_pnl : ℕ → W → Option (PairExposure W) → Risk W → Risk W
  set_pnl pair pnl none r = r
  set_pnl pair pnl (some held) r = record r {
    positions = insert pair (record held { current_pnl = pnl }) r.positions;
  }

  -- `update_pnl`
  unfoldable pub update_pnl : ℕ → W → Risk W → Risk W
  update_pnl pair pnl r = set_pnl pair pnl (lookup pair r.positions) r

  abbrev sum_from : W → List W → W
  sum_from total [] = total
  sum_from total (x ∷ xs) = sum_from (f.add total x) xs

  abbrev pnls : Dict (PairExposure W) → List W
  pnls [] = []
  pnls (item ∷ items) = item.1.current_pnl ∷ pnls items

  abbrev total_pnl : Risk W → W
  total_pnl r = sum_from f.nought (pnls r.positions)

  abbrev max_from : W → List W → W
  max_from best [] = best
  max_from best (x ∷ xs) = max_from (max_of best x) xs

  -- The peak of the equity curve.
  abbrev peak_of : List W → W
  peak_of [] = cfg.capital
  peak_of (x ∷ xs) = max_from x xs

  abbrev drawdown_from : W → W → W
  drawdown_from peak equity =
      if f.lt f.nought peak then f.div (f.sub peak equity) peak else f.nought

  -- `check_drawdown`
  unfoldable pub check_drawdown : Risk W → Risk W × W
  check_drawdown r =
      let equity = f.add cfg.capital (total_pnl r) in
      let dd = drawdown_from (peak_of r.equity_curve) equity in
      let seen = record r { equity_curve = r.equity_curve ++ (equity ∷ []) } in
      ((if f.le cfg.max_dd dd then record seen { circuit_breaker = true } else seen), dd)

  abbrev kept_trades : List W → List W
  kept_trades trades = drop (length trades - history_size) trades

  -- `record_trade`, with the drawdown that it logs.
  unfoldable pub record_trade : W → Risk W → Risk W × W
  record_trade pnl r =
      let trades = kept_trades (r.trade_pnl_history ++ (pnl ∷ [])) in
      let equity = f.add cfg.capital (sum_from f.nought trades) in
      check_drawdown
        (record r { trade_pnl_history = trades; equity_curve = r.equity_curve ++ (equity ∷ []) })

  -- `remove_position`
  unfoldable pub remove_position : ℕ → Risk W → Risk W × Option (PairExposure W)
  remove_position pair r =
      (record r { positions = erase pair r.positions }, lookup pair r.positions)

  -- `summary`: the breaker is read before the drawdown is checked.
  unfoldable pub summary : Risk W → Risk W × Summary W
  summary r =
      let (after, dd) = check_drawdown r in
      (
        after,
        record {
          n_positions = length r.positions;
          total_exposure_usdt = total_exposure r.positions;
          total_pnl_usdt = total_pnl r;
          circuit_breaker = r.circuit_breaker;
          drawdown = dd;
          n_trades_recorded = length r.trade_pnl_history;
        },
      )

-- `is_active`
abbrev pub is_active {ℓ} : {W : Type ℓ} → Risk W → Bool
is_active r = not r.circuit_breaker
