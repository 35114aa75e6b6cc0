-- ===== src/Reserve.antt =====
-- execution/capital_allocator.py: `CapitalAllocator`, the daily cycle of the strategies and the reserve.
-- A strategy is the number of its name.
pub mod Scaling
mod Tests
use quantluna.Prelude.{
  ℕ, Bool, true, false, ◌&&◌, Option, none, some, List, [], ◌∷◌, ◌++◌, ◌==◌, if◌then◌else◌,
}
use quantluna.Prelude.Dict.{Dict, lookup, insert}
use quantluna.Prelude.Float.{Float}

-- `StrategyAllocation`
pub record StrategyAllocation {ℓ} (W : Type ℓ) : Type ℓ where
  pub name : ℕ
  pub target_pct : W
  pub min_usdt : W
  pub max_usdt : W
  pub profit_take_pct : W
  pub high_watermark_scale : W
  pub reserve_pct : W

pub data Action : Type 0 where
  profit_take scale_up hold : Action

-- `AllocationDecision`, without its reason and time.
pub record Decision {ℓ} (W : Type ℓ) : Type ℓ where
  pub strategy : ℕ
  pub action : Action
  pub amount_usdt : W

-- What `get_daily_summary` returns.
pub record Summary {ℓ} (W : Type ℓ) : Type ℓ where
  pub total_equity_usdt : W
  pub realised_pnl_usdt : W

-- The allocator; `has_transfers` says whether there is a transfer manager.
pub record Allocator {ℓ} (W : Type ℓ) : Type ℓ where
  pub allocations : List (StrategyAllocation W)
  pub has_transfers : Bool
  pub high_watermarks : Dict W

-- What the loop of a cycle has made: the decisions, the sum that goes to the reserve and the calls of
-- `futures_to_spot`, whose failures it only logs.
pub record Cycle {ℓ} (W : Type ℓ) : Type ℓ where
  pub high_watermarks : Dict W
  pub decisions : List (Decision W)
  pub moved_to_reserve : W
  pub transfers : List W

-- The name "reserve".
abbrev pub reserve : ℕ
reserve = 0

abbrev pub new {ℓ} : {W : Type ℓ} → List (StrategyAllocation W) → Bool → Allocator W
new allocations has_transfers = record {
  allocations = allocations;
  has_transfers = has_transfers;
  high_watermarks = [];
}

-- The last decision is of this strategy.
abbrev pub ends_with {ℓ} : {W : Type ℓ} → ℕ → List (Decision W) → Bool
ends_with name [] = false
ends_with name (d ∷ []) = d.strategy == name
ends_with name (d ∷ (e ∷ ds)) = ends_with name (e ∷ ds)

module _ {ℓ} {W : Type ℓ} ⦃f : Float W⦄ (has_transfers : Bool) (today : Summary W) where
  abbrev pnl_pct : W
  pnl_pct =
      if f.lt f.nought today.total_equity_usdt
      then f.div today.realised_pnl_usdt today.total_equity_usdt
      else f.nought

  abbrev pub allocated : StrategyAllocation W → W
  allocated s = f.mul today.total_equity_usdt s.target_pct

  abbrev pub watermark : StrategyAllocation W → Dict W → W
  watermark s marks = elim (lookup s.name marks) [ some hwm ↦ hwm | none ↦ allocated s ]

  abbrev decide : StrategyAllocation W → Action → W → Cycle W → Cycle W
  decide s action amount c = record c {
    decisions =
        c.decisions ++ (record { strategy = s.name; action = action; amount_usdt = amount } ∷ []);
  }

  -- The profit take of a strategy.
  unfoldable pub take_profit : StrategyAllocation W → Cycle W → Cycle W
  take_profit s c =
      let excess = f.mul today.realised_pnl_usdt s.reserve_pct in
      let taken = record (decide s profit_take excess c) {
        moved_to_reserve = f.add c.moved_to_reserve excess;
      } in
      if f.le s.profit_take_pct pnl_pct && f.lt f.nought today.realised_pnl_usdt
      then if has_transfers && f.lt f.one excess
        then record taken { transfers = c.transfers ++ (excess ∷ []) }
        else taken
      else c

  -- The test of the high watermark, with the mark from before.
  unfoldable pub scale : StrategyAllocation W → W → Cycle W → Cycle W
  scale s hwm c =
      if f.lt (f.mul hwm s.high_watermark_scale) (allocated s)
      then record (decide s scale_up (f.sub (allocated s) hwm) c) {
        high_watermarks = insert s.name (allocated s) c.high_watermarks;
      }
      else c

  -- A strategy with no decision holds.
  unfoldable pub or_hold : StrategyAllocation W → Cycle W → Cycle W
  or_hold s c = if ends_with s.name c.decisions then c else decide s hold (allocated s) c

  -- One turn of the loop.
  unfoldable pub strategy_turn : StrategyAllocation W → Cycle W → Cycle W
  strategy_turn s c =
      if s.name == reserve
      then c
      else or_hold s (scale s (watermark s c.high_watermarks) (take_profit s c))

  -- The loop over the strategies.
  unfoldable pub strategy_turns : List (StrategyAllocation W) → Cycle W → Cycle W
  strategy_turns [] c = c
  strategy_turns (s ∷ ss) c = strategy_turns ss (strategy_turn s c)

module _ {ℓ} {W : Type ℓ} ⦃f : Float W⦄ where
  -- The answer of the tracker, or zeros if it raises.
  abbrev summary_or_zero : Option (Summary W) → Summary W
  summary_or_zero (some s) = s
  summary_or_zero none = record { total_equity_usdt = f.nought; realised_pnl_usdt = f.nought }

  abbrev pub begin_cycle : Dict W → Cycle W
  begin_cycle marks = record {
    high_watermarks = marks;
    decisions = [];
    moved_to_reserve = f.nought;
    transfers = [];
  }

  -- `run_daily_cycle`
  unfoldable pub run_daily_cycle : Option (Summary W) → Allocator W → Allocator W × Cycle W
  run_daily_cycle answer a =
      let c =
        strategy_turns a.has_transfers (summary_or_zero answer) a.allocations
          (begin_cycle a.high_watermarks) in
      (record a { high_watermarks = c.high_watermarks }, c)

  -- The cycles of several days.
  unfoldable pub run_cycles : List (Option (Summary W)) → Allocator W → Allocator W × List (Cycle W)
  run_cycles [] a = (a, [])
  run_cycles (answer ∷ answers) a =
      let (a', c) = run_daily_cycle answer a in
      let (final, cs) = run_cycles answers a' in (final, c ∷ cs)
