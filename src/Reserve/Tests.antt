-- ===== src/Reserve/Tests.antt =====
-- execution/capital_allocator.py: one strategy whose factor is 2, with numbers in thousandths.
use quantluna.Prelude.{◌≡◌, refl, true, false, Option, none, some, List, [], ◌∷◌, arith}
use quantluna.Prelude.Float.{Thousandths, thousandths_float}
use quantluna.Reserve.{
  StrategyAllocation, Summary, profit_take, new, take_profit, scale, or_hold, strategy_turn,
  strategy_turns, run_daily_cycle, run_cycles,
}
use quantluna.Reserve.Scaling.{
  AllGrow, nil, cons, AllSolvent, nothing, day, any_scales, never_scales,
}

abbrev pairs : StrategyAllocation Thousandths
pairs = record {
  name = 1;
  target_pct = 700;
  min_usdt = 100000;
  max_usdt = 100000000;
  profit_take_pct = 30;
  high_watermark_scale = 2000;
  reserve_pct = 100;
}

-- The equity grows tenfold, with a profit of a tenth each day.
abbrev days : List (Option (Summary Thousandths))
days =
    some (record { total_equity_usdt = 1000000; realised_pnl_usdt = 100000 })
    ∷ (none ∷ (some (record { total_equity_usdt = 10000000; realised_pnl_usdt = 1000000 }) ∷ []))

grows : AllGrow (pairs ∷ [])
grows = cons pairs [] (λ x h. ground arith) nil

solvent : AllSolvent days
solvent = day _ _ refl (day _ _ refl (day _ _ refl nothing))

never_scales_example :
    let (final, cycles) = run_cycles days (new (pairs ∷ []) true) in
    (final.high_watermarks ≡ []) × (any_scales cycles ≡ false)
never_scales_example = never_scales (pairs ∷ []) true days solvent grows

takes_profit :
    (run_daily_cycle
      (some (record { total_equity_usdt = 1000000; realised_pnl_usdt = 100000 }))
      (new (pairs ∷ []) true)).1.decisions
    ≡ record { strategy = 1; action = profit_take; amount_usdt = 10000 } ∷ []
unfolding run_daily_cycle strategy_turns strategy_turn take_profit scale or_hold
takes_profit = refl
