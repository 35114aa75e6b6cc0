-- ===== src/Reserve/Scaling.antt =====
-- execution/capital_allocator.py: the high watermarks.
use mathlib.Core.Path.{subst}
use quantluna.Prelude.{
  ◌≡◌, refl, sym, Bool, true, false, Option, List, [], ◌∷◌, ◌++◌, arith, ◌==◌, if◌then◌else◌,
}
use quantluna.Prelude.Float.{Float}
use quantluna.Reserve.{
  StrategyAllocation, Summary, Allocator, Cycle, Decision, Action, scale_up, new, allocated,
  watermark, take_profit, scale, or_hold, strategy_turn, strategy_turns, begin_cycle,
  summary_or_zero, reserve, run_daily_cycle, run_cycles,
}

abbrev is_scale_up : Action → Bool
is_scale_up scale_up = true
is_scale_up _ = false

-- One of the decisions scales a strategy up.
abbrev pub scales {ℓ} : {W : Type ℓ} → List (Decision W) → Bool
scales [] = false
scales (d ∷ ds) = let rest = scales ds in if is_scale_up d.action then true else rest

-- One of the cycles does.
abbrev pub any_scales {ℓ} : {W : Type ℓ} → List (Cycle W) → Bool
any_scales [] = false
any_scales (c ∷ cs) = let rest = any_scales cs in if scales c.decisions then true else rest

scales-append {ℓ} :
    {W : Type ℓ} (ds : List (Decision W)) (d : Decision W)
    → scales ds ≡ false
    → is_scale_up d.action ≡ false
    → scales (ds ++ (d ∷ [])) ≡ false
scales-append [] d h e = grind (arith, e)
scales-append (x ∷ xs) d h e = grind (arith, e, h, scales-append xs d)

module _ {ℓ} {W : Type ℓ} ⦃f : Float W⦄ where
  abbrev pub IsNonNegative : W → Type 0
  IsNonNegative x = f.le f.nought x ≡ true

  -- Its share keeps a number from being negative, and its factor then does not lower it.
  abbrev pub Grows : StrategyAllocation W → Type ℓ
  Grows s =
      (x : W)
      → IsNonNegative x
      → IsNonNegative (f.mul x s.target_pct) × (f.lt (f.mul x s.high_watermark_scale) x ≡ false)

  -- The equity of every answer is not negative.
  pub data AllSolvent : List (Option (Summary W)) → Type ℓ where
    nothing : AllSolvent []
    day :
        (answer : Option (Summary W)) (answers : List (Option (Summary W)))
        → IsNonNegative (summary_or_zero answer).total_equity_usdt
        → AllSolvent answers
        → AllSolvent (answer ∷ answers)

  pub data AllGrow : List (StrategyAllocation W) → Type ℓ where
    nil : AllGrow []
    cons :
        (s : StrategyAllocation W) (ss : List (StrategyAllocation W))
        → Grows s
        → AllGrow ss
        → AllGrow (s ∷ ss)

  -- No mark is set, and no strategy was scaled up.
  abbrev IsStill : Cycle W → Type ℓ
  IsStill c = (c.high_watermarks ≡ []) × (scales c.decisions ≡ false)

  take_profit-IsStill :
      (t : Bool) (today : Summary W) (s : StrategyAllocation W) (c : Cycle W)
      → IsStill c
      → IsStill (take_profit t today s c)
  unfolding take_profit
  take_profit-IsStill t today s c v = grind (arith, v.0, v.1, scales-append c.decisions)

  scale-IsStill :
      (t : Bool) (today : Summary W) (s : StrategyAllocation W) (c : Cycle W)
      → Grows s
      → IsNonNegative today.total_equity_usdt
      → IsStill c
      → IsStill (scale t today s (allocated t today s) c)
  unfolding scale
  scale-IsStill t today s c grows solvent v =
      let share = (grows today.total_equity_usdt solvent).0 in
      rw (grows (allocated t today s) share).1 v

  or_hold-IsStill :
      (t : Bool) (today : Summary W) (s : StrategyAllocation W) (c : Cycle W)
      → IsStill c
      → IsStill (or_hold t today s c)
  unfolding or_hold
  or_hold-IsStill t today s c v = grind (arith, v.0, v.1, scales-append c.decisions)

  watermark-unset :
      (t : Bool) (today : Summary W) (s : StrategyAllocation W) (c : Cycle W)
      → c.high_watermarks ≡ []
      → watermark t today s c.high_watermarks ≡ allocated t today s
  watermark-unset t today s c h = rw h refl

  either-IsStill :
      (b : Bool) (c c' : Cycle W) → IsStill c → IsStill c' → IsStill (if b then c else c')
  either-IsStill true c c' v v' = v
  either-IsStill false c c' v v' = v'

  strategy_turn-IsStill :
      (t : Bool) (today : Summary W) (s : StrategyAllocation W) (c : Cycle W)
      → Grows s
      → IsNonNegative today.total_equity_usdt
      → IsStill c
      → IsStill (strategy_turn t today s c)
  unfolding strategy_turn
  strategy_turn-IsStill t today s c grows solvent v =
      let taken = take_profit t today s c in
      let scaled =
        scale-IsStill t today s taken grows solvent (take_profit-IsStill t today s c v) in
      let marked =
        subst (λ hwm. IsStill (scale t today s hwm taken)) (sym (watermark-unset t today s c v.0))
          scaled in
      either-IsStill (s.name == reserve) c _ v (or_hold-IsStill t today s _ marked)

  strategy_turns-IsStill :
      (t : Bool) (today : Summary W) {ss : List (StrategyAllocation W)} (c : Cycle W)
      → AllGrow ss
      → IsNonNegative today.total_equity_usdt
      → IsStill c
      → IsStill (strategy_turns t today ss c)
  unfolding strategy_turns
  strategy_turns-IsStill t today c nil solvent v = v
  strategy_turns-IsStill t today c (cons s ss grows rest) solvent v =
      strategy_turns-IsStill t today (strategy_turn t today s c) rest solvent
        (strategy_turn-IsStill t today s c grows solvent v)

  run_cycles-still :
      {answers : List (Option (Summary W))} (a : Allocator W)
      → AllSolvent answers
      → AllGrow a.allocations
      → a.high_watermarks ≡ []
      → let (final, cycles) = run_cycles answers a in
        (final.high_watermarks ≡ []) × (any_scales cycles ≡ false)
  unfolding run_cycles run_daily_cycle
  run_cycles-still a nothing grow h = (h, refl)
  run_cycles-still a (day answer answers solvent rest) grow h =
      let (a', c) = run_daily_cycle answer a in
      let v =
        strategy_turns-IsStill a.has_transfers (summary_or_zero answer)
          (begin_cycle a.high_watermarks) grow solvent (h, refl) in
      let more = run_cycles-still a' rest grow v.0 in (more.0, grind (arith, more.1, v.1))

  -- Where the share and the factor of each strategy keep numbers from being negative and do not lower
  -- them, and no equity is negative, the daily cycles of a new allocator never scale a strategy up and
  -- never set a high watermark, however much the equity grows.
  pub never_scales :
      (strategies : List (StrategyAllocation W)) (has_transfers : Bool)
      (answers : List (Option (Summary W)))
      → AllSolvent answers
      → AllGrow strategies
      → let (final, cycles) = run_cycles answers (new strategies has_transfers) in
        (final.high_watermarks ≡ []) × (any_scales cycles ≡ false)
  never_scales strategies has_transfers answers solvent grow =
      run_cycles-still (new strategies has_transfers) solvent grow refl
