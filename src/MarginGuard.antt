-- ===== src/MarginGuard.antt =====
-- execution/margin_risk_guard.py: `MarginRiskGuard`, which closes a position whose margin ratio is
-- critical. A symbol is the number of its name.
pub mod Closing
mod Tests
use quantluna.Prelude.{
  ℕ, suc, ◌+◌, Bool, true, false, not, Option, none, some, List, [], ◌∷◌, ◌++◌, ◌==◌, ltb, leb,
  if◌then◌else◌,
}
use quantluna.Prelude.Dict.{Dict, lookup, insert}
use quantluna.Prelude.Float.{Float}

-- `MarginRiskConfig`
pub record Config {ℓ} (W : Type ℓ) : Type ℓ where
  pub danger_threshold : W
  pub critical_threshold : W
  pub auto_close_on_critical : Bool
  pub max_auto_closes : ℕ
  pub cooldown : ℕ

pub record Position {ℓ} (W : Type ℓ) : Type ℓ where
  pub symbol : ℕ
  pub margin_ratio : W

pub record Guard : Type 0 where
  pub auto_closes_count : ℕ
  pub last_action : Dict ℕ
  pub alerted_symbols : List ℕ

-- The alerts, and a call of `close_position` that the exchange has done.
pub data Act : Type 0 where
  maximum_reached will_close danger closed : ℕ → Act

abbrev pub new : Guard
new = record { auto_closes_count = 0; last_action = []; alerted_symbols = [] }

abbrev pub is_in : ℕ → List ℕ → Bool
is_in x [] = false
is_in x (y ∷ ys) = let rest = is_in x ys in if x == y then true else rest

-- `discard`
abbrev pub discard : ℕ → List ℕ → List ℕ
discard x [] = []
discard x (y ∷ ys) = let rest = discard x ys in if x == y then rest else y ∷ rest

-- The time of the last close of a symbol, 0 if there is none.
abbrev pub last_or_zero : ℕ → Guard → ℕ
last_or_zero symbol g = elim (lookup symbol g.last_action) [ some t ↦ t | none ↦ 0 ]

abbrev pub note_close : ℕ → ℕ → Guard → Guard
note_close later symbol g = record {
  auto_closes_count = suc g.auto_closes_count;
  last_action = insert symbol later g.last_action;
  alerted_symbols = discard symbol g.alerted_symbols;
}

module _ {ℓ} {W : Type ℓ} ⦃f : Float W⦄ (cfg : Config W) where
  -- The branch of a critical ratio: the clock before and after the order, and whether it succeeds.
  unfoldable pub critical : ℕ → ℕ → Bool → ℕ → Guard → Guard × List Act
  critical now later ok symbol g =
      if leb cfg.max_auto_closes g.auto_closes_count
      then (g, maximum_reached symbol ∷ [])
      else if ltb now (last_or_zero symbol g + cfg.cooldown)
      then (g, [])
      else if not cfg.auto_close_on_critical
      then (g, will_close symbol ∷ [])
      else if ok
      then (note_close later symbol g, will_close symbol ∷ (closed symbol ∷ []))
      else (g, will_close symbol ∷ [])

  -- `_evaluate_position`
  unfoldable pub evaluate_position : ℕ → ℕ → Bool → Position W → Guard → Guard × List Act
  evaluate_position now later ok pos g =
      if f.lt pos.margin_ratio cfg.critical_threshold
      then critical now later ok pos.symbol g
      else if f.lt pos.margin_ratio cfg.danger_threshold
      then if is_in pos.symbol g.alerted_symbols
        then (g, [])
        else (record g { alerted_symbols = pos.symbol ∷ g.alerted_symbols }, danger pos.symbol ∷ [])
      else (record g { alerted_symbols = discard pos.symbol g.alerted_symbols }, [])

-- What `_check_all_positions` meets for one position.
pub record Reading {ℓ} (W : Type ℓ) : Type ℓ where
  pub now : ℕ
  pub later : ℕ
  pub ok : Bool
  pub position : Position W

module _ {ℓ} {W : Type ℓ} ⦃f : Float W⦄ (cfg : Config W) where
  -- The loop of `_check_all_positions`, and those of the rounds of `watch_loop` after one another.
  unfoldable pub check_positions : List (Reading W) → Guard → Guard × List Act
  check_positions [] g = (g, [])
  check_positions (r ∷ rs) g =
      let (after, acts) = evaluate_position cfg r.now r.later r.ok r.position g in
      let (final, more) = check_positions rs after in (final, acts ++ more)
