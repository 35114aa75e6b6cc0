-- ===== src/MarginGuard/Closing.antt =====
-- execution/margin_risk_guard.py: how often the guard closes positions.
use quantluna.Prelude.{
  ℕ, ◌+◌, ◌≤◌, ◌<◌, ◌≡◌, Bool, true, false, List, [], ◌∷◌, ◌++◌, ◌==◌, arith, if◌then◌else◌,
}
use quantluna.Prelude.Float.{Float}
use quantluna.MarginGuard.{
  Config, Guard, Act, closed, new, critical, evaluate_position, Reading, check_positions,
}

abbrev is_closed : Act → Bool
is_closed (closed _) = true
is_closed _ = false

-- How many positions were closed.
unfoldable pub closes : List Act → ℕ
closes [] = 0
closes (act ∷ acts) = (if is_closed act then 1 else 0) + closes acts

closes-append : (xs ys : List Act) → closes (xs ++ ys) ≡ closes xs + closes ys
unfolding closes
closes-append [] ys = omega arith
closes-append (x ∷ xs) ys = omega (arith, closes-append xs ys)

-- How often a symbol was closed.
abbrev is_closed_of : ℕ → Act → Bool
is_closed_of s (closed s') = s == s'
is_closed_of s _ = false

unfoldable pub closes_of : ℕ → List Act → ℕ
closes_of s [] = 0
closes_of s (act ∷ acts) = (if is_closed_of s act then 1 else 0) + closes_of s acts

-- The readings are before a time.
pub data IsWithin {ℓ} {W : Type ℓ} (end : ℕ) : List (Reading W) → Type ℓ where
  over : IsWithin end []
  within :
      {r : Reading W} {rs : List (Reading W)}
      → r.now < end
      → IsWithin end rs
      → IsWithin end (r ∷ rs)

module _ {ℓ} {W : Type ℓ} ⦃f : Float W⦄ (cfg : Config W) where
  critical-closes :
      (now later : ℕ) (ok : Bool) (symbol : ℕ) (g : Guard)
      → g.auto_closes_count ≤ cfg.max_auto_closes
      → let (after, acts) = critical cfg now later ok symbol g in
        (after.auto_closes_count ≡ g.auto_closes_count + closes acts)
        × (after.auto_closes_count ≤ cfg.max_auto_closes)
  unfolding critical closes
  critical-closes now later ok symbol g h = ground arith

  evaluate_position-closes :
      (r : Reading W) (g : Guard)
      → g.auto_closes_count ≤ cfg.max_auto_closes
      → let (after, acts) = evaluate_position cfg r.now r.later r.ok r.position g in
        (after.auto_closes_count ≡ g.auto_closes_count + closes acts)
        × (after.auto_closes_count ≤ cfg.max_auto_closes)
  unfolding evaluate_position closes
  evaluate_position-closes r g h =
      grind (arith, critical-closes r.now r.later r.ok r.position.symbol g h)

  check_positions-closes :
      (rs : List (Reading W)) (g : Guard)
      → g.auto_closes_count ≤ cfg.max_auto_closes
      → let (after, acts) = check_positions cfg rs g in
        (after.auto_closes_count ≡ g.auto_closes_count + closes acts)
        × (after.auto_closes_count ≤ cfg.max_auto_closes)
  unfolding check_positions closes
  check_positions-closes [] g h = (omega arith, h)
  check_positions-closes (r ∷ rs) g h =
      let (after, acts) = evaluate_position cfg r.now r.later r.ok r.position g in
      let (one, still) = evaluate_position-closes r g h in
      let (more, final) = check_positions-closes rs after still in
      (omega (arith, one, more, closes-append acts (check_positions cfg rs after).1), final)

  -- A new guard closes no more positions than the maximum, whatever positions it meets in whatever
  -- rounds, and it counts those that it closes.
  pub closes_limited :
      (rs : List (Reading W))
      → let (after, acts) = check_positions cfg rs new in
        (after.auto_closes_count ≡ closes acts) × (closes acts ≤ cfg.max_auto_closes)
  closes_limited rs =
      let (counted, limited) = check_positions-closes rs new (omega arith) in
      (omega (arith, counted), omega (arith, counted, limited))
