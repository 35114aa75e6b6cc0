-- ===== src/Trading/Entries.antt =====
-- execution/bybit_live_runner.py: when the loop enters, beside the signals of a `SignalGenerator`.
use quantluna.Prelude.{◌≡◌, refl, ap, ◌∙◌, ◌⊎◌, inl, inr, Bool, true, false, Option, some, arith}
use mathlib.Core.Path.{subst}
use quantluna.Prelude.Float.{Float}
use quantluna.Signals.State.{Signal, long_spread, short_spread, Config, Numerics, Generator}
use quantluna.Signals.{Bar, generate_live}
use quantluna.Signals.Protocol.{
  IsValid, generate_live-IsStep, cold-IsStep, Moves, go_long, go_short, stay_long, stay_short,
  stay_out, leave, close_part, phase_of, Phase, idle,
}
use quantluna.Trading.{Asked, ask, Action, entry_long, entry_short, Engine, Guard, action_of}

abbrev pub IsEntry : Option Action → Type 0
IsEntry a = (a ≡ some entry_long) ⊎ (a ≡ some entry_short)

-- The signal is one of a trade that goes on or begins.
abbrev pub IsSide : Signal → Type 0
IsSide s = (s ≡ long_spread) ⊎ (s ≡ short_spread)

Moves-side : (p : Phase) (s : Signal) (q : Phase) → Moves p s q → IsSide s → q ≡ idle → ⊥
Moves-side _ _ _ stay_out h e = grind (arith, h)
Moves-side _ _ _ leave h e = grind (arith, h)
Moves-side _ _ _ go_long h e = absurd cc
Moves-side _ _ _ go_short h e = absurd cc
Moves-side _ _ _ stay_long h e = absurd cc
Moves-side _ _ _ stay_short h e = absurd cc
Moves-side _ _ _ close_part h e = absurd cc

phase_of-true : (b : Bool) (s : Signal) (d : Bool) → (phase_of b s d ≡ idle → ⊥) → b ≡ true
phase_of-true true s d h = refl
phase_of-true false s d h = absurd (h refl)

module _ {ℓ} {W : Type ℓ} ⦃f : Float W⦄ where
  action_of-IsSide :
      (engine : Engine W) (signal : Signal) (guard : Guard) (raises : Bool) (z : W)
      (circuit_open has : Bool)
      → IsEntry (action_of engine (some signal) guard raises z circuit_open has)
      → IsSide signal
  unfolding action_of
  action_of-IsSide engine signal guard raises z circuit_open has h = grind arith

  -- The generator was asked, or it was not, or it raised.
  ask_cases :
      (num : Numerics W) (cfg : Config W) (q : Asked W) (g : Generator W)
      → ((q.kalman_warm ≡ false) ⊎ (q.raises ≡ true))
        ⊎ ((ask num cfg q g).1 ≡ some (generate_live num cfg q.spread q.is_warm q.bar g).1.signal)
          × ((ask num cfg q g).0 ≡ (generate_live num cfg q.spread q.is_warm q.bar g).0)
  unfolding ask
  ask_cases num cfg q g = grind arith

  side_in_trade :
      (num : Numerics W) (cfg : Config W) (spread : W) (is_warm : Bool) (bar : Bar W)
      (g : Generator W)
      → IsValid g
      → IsSide (generate_live num cfg spread is_warm bar g).1.signal
      → (generate_live num cfg spread is_warm bar g).0.in_trade ≡ true
  side_in_trade num cfg spread false bar g valid side = absurd (
      Moves-side _ _ _ stay_out (subst IsSide (cold-IsStep num cfg spread bar g valid).2 side) refl)
  side_in_trade num cfg spread true bar g valid side =
      let move = (generate_live-IsStep num cfg spread bar g valid).1 in
      phase_of-true _ _ _ (Moves-side _ _ _ move side)

  answered :
      (num : Numerics W) (cfg : Config W) (q : Asked W) (g : Generator W) (signal : Option Signal)
      (engine : Engine W) (guard : Guard) (raises : Bool) (z : W) (circuit_open has : Bool)
      → IsValid g
      → signal ≡ some (generate_live num cfg q.spread q.is_warm q.bar g).1.signal
      → (ask num cfg q g).0 ≡ (generate_live num cfg q.spread q.is_warm q.bar g).0
      → IsEntry (action_of engine signal guard raises z circuit_open has)
      → ((ask num cfg q g).0.in_trade ≡ true) × ((s : Signal) × (signal ≡ some s) × IsSide s)
  answered num cfg q g signal engine guard raises z circuit_open has valid e same h =
      let given = subst (λ s. IsEntry (action_of engine s guard raises z circuit_open has)) e h in
      let side = action_of-IsSide engine _ guard raises z circuit_open has given in
      (
        ap (λ g'. g'.in_trade) same ∙ side_in_trade num cfg q.spread q.is_warm q.bar g valid side,
        (_, e, side),
      )

  -- With a generator in use, in a valid state, a bar of the loop enters only if the generator was not
  -- asked, since the filter of the loop is not warm, or it raised, or it is in a trade after the bar
  -- and gave the signal of a side.
  pub entry_needs_trade :
      (num : Numerics W) (cfg : Config W) (q : Asked W) (g : Generator W) (engine : Engine W)
      (guard : Guard) (raises : Bool) (z : W) (circuit_open has : Bool)
      → IsValid g
      → IsEntry (action_of engine (ask num cfg q g).1 guard raises z circuit_open has)
      → let (after, signal) = ask num cfg q g in
        ((q.kalman_warm ≡ false) ⊎ (q.raises ≡ true))
        ⊎ ((after.in_trade ≡ true) × ((s : Signal) × (signal ≡ some s) × IsSide s))
  entry_needs_trade num cfg q g engine guard raises z circuit_open has valid h =
      elim (ask_cases num cfg q g) [
        | inl unasked ↦ inl unasked
        | inr (e, same) ↦
            inr (answered num cfg q g _ engine guard raises z circuit_open has valid e same h)
      ]
