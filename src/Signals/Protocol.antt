-- ===== src/Signals/Protocol.antt =====
-- strategy/signal.py: the signals of a `SignalGenerator` as the moves of a small state machine.
use quantluna.Prelude.{ℕ, ◌≤◌, ◌≡◌, refl, ◌⊎◌, Bool, true, false, arith}
use quantluna.Prelude.Float.{Float}
use quantluna.Signals.State.{
  Signal, long_spread, short_spread, exit, partial_exit, Side, flat, long, short, Config, Numerics,
  Generator, update_vol_buffer,
}
use quantluna.Signals.{
  Bar, Verdict, exit_now, exit_if_needed, enter, is_partial_due, partial, try_entry, keep,
  after_exits, exits, gates, measure, compute_signal, observe, generate_live,
}

-- What a consumer of the signals knows of the trade: the signal it has entered with, and whether it
-- was closed in part.
pub data Phase : Type 0 where
  idle : Phase
  holding : Signal → Bool → Phase

pub data Moves : Phase → Signal → Phase → Type 0 where
  stay_out : Moves idle exit idle
  go_long : Moves idle long_spread (holding long_spread false)
  go_short : Moves idle short_spread (holding short_spread false)
  stay_long : {d : Bool} → Moves (holding long_spread d) long_spread (holding long_spread d)
  stay_short : {d : Bool} → Moves (holding short_spread d) short_spread (holding short_spread d)
  close_part : {s : Signal} → Moves (holding s false) partial_exit (holding s true)
  leave : {s : Signal} {d : Bool} → Moves (holding s d) exit idle

ruleset moves = (stay_out, go_long, go_short, stay_long, stay_short, close_part, leave)

abbrev pub phase_of : Bool → Signal → Bool → Phase
phase_of true s d = holding s d
phase_of false s d = idle

abbrev pub phase {ℓ} : {W : Type ℓ} → Generator W → Phase
phase g = phase_of g.in_trade g.current_signal g.partial_exit_done

-- The signal of a trade belongs to its side.
abbrev pub IsEntered : Side → Signal → Type 0
IsEntered side signal =
    ((side ≡ long) × (signal ≡ long_spread)) ⊎ ((side ≡ short) × (signal ≡ short_spread))

-- In a trade, with its side, signal, bars, bars of cooldown left, and whether it was closed in part.
abbrev pub IsValidIn : Bool → Side → Signal → ℕ → ℕ → Bool → Type 0
IsValidIn true side signal bars wait done = IsEntered side signal × (1 ≤ bars) × (wait ≡ 0)
IsValidIn false side signal bars wait done =
    (side ≡ flat) × (signal ≡ exit) × (bars ≡ 0) × (done ≡ false)

abbrev pub IsValid {ℓ} : {W : Type ℓ} → Generator W → Type 0
IsValid g =
    IsValidIn g.in_trade g.entry_side g.current_signal g.bars_in_trade g.cooldown_remaining
      g.partial_exit_done

-- One step: the new state is valid, and the signal is a move between the two phases.
abbrev pub IsStep {ℓ} : {W : Type ℓ} → Generator W → (Generator W × Verdict W) → Type 0
IsStep g (after, v) = IsValid after × Moves (phase g) v.signal (phase after)

module _ {ℓ} {W : Type ℓ} ⦃f : Float W⦄ (num : Numerics W) (cfg : Config W) where
  exit_now-IsStep : (reason : _) (h : W) (g : Generator W) → IsStep g (exit_now num cfg reason h g)
  unfolding exit_now
  exit_now-IsStep reason h g = grind (arith, moves)

  exit_if_needed-IsStep :
      (reason : _) (h : W) (g : Generator W)
      → IsValid g
      → IsStep g (exit_if_needed num cfg reason h g)
  unfolding exit_if_needed
  exit_if_needed-IsStep reason h g v = grind (arith, moves, exit_now-IsStep reason h g)

  try_entry-IsStep :
      (z : W) (g : Generator W)
      → g.in_trade ≡ false
      → g.cooldown_remaining ≡ 0
      → IsValid g
      → IsStep g (try_entry num cfg z g)
  unfolding try_entry enter
  try_entry-IsStep z g e c v = grind (arith, moves)

  keep-IsStep :
      (z : W) (g : Generator W) → g.in_trade ≡ true → IsValid g → IsStep g (keep num cfg z g)
  unfolding keep
  keep-IsStep z g e v = grind (arith, moves)

  partial-IsStep :
      (z : W) (g : Generator W)
      → is_partial_due num cfg z g ≡ true
      → IsValid g
      → IsStep g (partial num cfg z g)
  unfolding partial is_partial_due
  partial-IsStep z g e v = grind (arith, moves)

  after_exits-IsStep :
      (bar : Bar W) (g : Generator W) → IsValid g → IsStep g (after_exits num cfg bar g)
  unfolding after_exits
  after_exits-IsStep bar g v = grind (arith, moves, keep-IsStep bar.z g, try_entry-IsStep bar.z g)

  exits-IsStep : (bar : Bar W) (g : Generator W) → IsValid g → IsStep g (exits num cfg bar g)
  unfolding exits
  exits-IsStep bar g v =
      grind (
        arith,
        exit_now-IsStep _ bar.half_life g,
        partial-IsStep bar.z g,
        after_exits-IsStep bar g v,
      )

  gates-IsStep : (bar : Bar W) (g : Generator W) → IsValid g → IsStep g (gates num cfg bar g)
  unfolding gates
  gates-IsStep bar g v =
      grind (arith, moves, exit_if_needed-IsStep _ bar.half_life g, exits-IsStep bar g v)

  pub compute_signal-IsStep :
      (bar : Bar W) (g : Generator W) → IsValid g → IsStep g (compute_signal num cfg bar g)
  unfolding compute_signal
  compute_signal-IsStep bar g v = gates-IsStep bar (measure num cfg g) v

  pub update_vol_buffer-keeps :
      (spread : W) (g : Generator W)
      → let after = update_vol_buffer cfg spread g in
        after ≡ record g {
          vol_buffer = after.vol_buffer;
          last_spread_for_vol = after.last_spread_for_vol;
        }
  unfolding update_vol_buffer
  update_vol_buffer-keeps spread g = ground arith

  pub observe-IsValid :
      (spread z : W) (g : Generator W)
      → IsValid g
      → IsValid (observe num cfg spread z g) × (phase (observe num cfg spread z g) ≡ phase g)
  observe-IsValid spread z g v = rw (update_vol_buffer-keeps spread g) (v, refl)

  pub generate_live-IsStep :
      (spread : W) (bar : Bar W) (g : Generator W)
      → IsValid g
      → IsStep g (generate_live num cfg spread true bar g)
  unfolding generate_live
  generate_live-IsStep spread bar g v =
      let (seen, same) = observe-IsValid spread bar.z g v in
      grind (arith, same, compute_signal-IsStep bar (observe num cfg spread bar.z g) seen)

  -- A bar that is not warm gives an exit and changes neither the phase nor the trade.
  pub cold-IsStep :
      (spread : W) (bar : Bar W) (g : Generator W)
      → IsValid g
      → let (after, v) = generate_live num cfg spread false bar g in
        IsValid after × (phase after ≡ phase g) × (v.signal ≡ exit)
  unfolding generate_live
  cold-IsStep spread bar g v =
      let (seen, same) = observe-IsValid spread bar.z g v in (seen, same, refl)
