-- ===== src/Signals/Tests.antt =====
-- strategy/signal.py: runs of a `SignalGenerator` on numbers in thousandths, none of them negative.
use quantluna.Prelude.{◌≡◌, refl, true, false, List, [], ◌∷◌, All, take, arith, inr}
use quantluna.Prelude.Float.{Thousandths, thousandths_float}
use quantluna.Signals.State.{
  exit, partial_exit, short_spread, Generator, new, update_vol_buffer, effective_entry_threshold,
  compute_vol_rank, is_dz_blocked, dynamic_cooldown, confidence_for_z,
}
use quantluna.Signals.Sample.{numerics, config, tick}
use quantluna.Signals.{
  generate_live, compute_signal, gates, exits, is_timed_out, is_partial_due, after_exits, try_entry,
  enter, keep, partial, exit_now, exit_if_needed,
}
use quantluna.Signals.Protocol.{IsValid, idle, phase}
use quantluna.Signals.Runs.{Tick, live, live_from, Has, Follows, new-Follows, partial_once}
use quantluna.Signals.Cooldown.{no_reentry}
use quantluna.Signals.Duration.{trade_ends, no_bar, bar_more}

-- A short trade, its partial exit, its end, a bar of cooldown, and a second trade.
abbrev ticks : List (Tick Thousandths)
ticks = tick 2500 ∷ (tick 900 ∷ (tick 200 ∷ (tick 2500 ∷ (tick 2500 ∷ (tick 900 ∷ [])))))

-- The state after the first bar.
abbrev entered : Generator Thousandths
entered = (live numerics config (tick 2500 ∷ []) (new config)).0

ticks-live :
    (live numerics config ticks (new config)).1
    ≡ short_spread ∷ (partial_exit ∷ (exit ∷ (exit ∷ (short_spread ∷ (partial_exit ∷ [])))))
unfolding live generate_live compute_signal gates exits is_timed_out update_vol_buffer
    is_partial_due after_exits try_entry effective_entry_threshold compute_vol_rank is_dz_blocked
    enter keep partial exit_now dynamic_cooldown exit_if_needed confidence_for_z
ticks-live = refl

partial_once_example : Has exit (exit ∷ (exit ∷ (short_spread ∷ [])))
partial_once_example =
    partial_once numerics config ticks (short_spread ∷ []) (exit ∷ (exit ∷ (short_spread ∷ []))) []
      ticks-live

left-in_trade : (generate_live numerics config 100 true (tick 4500).bar entered).0.in_trade ≡ false
unfolding live generate_live compute_signal gates exits is_timed_out update_vol_buffer
    is_partial_due after_exits try_entry effective_entry_threshold compute_vol_rank is_dz_blocked
    enter keep partial exit_now dynamic_cooldown exit_if_needed confidence_for_z
left-in_trade = refl

no_reentry_example :
    All
      (λ s. s ≡ exit)
      (live numerics config
        (tick 2500 ∷ [])
        (generate_live numerics config 100 true (tick 4500).bar entered).0).1
    × ((live numerics config
          (tick 2500 ∷ [])
          (generate_live numerics config 100 true (tick 4500).bar entered).0).0.in_trade
        ≡ false)
unfolding live generate_live compute_signal gates exits is_timed_out update_vol_buffer
    is_partial_due after_exits try_entry effective_entry_threshold compute_vol_rank is_dz_blocked
    enter keep partial exit_now dynamic_cooldown exit_if_needed confidence_for_z
no_reentry_example =
    no_reentry numerics config (tick 4500) entered (tick 2500 ∷ []) refl left-in_trade (refl, tt)
      (omega arith)

abbrev four_bars : List (Tick Thousandths)
four_bars = tick 2500 ∷ (tick 2500 ∷ (tick 2500 ∷ (tick 2500 ∷ [])))

abbrev six_bars : List (Tick Thousandths)
six_bars = tick 2500 ∷ (tick 2500 ∷ four_bars)

entered-IsValid : IsValid entered
unfolding live generate_live compute_signal gates exits is_timed_out update_vol_buffer
    is_partial_due after_exits try_entry effective_entry_threshold compute_vol_rank is_dz_blocked
    enter keep partial exit_now dynamic_cooldown exit_if_needed confidence_for_z
entered-IsValid = (inr (refl, refl), omega arith, refl)

trade_ends_example : Has exit (live numerics config six_bars entered).1
unfolding live generate_live compute_signal gates exits is_timed_out update_vol_buffer
    is_partial_due after_exits try_entry effective_entry_threshold compute_vol_rank is_dz_blocked
    enter keep partial exit_now dynamic_cooldown exit_if_needed confidence_for_z
trade_ends_example =
    trade_ends numerics config 1000 six_bars entered refl entered-IsValid refl
      (bar_more refl
        (bar_more refl (bar_more refl (bar_more refl (bar_more refl (bar_more refl no_bar))))))
      (omega arith)

new-Follows_example :
    let (final, ss) = live_from numerics config 1 ticks (new config) in
    IsValid final × Follows idle ss (phase final) × All (λ s. s ≡ exit) (take 1 ss)
new-Follows_example = new-Follows numerics config 1 ticks
