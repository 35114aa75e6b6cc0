-- ===== src/Hedge/Tests.antt =====
-- execution/single_hedge_manager.py: runs of the model, and each theorem at an input.
use quantluna.Prelude.{◌≡◌, refl, true, false, none, some, List, [], ◌∷◌, ◌+◌, ◌↔◌, ℕ}
use quantluna.Prelude.Float.{Thousandths, Thousandths-IsOrdered, thousandths_float}
use quantluna.Hedge.{
  Manager, Poll, GroupLeg, Sources, absent, raised, quoted, start, manage, poll_loop,
  fetch_mark_price, has_active_legs, apply_initial_sl_tp, verify_positions, poll, first_price,
  on_price_tick,
}
use quantluna.Hedge.Leg.{
  Config, LegState, set_sl, create_order, long, short, tick_long, tick_short, trail_long,
  trail_short, initial_long, check_sl_tp_long, update_trailing_sl_long, close_leg,
}
use quantluna.Hedge.Trail.{trail, slow_rise, poll_loop-Stands, Stands}
use quantluna.Hedge.Orders.{accepted, still_open, tick_closes, IsHit}
use quantluna.Hedge.Closing.{manage_closes_once, manage_ends_closed}

abbrev cfg : Config Thousandths
cfg = record {
  trailing_sl_enabled = true;
  trailing_sl_pct = 15;
  trailing_step_pct = 5;
  initial_sl_pct = 30;
  initial_tp_pct = 60;
  apply_initial_sl_tp = true;
}

abbrev group : GroupLeg Thousandths
group = record { qty = 2000; entry_price = 100000; mark_price = 101000 }

abbrev at_price : ℕ → Poll Thousandths
at_price price = record {
  stopped = false;
  sources = record { mark_price = absent; tickers = quoted price; positions = raised };
  takes_long = true;
  takes_short = true;
}

-- The price climbs from 101 to 104, which moves the stop to 102.44, and falls to 102, which closes.
abbrev polls : List (Poll Thousandths)
polls = at_price 104000 ∷ at_price 103000 ∷ at_price 102000 ∷ at_price 99000 ∷ []

abbrev final : Manager Thousandths
final = (manage cfg [] polls (start (some group) none)).0

made :
    final.calls
    ≡ set_sl long 2000 97000 106000 ∷ set_sl long 2000 102440 0 ∷ create_order long 2000 true ∷ []
unfolding manage start poll_loop has_active_legs apply_initial_sl_tp verify_positions initial_long
    poll fetch_mark_price first_price on_price_tick tick_long check_sl_tp_long
    update_trailing_sl_long close_leg
made = refl

manage_closes_once_example :
    (accepted long final.calls + still_open long final ≡ 1)
    × (accepted short final.calls + still_open short final ≡ 0)
manage_closes_once_example = manage_closes_once cfg [] polls (some group) none

manage_ends_closed_example : (accepted long final.calls ≡ 1) × (accepted short final.calls ≡ 0)
unfolding manage start poll_loop has_active_legs apply_initial_sl_tp verify_positions initial_long
    poll fetch_mark_price first_price on_price_tick tick_long check_sl_tp_long
    update_trailing_sl_long close_leg
manage_ends_closed_example =
    manage_ends_closed cfg [] polls (some group) none (refl, (refl, (refl, (refl, tt)))) refl

abbrev leg : LegState Thousandths
leg = record {
  qty = 2000;
  entry_price = 100000;
  current_price = 104000;
  sl_price = 102440;
  tp_price = 106000;
  trailing_high = 104000;
  trailing_low = 104000;
  active = true;
}

tick_closes_example :
    (((tick_long cfg true 102000 leg).0.active ≡ false)
      ↔ ((true ≡ true) × IsHit long 102000 (trail_long cfg 102000 leg).0))
    × (((tick_short cfg true 102000 leg).0.active ≡ false)
        ↔ ((true ≡ true) × IsHit short 102000 (trail_short cfg 102000 leg).0))
tick_closes_example = tick_closes cfg true 102000 leg refl

abbrev prices : List Thousandths
prices = 104400 ∷ 104800 ∷ 105200 ∷ 105600 ∷ 106000 ∷ 106400 ∷ 106800 ∷ []

slow_rise_example :
    ((trail cfg prices leg).sl_price ≡ 102440) × ((trail cfg prices leg).trailing_high ≡ 106800)
slow_rise_example =
    slow_rise cfg prices leg (refl, (refl, (refl, (refl, (refl, (refl, (refl, tt)))))))

poll_loop-Stands_example :
    Stands 102440
      (poll_loop cfg polls record { long_state = some leg; short_state = none; calls = [] }).0
poll_loop-Stands_example =
    poll_loop-Stands Thousandths-IsOrdered cfg polls 102440
      record { long_state = some leg; short_state = none; calls = [] } (leg, (refl, refl))

abbrev asked : Sources Thousandths
asked = (at_price 104000).sources
