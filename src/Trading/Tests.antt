-- ===== src/Trading/Tests.antt =====
-- execution/action_executor.py, execution/decision_engine.py: a few bars, with numbers in thousandths.
use quantluna.Prelude.{◌≡◌, ◌⊎◌, inr, refl, true, false, none, some, [], ◌∷◌, ◌++◌}
use quantluna.Prelude.Float.{Thousandths, thousandths_float}
use quantluna.Orders.State.{buy, sell}
use quantluna.Orders.Account.{new_account}
use quantluna.Signals.State.{
  Signal, new, update_vol_buffer, effective_entry_threshold, compute_vol_rank, is_dz_blocked,
  confidence_for_z,
}
use quantluna.Signals.Sample.{numerics, config, tick}
use quantluna.Signals.{
  generate_live, compute_signal, gates, exits, is_timed_out, is_partial_due, after_exits, try_entry,
  enter,
}
use quantluna.Trading.{
  entry_long, entry_short, leave, sym_y, sym_x, Sent, Prices, World, Engine, Executor, no_close,
  order_of, Asked, ask, execute, action_of, decide,
}
use quantluna.Trading.Legs.{
  round_trip, refused_keeps_account, failing_exits, for_each, retries_pile_up,
}
use quantluna.Trading.Entries.{IsSide, entry_needs_trade}

abbrev executor : Executor Thousandths
executor = record { base_qty = 10; dry_run = false }

abbrev engine : Engine Thousandths
engine = record { entry_zscore = 2000; exit_zscore = 500; enabled = true }

abbrev bar : Prices Thousandths
bar = record { price_y = 65000; price_x = 3400 }

abbrev world : World Thousandths
world = record { account = new_account; accepted = [] }

-- Forty orders' worth of hedge: the second leg is opened with 191 and closed with 10.
round_trip_example :
    let after =
      execute executor bar true true leave (execute executor bar true true entry_long world) in
    (after.account.current_position ≡ none)
    × (after.accepted
        ≡ order_of sym_y buy 10
          ∷ (order_of sym_x sell 191 ∷ (order_of sym_y sell 10 ∷ (order_of sym_x buy 10 ∷ []))))
round_trip_example = round_trip executor entry_long bar bar world refl (λ e. cc)

refused_keeps_account_example :
    let after = execute executor bar true false entry_long world in
    (after.account ≡ world.account)
    × ((after.accepted ≡ [])
        ⊎ ((order : Sent Thousandths) × (true ≡ true) × (after.accepted ≡ order ∷ [])))
refused_keeps_account_example = refused_keeps_account executor entry_long bar true false world refl

-- Two exits fail at their second order.
retries_pile_up_example :
    let entered = execute executor bar true true entry_long world in
    let after =
      execute executor bar true true leave (failing_exits executor (bar ∷ (bar ∷ [])) entered) in
    (after.account.current_position ≡ none)
    × (after.accepted
        ≡ ((entered.accepted ++ for_each executor (bar ∷ (bar ∷ [])) (order_of sym_y sell 10))
            ++ (order_of sym_y sell 10 ∷ []))
          ++ (order_of sym_x buy 10 ∷ []))
retries_pile_up_example =
    retries_pile_up executor entry_long bar (bar ∷ (bar ∷ [])) bar world refl (λ e. cc)

-- A bar at which the generator enters, and one at which the filter is cold.
abbrev asked : Asked Thousandths
asked = record {
  kalman_warm = true;
  raises = false;
  left = new config;
  spread = 100;
  is_warm = true;
  bar = (tick 2500).bar;
}

enters_short :
    action_of engine (ask numerics config asked (new config)).1 no_close true 2500 false false
    ≡ some entry_short
unfolding ask generate_live compute_signal gates exits is_timed_out update_vol_buffer is_partial_due
    after_exits try_entry effective_entry_threshold compute_vol_rank is_dz_blocked enter
    confidence_for_z action_of decide
enters_short = refl

enters_cold :
    action_of engine
      (ask numerics config (record asked { kalman_warm = false }) (new config)).1
      no_close
      true
      2500
      false
      false
    ≡ some entry_short
unfolding ask action_of decide
enters_cold = refl

entry_needs_trade_example :
    let (after, signal) = ask numerics config asked (new config) in
    ((true ≡ false) ⊎ (false ≡ true))
    ⊎ ((after.in_trade ≡ true) × ((s : Signal) × (signal ≡ some s) × IsSide s))
entry_needs_trade_example =
    entry_needs_trade numerics config asked (new config) engine no_close true 2500 false false
      (refl, refl, refl, refl) (inr enters_short)
