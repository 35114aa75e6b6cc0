-- ===== src/Portfolio/Tests.antt =====
-- risk/multi_pair_allocator.py: two places and an exposure of 600, with numbers in thousandths.
use quantluna.Prelude.{ℕ, suc, ◌≤◌, ◌≡◌, refl, some, true, false, List, [], ◌∷◌, length}
use quantluna.Prelude.Dict.{contains, lookup}
use quantluna.Prelude.Float.{Thousandths, thousandths_float}
use quantluna.Drawdown
use quantluna.Drawdown.Halting.{has_key}
use quantluna.Portfolio.{
  add_position, update_pnl, remove_position, summary, check_drawdown, total_exposure,
}
use quantluna.Portfolio.Allocator.{
  Config, Request, new, exposure_of, sum_notionals, admit, enter, request_entry, update_pnls,
  update_state, record_exit, portfolio_summary,
}
use quantluna.Portfolio.Agreement.{Call, entry, tick, exit, resume, report, call, calls, notionals}
use quantluna.Portfolio.Admission.{entry_in_tables}
use quantluna.Portfolio.Breaker.{tripped_for_ever}
use quantluna.Portfolio.Exposure.{exposure_within}
use quantluna.Portfolio.Halts.{hard_stop_exits_active}
use quantluna.Portfolio.Slots.{are_orderly, slots_counted, over_maximum}

abbrev config : Config Thousandths
config = record {
  drawdown = record {
    pair_soft_dd = 50;
    portfolio_soft_dd = 80;
    portfolio_hard_dd = 150;
    capital_usd = 10000;
    hwm_reset_on_manual_resume = true;
    equity_curve_maxlen = 1000;
    tiny = 0;
  };
  risk = record { max_exposure = 600; max_dd = 150; capital = 10000 };
  max_concurrent_pairs = 2;
}

-- A request for 200.
abbrev ask : ℕ → Request Thousandths
ask pair = record {
  pair_id = pair;
  corr_allowed = true;
  final_notional = λ deployed. 200;
  current_zscore = 2000;
  entry_beta = 1000;
}

abbrev two_entries : List (Call Thousandths)
two_entries = entry (ask 1) ∷ (entry (ask 2) ∷ [])

-- A pair with a profit, then most of it lost.
abbrev risen : List (Call Thousandths)
risen = entry (ask 1) ∷ (tick ((1, 4000) ∷ []) ∷ [])

abbrev fallen : List (Call Thousandths)
fallen = entry (ask 1) ∷ (tick ((1, 4000) ∷ []) ∷ (report ∷ (tick ((1, 500) ∷ []) ∷ [])))

entry_in_tables_example :
    let (after, decision) = request_entry config (ask 1) (new config) in
    (decision.allowed ≡ true)
    × (decision.notional_usd ≡ 200)
    × (lookup 1 after.active_pairs ≡ some 200)
    × (lookup 1 after.portfolio_risk.positions ≡ some (exposure_of config (ask 1) 200))
    × (lookup 1 after.dd.pair_states ≡ some (Drawdown.fresh_pair config.drawdown (new config).dd))
    × (after.n_pairs ≡ 1)
entry_in_tables_example = entry_in_tables config (ask 1) (new config) 1

exposure_within_example :
    let a = calls config two_entries (new config) in
    (notionals a.portfolio_risk.positions ≡ a.active_pairs)
    × (total_exposure a.portfolio_risk.positions ≤ 600)
    × (sum_notionals a.active_pairs ≤ 600)
exposure_within_example = exposure_within config two_entries

both_enter : (calls config two_entries (new config)).active_pairs ≡ (1, 200) ∷ ((2, 200) ∷ [])
unfolding calls call request_entry enter admit add_position Drawdown.open_pair
both_enter = refl

deep :
    thousandths_float.le 150
      (update_state config ((1, 500) ∷ []) (calls config risen (new config))).1.portfolio_dd_pct
    ≡ true
unfolding calls call request_entry enter admit add_position update_state Drawdown.open_pair
    Drawdown.update Drawdown.mark_pairs Drawdown.mark_pair Drawdown.conclude Drawdown.set_level
    Drawdown.portfolio_dd Drawdown.pair_dd
deep = refl

active : contains 1 (calls config risen (new config)).active_pairs ≡ true
unfolding calls call request_entry enter admit add_position update_state Drawdown.open_pair
active = refl

hard_stop_exits_active_example :
    let (after, snap) = update_state config ((1, 500) ∷ []) (calls config risen (new config)) in
    let later = calls config (exit 1 ∷ (tick [] ∷ [])) after in
    (has_key 1 snap.pairs_force_close ≡ true)
    × ((request_entry config (ask 2) later).0 ≡ later)
    × ((request_entry config (ask 2) later).1.allowed ≡ false)
hard_stop_exits_active_example =
    hard_stop_exits_active config risen (exit 1 ∷ (tick [] ∷ [])) ((1, 500) ∷ []) 1 (ask 2) deep
      active refl

lost :
    thousandths_float.le 150
      (portfolio_summary config (calls config fallen (new config))).1.drawdown
    ≡ true
unfolding calls call request_entry enter admit add_position update_state update_pnls update_pnl
    portfolio_summary summary check_drawdown Drawdown.open_pair
lost = refl

tripped_for_ever_example :
    let (after, seen) = portfolio_summary config (calls config fallen (new config)) in
    (request_entry config (ask 2) (calls config (exit 1 ∷ (resume ∷ [])) after)).1.allowed ≡ false
tripped_for_ever_example =
    tripped_for_ever config (calls config fallen (new config)) (exit 1 ∷ (resume ∷ [])) (ask 2) lost

orderly : are_orderly config two_entries (new config) ≡ true
unfolding call request_entry enter admit add_position Drawdown.open_pair
orderly = refl

slots_counted_example :
    let a = calls config two_entries (new config) in
    (a.n_pairs ≡ length a.active_pairs) × (length a.active_pairs ≤ 2)
slots_counted_example = slots_counted config two_entries orderly

full : length (calls config two_entries (new config)).active_pairs ≡ 2
unfolding calls call request_entry enter admit add_position Drawdown.open_pair
full = refl

ninth : contains 9 (calls config two_entries (new config)).active_pairs ≡ false
unfolding calls call request_entry enter admit add_position Drawdown.open_pair
ninth = refl

third : contains 3 (calls config two_entries (new config)).active_pairs ≡ false
unfolding calls call request_entry enter admit add_position Drawdown.open_pair
third = refl

admitted :
    (request_entry config
      (ask 3)
      (record_exit config 9 (calls config two_entries (new config)))).1.allowed
    ≡ true
unfolding calls call request_entry enter admit add_position record_exit remove_position
    Drawdown.open_pair Drawdown.close_pair
admitted = refl

over_maximum_example :
    length
      (request_entry config
        (ask 3)
        (record_exit config 9 (calls config two_entries (new config)))).0.active_pairs
    ≡ suc 2
over_maximum_example = over_maximum config two_entries 9 (ask 3) orderly full ninth third admitted
