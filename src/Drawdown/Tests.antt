-- ===== src/Drawdown/Tests.antt =====
-- risk/drawdown_controller.py: two pairs, with numbers in thousandths.
use quantluna.Prelude.{◌≡◌, refl, true, false, [], ◌∷◌, inr}
use quantluna.Prelude.Float.{Thousandths, thousandths_float}
use quantluna.Drawdown.{
  Config, Controller, hard_stop, new, update, conclude, mark_pairs, mark_pair, set_level,
  portfolio_dd, pair_dd, manual_resume, can_open_new,
}
use quantluna.Drawdown.Halting.{
  calls, opens, updates, halted_until_resume, hard_stop_closes_all, has_key,
}

abbrev config : Config Thousandths
config = record {
  pair_soft_dd = 50;
  portfolio_soft_dd = 80;
  portfolio_hard_dd = 150;
  capital_usd = 10000;
  hwm_reset_on_manual_resume = true;
  equity_curve_maxlen = 1000;
  tiny = 0;
}

-- The portfolio was at 14,000, and two pairs have 1,000 of profit left.
abbrev before : Controller Thousandths
before = record (new config) { hwm = 14000; pair_states = [] }

stops : (update config ((1, 500) ∷ ((2, 500) ∷ [])) before).1.level ≡ hard_stop
unfolding update mark_pairs mark_pair conclude set_level portfolio_dd pair_dd
stops = refl

halted_until_resume_example :
    let final =
      calls config
        (updates ((1, 2000) ∷ []) ∷ (opens 3 ∷ []))
        (update config ((1, 500) ∷ ((2, 500) ∷ [])) before).0 in
    let (resumed, done) = manual_resume config final in
    (can_open_new final ≡ false) × (done ≡ true) × (can_open_new resumed ≡ true)
halted_until_resume_example =
    halted_until_resume config ((1, 500) ∷ ((2, 500) ∷ [])) before
      (updates ((1, 2000) ∷ []) ∷ (opens 3 ∷ [])) stops

deep :
    thousandths_float.le 150 (update config ((1, 500) ∷ ((2, 500) ∷ [])) before).1.portfolio_dd_pct
    ≡ true
unfolding update mark_pairs mark_pair conclude set_level portfolio_dd pair_dd
deep = refl

hard_stop_closes_all_example :
    let (after, snapshot) = update config ((1, 500) ∷ ((2, 500) ∷ [])) before in
    (snapshot.level ≡ hard_stop)
    × (can_open_new after ≡ false)
    × (has_key 2 snapshot.pairs_force_close ≡ true)
hard_stop_closes_all_example =
    hard_stop_closes_all config ((1, 500) ∷ ((2, 500) ∷ [])) before 2 deep (inr refl)
