-- ===== src/MarginGuard/Tests.antt =====
-- execution/margin_risk_guard.py: two symbols with critical ratios, in thousandths.
use quantluna.Prelude.{ℕ, ◌≤◌, ◌≡◌, true, List, [], ◌∷◌}
use quantluna.Prelude.Float.{Thousandths, thousandths_float}
use quantluna.MarginGuard.{Config, Guard, new, Reading, check_positions}
use quantluna.MarginGuard.Closing.{closes, closes_limited}

abbrev config : Config Thousandths
config = record {
  danger_threshold = 1500;
  critical_threshold = 1100;
  auto_close_on_critical = true;
  max_auto_closes = 3;
  cooldown = 60;
}

abbrev reading : ℕ → ℕ → ℕ → Reading Thousandths
reading time symbol ratio = record {
  now = time;
  later = time;
  ok = true;
  position = record { symbol = symbol; margin_ratio = ratio };
}

abbrev readings : List (Reading Thousandths)
readings =
    reading 100 1 1000 ∷ (reading 100 2 1050 ∷ (reading 130 1 1000 ∷ (reading 170 1 1000 ∷ [])))

closes_limited_example :
    let (after, acts) = check_positions config readings new in
    (after.auto_closes_count ≡ closes acts) × (closes acts ≤ 3)
closes_limited_example = closes_limited config readings

abbrev closed_once : Guard
closed_once = record { auto_closes_count = 1; last_action = (1, 100) ∷ []; alerted_symbols = [] }
