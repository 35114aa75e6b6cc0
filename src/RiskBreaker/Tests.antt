-- ===== src/RiskBreaker/Tests.antt =====
-- risk/circuit_breaker.py: runs of the model, and each theorem at an input.
use quantluna.Prelude.{◌≡◌, ◌≢◌, ◌↔◌, ◌⊎◌, ◌≤◌, ◌+◌, refl, true, List, [], ◌∷◌, arith, ℕ}
use quantluna.Prelude.Float.{Thousandths, thousandths_float}
use quantluna.RiskBreaker
use quantluna.RiskBreaker.{Config, Breaker, opened, closed, allow, record_loss, drawdown_of, trip}
use quantluna.RiskBreaker.Cooldown.{
  Report, win, question, equity, reports, reports-allow, record_loss-opens, reports-not-closed,
}

abbrev cfg : Config Thousandths
cfg = record { max_losses = 3; max_dd = 50; max_errors = 5; cooldown = 300 }

-- A peak of 1000, and a loss of 60 of it, which is more than 5 %.
abbrev rich : Breaker Thousandths
rich = record (RiskBreaker.new {W = Thousandths}) {
  peak_equity = 1000000;
  current_equity = 1000000;
}

abbrev tripped : Breaker Thousandths
tripped = record_loss cfg 40 60000 rich

is_tripped : tripped.status ≡ opened
unfolding record_loss trip
is_tripped = refl

abbrev later : List (ℕ × Report Thousandths)
later = (50, win 90000) ∷ (200, question) ∷ (339, equity 2000000) ∷ []

reports-allow_example : ((allow cfg 340 (reports cfg later tripped)).1 ≡ true) ↔ (40 + 300 ≤ 340)
unfolding record_loss trip
reports-allow_example =
    reports-allow cfg 40 340 later tripped refl refl (omega arith, (omega arith, (omega arith, tt)))

record_loss-opens_example : (tripped.status ≡ opened) ↔ (
    (3 ≤ 1)
    ⊎ ((thousandths_float.lt 0 1000000 ≡ true)
        × (thousandths_float.le 50 (drawdown_of tripped) ≡ true)))
record_loss-opens_example = record_loss-opens cfg 40 60000 rich (ground arith)

reports-not-closed_example : (reports cfg later tripped).status ≢ closed
unfolding record_loss trip
reports-not-closed_example = reports-not-closed cfg later tripped (ground arith)
