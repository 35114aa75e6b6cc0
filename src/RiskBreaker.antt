-- ===== src/RiskBreaker.antt =====
-- risk/circuit_breaker.py: `RiskCircuitBreaker`, which stops new orders after losses, a drawdown or
-- errors. Money is a double of an abstract type; times are whole ticks.
pub mod Cooldown
mod Tests
use quantluna.Prelude.{
  ℕ, suc, ◌+◌, Bool, true, false, Option, none, some, List, [], ◌∷◌, leb, if◌then◌else◌,
}
use quantluna.Prelude.Float.{Float}

pub data BreakerState : Type 0 where
  closed opened half_open : BreakerState

pub record Config {ℓ} (W : Type ℓ) : Type ℓ where
  pub max_losses : ℕ
  pub max_dd : W
  pub max_errors : ℕ
  pub cooldown : ℕ

-- Why a breaker tripped.
pub data Reason : Type 0 where
  losses drawdown errors : Reason

-- `events` has the latest first.
pub record Breaker {ℓ} (W : Type ℓ) : Type ℓ where
  pub status : BreakerState
  pub consecutive_losses : ℕ
  pub error_count : ℕ
  pub open_at : Option ℕ
  pub events : List Reason
  pub last_reason : Option Reason
  pub peak_equity : W
  pub current_equity : W

abbrev pub is_open : BreakerState → Bool
is_open opened = true
is_open _ = false

module _ {ℓ} {W : Type ℓ} ⦃f : Float W⦄ where
  -- `__init__`
  abbrev pub new : Breaker W
  new = record {
    status = closed;
    consecutive_losses = 0;
    error_count = 0;
    open_at = none;
    events = [];
    last_reason = none;
    peak_equity = f.nought;
    current_equity = f.nought;
  }

  unfoldable pub trip : ℕ → Reason → Breaker W → Breaker W
  trip now reason b = if is_open b.status then b else record b {
    status = opened;
    open_at = some now;
    events = reason ∷ b.events;
    last_reason = some reason;
  }

  -- `_maybe_transition`, with `now - open_at >= cooldown`
  unfoldable pub maybe_transition : Config W → ℕ → Breaker W → Breaker W
  maybe_transition cfg now b = elim b.open_at [
    | none ↦ b
    | some at_time ↦
        if is_open b.status
        then if leb (at_time + cfg.cooldown) now then record b { status = half_open } else b
        else b
  ]

  -- `allow`
  unfoldable pub allow : Config W → ℕ → Breaker W → Breaker W × Bool
  allow cfg now b =
      let b' = maybe_transition cfg now b in
      (b', elim b'.status [ opened ↦ false | closed ↦ true | half_open ↦ true ])

  abbrev raise_peak : Breaker W → Breaker W
  raise_peak b =
      if f.lt b.peak_equity b.current_equity then record b { peak_equity = b.current_equity } else b

  unfoldable pub record_win : W → Breaker W → Breaker W
  record_win pnl b =
      raise_peak record b { consecutive_losses = 0; current_equity = f.add b.current_equity pnl }

  abbrev pub drawdown_of : Breaker W → W
  drawdown_of b = f.div (f.sub b.peak_equity b.current_equity) b.peak_equity

  unfoldable pub record_loss : Config W → ℕ → W → Breaker W → Breaker W
  record_loss cfg now pnl b =
      let b' = record b {
        current_equity = f.sub b.current_equity (f.abs pnl);
        consecutive_losses = suc b.consecutive_losses;
      } in
      if leb cfg.max_losses b'.consecutive_losses
      then trip now losses b'
      else if f.lt f.nought b'.peak_equity
      then if f.le cfg.max_dd (drawdown_of b') then trip now drawdown b' else b'
      else b'

  unfoldable pub record_error : Config W → ℕ → Breaker W → Breaker W
  record_error cfg now b =
      let b' = record b { error_count = suc b.error_count } in
      if leb cfg.max_errors b'.error_count then trip now errors b' else b'

  unfoldable pub reset : Breaker W → Breaker W
  reset b = record b {
    status = closed;
    consecutive_losses = 0;
    error_count = 0;
    open_at = none;
    last_reason = none;
  }

  unfoldable pub set_equity : W → Breaker W → Breaker W
  set_equity equity b = raise_peak record b { current_equity = equity }
