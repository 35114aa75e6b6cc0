-- ===== src/Hedge.antt =====
-- execution/single_hedge_manager.py: `SingleHedgeManager`, which takes over a position found at boot,
-- trails its stop and closes it. Prices are doubles of an abstract type. The calls of the exchange are
-- a list, in order; the exchange's answers are arguments. The long leg and the short leg of a symbol are
-- apart, and a tick runs the long one first.
pub mod Leg
pub mod Trail
pub mod Orders
pub mod Closing
mod Tests
use quantluna.Prelude.{
  Bool, true, false, not, Option, none, some, List, [], ◌∷◌, ◌++◌, ◌&&◌, ◌||◌, if◌then◌else◌,
}
use quantluna.Prelude.Float.{Float, max_of, min_of}
use Leg.{
  Side, long, short, Config, LegState, Call, set_sl, tick_long, tick_short, initial_long,
  initial_short, adopt_long, adopt_short,
}

-- A leg of `SoloHedgeGroup`.
pub record GroupLeg {ℓ} (W : Type ℓ) : Type ℓ where
  pub qty : W
  pub entry_price : W
  pub mark_price : W

pub record Manager {ℓ} (W : Type ℓ) : Type ℓ where
  pub long_state : Option (LegState W)
  pub short_state : Option (LegState W)
  pub calls : List (Call W)

-- A row of `get_open_positions`; `none` is a value that `float` does not take, and side `none` any
-- other side.
pub record Position {ℓ} (W : Type ℓ) : Type ℓ where
  pub side : Option Side
  pub size : Option W
  pub entry : Option W
  pub upnl : Option W

-- What one way to ask for the price gives: the router lacks the method, it raises, or a number
-- (0 where the answer has none).
pub data Source {ℓ} (W : Type ℓ) : Type ℓ where
  absent : Source W
  raised : Source W
  quoted : W → Source W

pub record Sources {ℓ} (W : Type ℓ) : Type ℓ where
  pub mark_price : Source W
  pub tickers : Source W
  pub positions : Source W

-- One round of the loop: whether `stop` was called before it, what the price sources give, and
-- whether an order for the long or the short leg would be accepted.
pub record Poll {ℓ} (W : Type ℓ) : Type ℓ where
  pub stopped : Bool
  pub sources : Sources W
  pub takes_long : Bool
  pub takes_short : Bool

module _ {ℓ} {W : Type ℓ} ⦃f : Float W⦄ where
  -- `mark_price or entry_price`
  abbrev mark_or_entry : GroupLeg W → W
  mark_or_entry g =
      if f.le g.mark_price f.nought && f.le f.nought g.mark_price
      then g.entry_price
      else g.mark_price

  -- `__init__`
  unfoldable pub start : Option (GroupLeg W) → Option (GroupLeg W) → Manager W
  start long_leg short_leg = record {
    long_state = elim long_leg [
      | none ↦ none
      | some g ↦ some (adopt_long g.qty g.entry_price (mark_or_entry g))
    ];
    short_state = elim short_leg [
      | none ↦ none
      | some g ↦ some (adopt_short g.qty g.entry_price (mark_or_entry g))
    ];
    calls = [];
  }

  -- What `_verify_positions` does for a row whose numbers were read.
  unfoldable pub verify_position : Option Side → W → Manager W → Manager W
  verify_position (some long) entry m = elim m.long_state [
    | none ↦ m
    | some leg ↦ record m {
      long_state =
          some record leg { current_price = entry; trailing_high = max_of leg.trailing_high entry };
    }
  ]
  verify_position (some short) entry m = elim m.short_state [
    | none ↦ m
    | some leg ↦ record m {
      short_state =
          some record leg { current_price = entry; trailing_low = min_of leg.trailing_low entry };
    }
  ]
  verify_position none entry m = m

  unfoldable pub all_read : Position W → Option W
  all_read p = elim p.size [
    | none ↦ none
    | some _ ↦ elim p.entry [
      | none ↦ none
      | some entry ↦ elim p.upnl [ none ↦ none | some _ ↦ some entry ]
    ]
  ]

  -- `_verify_positions`: a number that is not read raises, and the rows after it are not looked at.
  unfoldable pub verify_positions : List (Position W) → Manager W → Manager W
  verify_positions [] m = m
  verify_positions (p ∷ ps) m = elim (all_read p) [
    | none ↦ m
    | some entry ↦ verify_positions ps (verify_position p.side entry m)
  ]

  -- A step of a leg, on the manager.
  abbrev on_long : (LegState W → LegState W × List (Call W)) → Manager W → Manager W
  on_long step m = elim m.long_state [
    | none ↦ m
    | some leg ↦
        let (leg', made) = step leg in record m { long_state = some leg'; calls = m.calls ++ made }
  ]

  abbrev on_short : (LegState W → LegState W × List (Call W)) → Manager W → Manager W
  on_short step m = elim m.short_state [
    | none ↦ m
    | some leg ↦
        let (leg', made) = step leg in record m { short_state = some leg'; calls = m.calls ++ made }
  ]

  -- `_apply_initial_sl_tp`
  unfoldable pub apply_initial_sl_tp : Config W → Manager W → Manager W
  apply_initial_sl_tp cfg m = on_short (initial_short cfg) (on_long (initial_long cfg) m)

  -- `_on_price_tick`
  unfoldable pub on_price_tick : Config W → Bool → Bool → W → Manager W → Manager W
  on_price_tick cfg takes_long takes_short price m =
      on_short (tick_short cfg takes_short price) (on_long (tick_long cfg takes_long price) m)

  -- `_fetch_mark_price`: the first price above 0; a source that raises ends the search.
  unfoldable pub first_price : Source W → Option W → Option W
  first_price absent next = next
  first_price raised next = none
  first_price (quoted price) next = if f.lt f.nought price then some price else next

  unfoldable pub fetch_mark_price : Sources W → Option W
  fetch_mark_price s =
      first_price s.mark_price (first_price s.tickers (first_price s.positions none))

  abbrev is_active : Option (LegState W) → Bool
  is_active none = false
  is_active (some leg) = leg.active

  -- `_has_active_legs`
  unfoldable pub has_active_legs : Manager W → Bool
  has_active_legs m = is_active m.long_state || is_active m.short_state

  -- The body of the loop in `manage`.
  unfoldable pub poll : Config W → Poll W → Manager W → Manager W
  poll cfg p m = elim (fetch_mark_price p.sources) [
    | none ↦ m
    | some price ↦ on_price_tick cfg p.takes_long p.takes_short price m
  ]

  -- The loop over the rounds to come, and whether it has ended.
  unfoldable pub poll_loop : Config W → List (Poll W) → Manager W → Manager W × Bool
  poll_loop cfg [] m = (m, not (has_active_legs m))
  poll_loop cfg (p ∷ ps) m =
      let rest = poll_loop cfg ps (poll cfg p m) in
      if not p.stopped && has_active_legs m then rest else (m, true)

  unfoldable pub manage :
      Config W → List (Position W) → List (Poll W) → Manager W → Manager W × Bool
  manage cfg positions polls m =
      let m1 = verify_positions positions m in
      poll_loop cfg polls (if cfg.apply_initial_sl_tp then apply_initial_sl_tp cfg m1 else m1)
