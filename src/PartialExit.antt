-- ===== src/PartialExit.antt =====
-- execution/partial_exit_handler.py: `handle_partial_exit`, which closes a part of both legs of a pair.
-- Quantities are doubles of an abstract type; the answers of the exchange are arguments.
pub mod Accounts
mod Tests
use quantluna.Prelude.{
  ℕ, Bool, true, false, Option, none, some, List, [], ◌∷◌, ◌++◌, ◌&&◌, if◌then◌else◌,
}
use quantluna.Prelude.Float.{Float, max_of}

-- The words for a side, of an order or of a position.
pub data Side : Type 0 where
  buy sell long short other : Side

pub record Position {ℓ} (W : Type ℓ) : Type ℓ where
  pub sym_y : ℕ
  pub sym_x : ℕ
  pub qty_y : W
  pub qty_x : W
  pub side_y : Side
  pub side_x : Side

-- A signal: whether it is `PARTIAL_EXIT`, and `partial_close_pct`.
pub record TradeSignal {ℓ} (W : Type ℓ) : Type ℓ where
  pub is_partial_exit : Bool
  pub partial_close_pct : Option W

-- A reduce-only market order.
pub record Order {ℓ} (W : Type ℓ) : Type ℓ where
  pub symbol : ℕ
  pub side : Side
  pub amount : W

-- The checkpoint that the caller gives: `load` or `update_qty` raises, as with every checkpoint class of
-- the repository, none of which has `update_qty`; there is none; or the quantities that it keeps.
pub data Checkpoint {ℓ} (W : Type ℓ) : Type ℓ where
  broken : Checkpoint W
  missing : Checkpoint W
  kept : W → W → Checkpoint W

pub data Reason : Type 0 where
  not_partial_exit_signal order_failed partial_exit : Reason

pub record PartialExitResult {ℓ} (W : Type ℓ) : Type ℓ where
  pub executed : Bool
  pub qty_y_closed : W
  pub qty_x_closed : W
  pub close_pct : W
  pub reason : Reason
  pub order_y_id : Option ℕ
  pub order_x_id : Option ℕ

-- What is outside the call: the orders that the exchange accepted, in order, and the checkpoint.
pub record Outside {ℓ} (W : Type ℓ) : Type ℓ where
  pub orders : List (Order W)
  pub checkpoint : Checkpoint W

-- The numbers 0.50 and 1e-8 of the code.
pub record Literals {ℓ} (W : Type ℓ) : Type ℓ where
  pub half : W
  pub tiny : W

-- `'sell' if side_y in ('buy', 'long') else 'buy'`
abbrev pub close_side_y : Side → Side
close_side_y buy = sell
close_side_y long = sell
close_side_y _ = buy

-- `'buy' if side_x in ('sell', 'short') else 'sell'`
abbrev pub close_side_x : Side → Side
close_side_x sell = buy
close_side_x short = buy
close_side_x _ = sell

module _ {ℓ} {W : Type ℓ} ⦃f : Float W⦄ (literals : Literals W) where
  -- `signal.partial_close_pct or 0.50`
  abbrev pub close_pct : TradeSignal W → W
  close_pct signal = elim signal.partial_close_pct [
    | none ↦ literals.half
    | some pct ↦ if f.le pct f.nought && f.le f.nought pct then literals.half else pct
  ]

  -- One order, with the answer of the exchange: its id, or `none` if it raises. Too small an amount
  -- is not ordered. The result is `none` if it raised, and else the id, if there is one.
  unfoldable pub place : ℕ → Side → W → Option ℕ → Outside W → Outside W × Option (Option ℕ)
  place symbol side amount answer o =
      if f.lt literals.tiny amount
      then elim answer [
        | none ↦ (o, none)
        | some id ↦ (
          record o {
            orders = o.orders ++ (record { symbol = symbol; side = side; amount = amount } ∷ []);
          },
          some (some id),
        )
      ]
      else (o, some none)

  -- The update of the checkpoint; what it raises is only logged.
  unfoldable pub update_checkpoint : W → W → Outside W → Outside W
  update_checkpoint left_y left_x o = elim o.checkpoint [
    | broken ↦ o
    | missing ↦ o
    | kept _ _ ↦ record o { checkpoint = kept left_y left_x }
  ]

  abbrev pub not_executed : W → Reason → PartialExitResult W
  not_executed pct reason = record {
    executed = false;
    qty_y_closed = f.nought;
    qty_x_closed = f.nought;
    close_pct = pct;
    reason = reason;
    order_y_id = none;
    order_x_id = none;
  }

  abbrev pub qty_y_close : TradeSignal W → Position W → W
  qty_y_close signal p = f.mul p.qty_y (close_pct signal)

  abbrev pub qty_x_close : TradeSignal W → Position W → W
  qty_x_close signal p = f.mul p.qty_x (close_pct signal)

  -- The end of a call in which both orders went through.
  unfoldable pub conclude :
      TradeSignal W → Position W → Option ℕ → Option ℕ → Outside W → Outside W × PartialExitResult W
  conclude signal p y_id x_id o = (
    update_checkpoint (max_of f.nought (f.sub p.qty_y (qty_y_close signal p)))
        (max_of f.nought (f.sub p.qty_x (qty_x_close signal p))) o,
    record {
      executed = true;
      qty_y_closed = qty_y_close signal p;
      qty_x_closed = qty_x_close signal p;
      close_pct = close_pct signal;
      reason = partial_exit;
      order_y_id = y_id;
      order_x_id = x_id;
    },
  )

  unfoldable pub handle_partial_exit :
      TradeSignal W → Position W → Option ℕ → Option ℕ → Outside W → Outside W × PartialExitResult W
  handle_partial_exit signal p answer_y answer_x o =
      if signal.is_partial_exit
      then (let (after_y, y) =
            place p.sym_y (close_side_y p.side_y) (qty_y_close signal p) answer_y o in
          elim y [
            | none ↦ (after_y, not_executed (close_pct signal) order_failed)
            | some y_id ↦
                let (after_x, x) =
                  place p.sym_x (close_side_x p.side_x) (qty_x_close signal p) answer_x after_y in
                elim x [
                  | none ↦ (after_x, not_executed (close_pct signal) order_failed)
                  | some x_id ↦ conclude signal p y_id x_id after_x
                ]
          ])
      else (o, not_executed f.nought not_partial_exit_signal)
