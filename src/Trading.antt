-- ===== src/Trading.antt =====
-- execution/decision_engine.py, execution/action_executor.py, and what the loop of
-- execution/bybit_live_runner.py does with a bar.
pub mod Legs
pub mod Entries
pub mod Sizes
mod Tests
use quantluna.Prelude.{
  Bool, true, false, not, ◌&&◌, Option, none, some, List, [], ◌∷◌, ◌++◌, if◌then◌else◌,
}
use quantluna.Prelude.Float.{Float}
use quantluna.Orders.State.{Side, buy, sell}
use quantluna.Orders.Account.{
  Held, Account, long, short, absent, has_position, record_entry_long, record_entry_short,
  record_exit, is_long,
}
use quantluna.Signals.State.{
  Signal, exit, partial_exit, long_spread, short_spread, Numerics, Generator,
}
use quantluna.Signals.State
use quantluna.Signals.{Bar, generate_live}

-- `entry_long`, `entry_short` and `exit`
pub data Action : Type 0 where
  entry_long entry_short leave : Action

-- The symbols of the two legs.
pub data Symbol : Type 0 where
  sym_y sym_x : Symbol

-- An order that `create_order` has sent.
pub record Sent {ℓ} (W : Type ℓ) : Type ℓ where
  pub symbol : Symbol
  pub side : Side
  pub qty : W

-- What a bar has for the executor.
pub record Prices {ℓ} (W : Type ℓ) : Type ℓ where
  pub price_y : W
  pub price_x : W

-- The account of the order manager, and the orders that the exchange has accepted.
pub record World {ℓ} (W : Type ℓ) : Type ℓ where
  pub account : Account W
  pub accepted : List (Sent W)

-- `DecisionEngine`
pub record Engine {ℓ} (W : Type ℓ) : Type ℓ where
  pub entry_zscore : W
  pub exit_zscore : W
  pub enabled : Bool

-- `ActionExecutor`
pub record Executor {ℓ} (W : Type ℓ) : Type ℓ where
  pub base_qty : W
  pub dry_run : Bool

-- `guard_action.action` of `ProfitGuard`
pub data Guard : Type 0 where
  full_close partial_close no_close : Guard

-- `v4_action` of `_run_loop`: what the signal asks for, unless the profit guard closes.
abbrev pub v4_of_signal : Option Signal → Option Guard
v4_of_signal (some exit) = some full_close
v4_of_signal (some partial_exit) = some partial_close
v4_of_signal _ = none

abbrev pub v4_action : Option Signal → Guard → Option Guard
v4_action signal full_close = some full_close
v4_action signal partial_close = some partial_close
v4_action signal no_close = v4_of_signal signal

module _ {ℓ} {W : Type ℓ} ⦃f : Float W⦄ where
  -- `decide`: is the circuit open, and is there a position?
  unfoldable pub decide : Engine W → W → Bool → Bool → Option Action
  decide engine z circuit_open has =
      if not engine.enabled
      then none
      else if circuit_open
      then none
      else if f.le engine.entry_zscore (f.abs z)
      then some (if f.lt f.nought z then entry_short else entry_long)
      else if f.le (f.abs z) engine.exit_zscore && has
      then some leave
      else none

  abbrev pub order_of : Symbol → Side → W → Sent W
  order_of symbol side qty = record { symbol = symbol; side = side; qty = qty }

  -- Two orders and then a change of the account: an order that raises ends the action, and the orders
  -- before it have been accepted.
  unfoldable pub two_orders :
      Sent W → Sent W → (Account W → Account W) → Bool → Bool → World W → World W
  two_orders order_y order_x change ok_y ok_x w =
      if not ok_y
      then w
      else if not ok_x
      then record w { accepted = w.accepted ++ (order_y ∷ []) }
      else record {
        account = change w.account;
        accepted = (w.accepted ++ (order_y ∷ [])) ++ (order_x ∷ []);
      }

  abbrev pub hedge_qty : Executor W → Prices W → W
  hedge_qty e bar = f.div (f.mul e.base_qty bar.price_y) bar.price_x

  -- The orders of an exit.
  abbrev pub close_y : Held W → Sent W
  close_y pos = order_of sym_y (elim pos.y_side [ long ↦ sell | _ ↦ buy ]) (f.abs pos.y_qty)

  abbrev pub close_x : Held W → Sent W
  close_x pos = order_of sym_x (elim pos.x_side [ short ↦ buy | _ ↦ sell ]) (f.abs pos.x_qty)

  -- `execute`: do the two calls of `create_order` return?
  unfoldable pub execute : Executor W → Prices W → Bool → Bool → Action → World W → World W
  execute e bar ok_y ok_x entry_long w =
      if e.dry_run
      then w
      else two_orders (order_of sym_y buy e.base_qty) (order_of sym_x sell (hedge_qty e bar))
          (record_entry_long e.base_qty bar.price_y bar.price_x) ok_y ok_x w
  execute e bar ok_y ok_x entry_short w =
      if e.dry_run
      then w
      else two_orders (order_of sym_y sell e.base_qty) (order_of sym_x buy (hedge_qty e bar))
          (record_entry_short e.base_qty bar.price_y bar.price_x) ok_y ok_x w
  execute e bar ok_y ok_x leave w = if e.dry_run then w else elim w.account.current_position [
    | none ↦ w
    | some pos ↦
        two_orders (close_y pos) (close_x pos) (record_exit bar.price_y bar.price_x) ok_y ok_x w
  ]

  -- The action of a bar, in the code from `v4_action = None` on: the signal if there is one, what the
  -- profit guard says where there is a position, and whether `handle_partial_exit` raises.
  unfoldable pub action_of :
      Engine W → Option Signal → Guard → Bool → W → Bool → Bool → Option Action
  action_of engine signal guard raises z circuit_open has =
      elim (v4_action signal (if has then guard else no_close)) [
        | some full_close ↦ some leave
        | some partial_close ↦ if raises then some leave else none
        | _ ↦ decide engine z circuit_open has
      ]

  abbrev pub perform : Executor W → Prices W → Bool → Bool → Option Action → World W → World W
  perform e bar ok_y ok_x none w = w
  perform e bar ok_y ok_x (some action) w = execute e bar ok_y ok_x action w

-- What the loop has for the generator: whether its own filter is warm, whether `generate_live` raises
-- and what state that leaves, and what the engine says.
pub record Asked {ℓ} (W : Type ℓ) : Type ℓ where
  pub kalman_warm : Bool
  pub raises : Bool
  pub left : Generator W
  pub spread : W
  pub is_warm : Bool
  pub bar : Bar W

-- The generator is asked only if the filter is warm, and an exception is only logged.
unfoldable pub ask {ℓ} :
    {W : Type ℓ} ⦃f : Float W⦄ (num : Numerics W) (cfg : State.Config W)
    → Asked W
    → Generator W
    → Generator W × Option Signal
ask num cfg q g =
    if not q.kalman_warm
    then (g, none)
    else if q.raises
    then (q.left, none)
    else (let (after, v) = generate_live num cfg q.spread q.is_warm q.bar g in
        (after, some v.signal))

-- What one turn of `_run_loop` meets.
pub record Seen {ℓ} (W : Type ℓ) : Type ℓ where
  pub prices : Prices W
  pub zscore : W
  pub signal : Option Signal
  pub guard : Guard
  pub partial_raises : Bool
  pub circuit_open : Bool
  pub has_open : Bool
  pub ok_y : Bool
  pub ok_x : Bool

module _ {ℓ} {W : Type ℓ} ⦃f : Float W⦄ (engine : Engine W) (e : Executor W) where
  -- The decision and the execution of a bar.
  unfoldable pub bar_turn : Seen W → World W → World W
  bar_turn s w =
      perform e s.prices s.ok_y s.ok_x
        (action_of engine s.signal s.guard s.partial_raises s.zscore s.circuit_open
          (has_position w.account s.has_open))
        w

  unfoldable pub bar_turns : List (Seen W) → World W → World W
  bar_turns [] w = w
  bar_turns (s ∷ rest) w = bar_turns rest (bar_turn s w)
