-- ===== src/Trading/Sizes.antt =====
-- execution/bybit_live_runner.py: the size of the position after bars of the loop.
use quantluna.Prelude.{
  ◌≡◌, Bool, true, false, Option, none, some, List, [], ◌∷◌, arith, if◌then◌else◌,
}
use quantluna.Prelude.Float.{Float}
use quantluna.Orders.Account.{Held, Account, record_entry_long, record_entry_short, record_exit}
use quantluna.Trading.{
  Action, entry_long, entry_short, leave, Sent, Prices, World, Engine, Executor, two_orders,
  execute, close_y, close_x, perform, Seen, bar_turn, bar_turns,
}

module _ {ℓ} {W : Type ℓ} ⦃f : Float W⦄ (e : Executor W) where
  -- A position has the base quantity on both legs.
  abbrev pub IsSized : Option (Held W) → Type ℓ
  IsSized p = (pos : Held W) → p ≡ some pos → (pos.y_qty ≡ e.base_qty) × (pos.x_qty ≡ e.base_qty)

  two_orders-IsSized :
      (y x : Sent W) (change : Account W → Account W) (ok_y ok_x : Bool) (w : World W)
      → IsSized w.account.current_position
      → IsSized (change w.account).current_position
      → IsSized (two_orders y x change ok_y ok_x w).account.current_position
  unfolding two_orders
  two_orders-IsSized y x change false ok_x w v v' = v
  two_orders-IsSized y x change true false w v v' = v
  two_orders-IsSized y x change true true w v v' = v'

  if-IsSized :
      (b : Bool) (w w' : World W)
      → IsSized w.account.current_position
      → IsSized w'.account.current_position
      → IsSized (if b then w else w').account.current_position
  if-IsSized true w w' v v' = v
  if-IsSized false w w' v v' = v'

  closed-IsSized :
      (b : Prices W) (ok_y ok_x : Bool) (w : World W) (p : Option (Held W))
      → IsSized w.account.current_position
      → IsSized
          (elim p as (λ _. World W) [
            | none ↦ w
            | some pos ↦
                two_orders (close_y pos) (close_x pos) (record_exit b.price_y b.price_x) ok_y ok_x w
          ]).account.current_position
  unfolding record_exit
  closed-IsSized b ok_y ok_x w none v = v
  closed-IsSized b ok_y ok_x w (some pos) v =
      two_orders-IsSized _ _ _ ok_y ok_x w v (λ pos' h. absurd (grind (arith, h)))

  execute-IsSized :
      (b : Prices W) (ok_y ok_x : Bool) (action : Action) (w : World W)
      → IsSized w.account.current_position
      → IsSized (execute e b ok_y ok_x action w).account.current_position
  unfolding execute record_entry_long record_entry_short record_exit
  execute-IsSized b ok_y ok_x entry_long w v =
      if-IsSized e.dry_run w _ v
        (two_orders-IsSized _ _ _ ok_y ok_x w v (λ pos h. grind (arith, h)))
  execute-IsSized b ok_y ok_x entry_short w v =
      if-IsSized e.dry_run w _ v
        (two_orders-IsSized _ _ _ ok_y ok_x w v (λ pos h. grind (arith, h)))
  execute-IsSized b ok_y ok_x leave w v =
      if-IsSized e.dry_run w _ v (closed-IsSized b ok_y ok_x w w.account.current_position v)

  perform-IsSized :
      (b : Prices W) (ok_y ok_x : Bool) (action : Option Action) (w : World W)
      → IsSized w.account.current_position
      → IsSized (perform e b ok_y ok_x action w).account.current_position
  perform-IsSized b ok_y ok_x none w v = v
  perform-IsSized b ok_y ok_x (some action) w v = execute-IsSized b ok_y ok_x action w v

  -- Whatever the bars of the loop bring, however many entries they make and whichever orders are
  -- refused: a position that is kept has the size of one entry, if it had it before.
  pub bar_turns-IsSized :
      (engine : Engine W) (seen : List (Seen W)) (w : World W)
      → IsSized w.account.current_position
      → IsSized (bar_turns engine e seen w).account.current_position
  unfolding bar_turns bar_turn
  bar_turns-IsSized engine [] w v = v
  bar_turns-IsSized engine (s ∷ rest) w v =
      bar_turns-IsSized engine rest (bar_turn engine e s w)
        (perform-IsSized s.prices s.ok_y s.ok_x _ w v)
