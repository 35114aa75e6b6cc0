-- ===== src/PartialExit/Accounts.antt =====
-- execution/partial_exit_handler.py: what the result says, beside what the exchange did.
use quantluna.Prelude.{
  ℕ, ◌≡◌, ◌⊎◌, true, false, Option, none, some, List, [], ◌∷◌, ◌++◌, arith, if◌then◌else◌,
}
use mathlib.Core.List.{append-nil}
use quantluna.Prelude.Float.{Float, max_of}
use quantluna.PartialExit.{
  Side, Position, TradeSignal, Order, Checkpoint, broken, missing, kept, Outside, Literals,
  close_side_y, close_side_x, place, update_checkpoint, qty_y_close, qty_x_close, conclude,
  handle_partial_exit,
}

module _ {ℓ} {W : Type ℓ} ⦃f : Float W⦄ (literals : Literals W) where
  -- The order of a leg, if its amount is not too small.
  abbrev pub leg_order : ℕ → Side → W → List (Order W)
  leg_order symbol side amount =
      if f.lt literals.tiny amount
      then record { symbol = symbol; side = side; amount = amount } ∷ []
      else []

  -- A checkpoint that keeps quantities, with new ones; any other stays.
  abbrev pub holding : W → W → Checkpoint W → Checkpoint W
  holding y x (kept _ _) = kept y x
  holding y x missing = missing
  holding y x broken = broken

  place-orders :
      (symbol : ℕ) (side : Side) (amount : W) (answer : Option ℕ) (o : Outside W)
      → let (after, id) = place literals symbol side amount answer o in
        (id ≡ none)
        ⊎ ((after.orders ≡ o.orders ++ leg_order symbol side amount)
            × (after.checkpoint ≡ o.checkpoint))
  unfolding place
  place-orders symbol side amount none o = grind (arith, append-nil)
  place-orders symbol side amount (some id) o = grind (arith, append-nil)

  -- A partial exit that reports success did what it reports: the exchange accepted the closing orders
  -- of both legs, of the amounts in the result, save one too small to order, and nothing else; and a
  -- checkpoint that was kept now holds what is left of the position, not below 0.
  pub executed_accounts :
      (signal : TradeSignal W) (p : Position W) (answer_y answer_x : Option ℕ) (o : Outside W)
      → let (after, result) = handle_partial_exit literals signal p answer_y answer_x o in
        result.executed ≡ true
        → (after.orders
            ≡ (o.orders ++ leg_order p.sym_y (close_side_y p.side_y) result.qty_y_closed)
              ++ leg_order p.sym_x (close_side_x p.side_x) result.qty_x_closed)
          × (after.checkpoint
              ≡ holding
                  (max_of f.nought (f.sub p.qty_y result.qty_y_closed))
                  (max_of f.nought (f.sub p.qty_x result.qty_x_closed))
                  o.checkpoint)
  unfolding handle_partial_exit conclude update_checkpoint
  executed_accounts signal p answer_y answer_x o e =
      let y_close = qty_y_close literals signal p in
      let x_close = qty_x_close literals signal p in
      let after_y = (place literals p.sym_y (close_side_y p.side_y) y_close answer_y o).0 in
      grind (
        arith,
        e,
        place-orders p.sym_y (close_side_y p.side_y) y_close answer_y o,
        place-orders p.sym_x (close_side_x p.side_x) x_close answer_x after_y,
      )

  -- A failure of the second order is reported as if nothing was closed: the exchange has accepted the
  -- order of the first leg, and yet the result says not executed with nothing closed and no id, and the
  -- checkpoint still holds the whole position.
  pub half_closed :
      (signal : TradeSignal W) (p : Position W) (id : ℕ) (o : Outside W)
      → signal.is_partial_exit ≡ true
      → f.lt literals.tiny (qty_y_close literals signal p) ≡ true
      → f.lt literals.tiny (qty_x_close literals signal p) ≡ true
      → let (after, result) = handle_partial_exit literals signal p (some id) none o in
        (after.orders
          ≡ o.orders
            ++ (record {
              symbol = p.sym_y;
              side = close_side_y p.side_y;
              amount = qty_y_close literals signal p;
            }
                ∷ []))
        × (((result.executed ≡ false) × (result.qty_y_closed ≡ f.nought))
            × ((result.order_y_id ≡ none) × (after.checkpoint ≡ o.checkpoint)))
  unfolding handle_partial_exit place
  half_closed signal p id o is_exit big_y big_x = grind arith
