-- ===== src/PartialExit/Tests.antt =====
-- execution/partial_exit_handler.py: runs of the model, and each theorem at an input.
use quantluna.Prelude.{◌≡◌, refl, true, false, none, some, [], ◌∷◌, ◌++◌, ◌-◌}
use quantluna.Prelude.Float.{max_of, Thousandths, thousandths_float}
use quantluna.PartialExit.{
  Position, TradeSignal, Outside, Literals, buy, sell, kept, handle_partial_exit, place, conclude,
}
use quantluna.PartialExit.Accounts.{executed_accounts, leg_order, holding, half_closed}

abbrev literals : Literals Thousandths
literals = record { half = 500; tiny = 0 }

abbrev signal : TradeSignal Thousandths
signal = record { is_partial_exit = true; partial_close_pct = some 250 }

abbrev position : Position Thousandths
position = record { sym_y = 1; sym_x = 2; qty_y = 8000; qty_x = 4000; side_y = buy; side_x = sell }

abbrev before : Outside Thousandths
before = record { orders = []; checkpoint = kept 8000 4000 }

executed_accounts_example :
    let (after, result) = handle_partial_exit literals signal position (some 91) (some 92) before in
    (after.orders
      ≡ ([] ++ leg_order literals 1 sell result.qty_y_closed)
        ++ leg_order literals 2 buy result.qty_x_closed)
    × (after.checkpoint
        ≡ holding literals
            (max_of 0 (8000 - result.qty_y_closed))
            (max_of 0 (4000 - result.qty_x_closed))
            (kept 8000 4000))
unfolding handle_partial_exit place conclude
executed_accounts_example =
    executed_accounts literals signal position (some 91) (some 92) before refl

half_closed_example :
    let (after, result) = handle_partial_exit literals signal position (some 91) none before in
    (after.orders ≡ [] ++ (record { symbol = 1; side = sell; amount = 2000 } ∷ []))
    × (((result.executed ≡ false) × (result.qty_y_closed ≡ 0))
        × ((result.order_y_id ≡ none) × (after.checkpoint ≡ kept 8000 4000)))
half_closed_example = half_closed literals signal position 91 before refl refl refl
