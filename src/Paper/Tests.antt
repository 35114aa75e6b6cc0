-- ===== src/Paper/Tests.antt =====
-- execution/paper_engine.py: a position opened and closed, with numbers in thousandths and sums of money
-- in whole parts.
use quantluna.Prelude.{ℕ, ◌*◌, ◌/◌, ◌≡◌, refl, true, none, some, List, [], ◌∷◌}
use quantluna.Prelude.Int.{ℤ, pos, sub_ℕ, ◌+ℤ◌}
use quantluna.Prelude.Float.{Thousandths, thousandths_float}
use quantluna.Paper.{
  Side, buy, sell, market, limit, filled, Order, Engine, Rules, Draw, new, take_order,
  close_position,
}
use quantluna.Paper.Accounting.{Op, submits, closes, operates, fees}
use quantluna.Paper.Closings.{sum_pnl, AllCharged, equity_and_trades}
use quantluna.Paper.Saved.{positions_saved, order_charges_twice}

abbrev gain : Side → ℕ → ℕ → ℕ → ℤ
gain buy qty entry price = sub_ℕ (price * qty) (entry * qty)
gain sell qty entry price = sub_ℕ (entry * qty) (price * qty)

abbrev rules : Rules Thousandths
rules = record {
  initial_capital = pos 10000000;
  partial_threshold = 1000000;
  limit_tolerance = 5;
  round6 = λ x. x;
  round8 = λ x. x;
  gain = gain;
  taker_fee = λ price qty. pos (price * qty / 2000);
  maker_fee = λ price qty. pos (price * qty / 3000);
}

abbrev draw : Draw Thousandths
draw = record { slip_frac = 0; fraction = none }

abbrev ops : List (Op Thousandths)
ops =
    submits draw 1 buy market 20 5000 none
    ∷ (submits draw 1 sell market 20 6000 none
        ∷ (submits draw 2 sell limit 10 3000 (some 3001) ∷ (closes 2 2900 ∷ [])))

equity_and_trades_example :
    let e = operates rules ops (new rules true) in
    (e.equity +ℤ fees e.orders ≡ pos 10000000 +ℤ e.realised_pnl)
    × (e.realised_pnl ≡ sum_pnl e.trades)
    × AllCharged rules e.orders e.trades
equity_and_trades_example = equity_and_trades rules ops true

positions_saved_example : let e = operates rules ops (new rules true) in e.store ≡ some e.positions
positions_saved_example = positions_saved rules ops

abbrev held : Engine Thousandths
held = record (new rules true) {
  positions = (1, record { side = buy; qty = 20; entry_price = 5000 }) ∷ [];
}

abbrev sale : Order Thousandths
sale = record {
  symbol = 1;
  side = sell;
  order_type = market;
  qty = 20;
  price = none;
  filled_qty = 20;
  avg_fill_price = 6000;
  status = filled;
  commission = pos 60;
}

order_charges_twice_example :
    (take_order rules sale held).equity +ℤ pos 60 ≡ (close_position rules 1 6000 held).equity
order_charges_twice_example =
    order_charges_twice rules sale (record { side = buy; qty = 20; entry_price = 5000 }) held refl
      refl refl refl refl
