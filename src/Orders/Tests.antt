-- ===== src/Orders/Tests.antt =====
-- execution/order_manager.py: a few orders, with numbers in thousandths.
use quantluna.Prelude.{
  ◌≡◌, ◌⊎◌, refl, true, false, none, some, List, [], ◌∷◌, ◌++◌, arith, get_elem?, ◌||◌,
}
use quantluna.Prelude.Float.{Thousandths, thousandths_float}
use quantluna.Orders.State.{
  Status, submitted, filled, cancelled, timed_out, buy, market, limit, Request, Order, Manager,
  Config, fill, close, Kind, modify, is_terminal,
}
use quantluna.Orders.{
  Receipt, submit, begin_submit, finish_submit, cancel, check_timeouts, check_one, register_router,
  status_at,
}
use quantluna.Orders.Records.{times_told, ◌⟶*◌}
use quantluna.Orders.Lifecycle.{due}
use quantluna.Orders.Runs.{
  Runs, idle, submits, checks, registers, new_manager, told_once, life_of_order,
}
use quantluna.Orders.Races.{IsInFlight, filled_then_expired, cancelled_in_flight}
use quantluna.Orders.Account.{
  Held, long, short, Change, adopts, exits, enters_long, new_account, changes, has_position,
  is_some, has_position_current,
}

abbrev config : Config
config = record { market_timeout = 30; limit_timeout = 120; dry_run = false }

abbrev request : Kind → Request Thousandths
request kind = record {
  symbol = 1;
  side = buy;
  qty = 500;
  venue = 7;
  order_type = kind;
  price = some 2000;
}

abbrev receipt : Receipt Thousandths
receipt = record { exchange_id = some 99; average = some 2001; filled = none }

abbrev ready : Manager Thousandths
ready = record { records = []; orders = []; venues = 7 ∷ []; told = [] }

-- A limit order is placed, and the sweep cancels it.
abbrev placed : Manager Thousandths
placed = submit config 10 11 5 (request limit) (some receipt) (register_router 7 new_manager)

abbrev swept : Manager Thousandths
swept = check_timeouts config 200 (λ i. false) placed

placed-Runs : Runs config new_manager placed
unfolding register_router
placed-Runs = registers 7 (submits 10 11 5 (request limit) (some receipt) refl idle)

swept-Runs : Runs config new_manager swept
unfolding register_router
swept-Runs =
    registers 7 (submits 10 11 5 (request limit) (some receipt) refl (checks 200 (λ i. false) idle))

told_once_example : times_told 0 swept.told ≡ due (status_at 0 swept)
told_once_example = told_once config swept swept-Runs 0

placed-submitted : status_at 0 placed ≡ some submitted
unfolding submit begin_submit finish_submit register_router modify
placed-submitted = refl

life_of_order_example :
    (t : Status) × (status_at 0 swept ≡ some t)
    × (submitted ⟶* t)
    × ((is_terminal submitted ≡ false) ⊎ (t ≡ submitted))
life_of_order_example =
    life_of_order config placed swept placed-Runs (checks 200 (λ i. false) idle) 0 submitted
      placed-submitted

-- An order that waits for its router.
abbrev waiting_order : Kind → Order Thousandths
waiting_order kind = record {
  local_id = 5;
  request = request kind;
  status = submitted;
  exchange_id = none;
  submitted_at = 10;
  filled_at = none;
  fill_price = none;
  fill_qty = 0;
}

abbrev waiting_manager : Kind → Manager Thousandths
waiting_manager kind = (begin_submit config 10 5 (request kind) ready).0

in_flight : IsInFlight 0 (waiting_order market) (waiting_manager market)
unfolding begin_submit modify
in_flight = record { at = refl; key = refl; sent = refl; no_id = refl }

filled_then_expired_example :
    let after =
      check_one config 60 0 true (finish_submit 50 0 (some receipt) (waiting_manager market)) in
    (status_at 0 after ≡ some timed_out)
    × (after.told ≡ ((waiting_manager market).told ++ (fill 0 ∷ [])) ++ (close 0 ∷ []))
filled_then_expired_example =
    filled_then_expired config 50 60 0 true receipt (waiting_order market) (waiting_manager market)
      in_flight refl (omega arith)

cancelled_in_flight_example :
    let (gone, result) = cancel 5 true (waiting_manager market) in
    let after = finish_submit 50 0 (some receipt) gone in
    (result ≡ true)
    × (status_at 0 gone ≡ some cancelled)
    × (status_at 0 after ≡ some filled)
    × (elim (get_elem? after.records 0) [ none ↦ none | some r ↦ r.exchange_id ] ≡ some 99)
cancelled_in_flight_example =
    cancelled_in_flight 50 0 true receipt (waiting_order market) (waiting_manager market) in_flight

abbrev held : Held Thousandths
held = record {
  y_side = long;
  x_side = short;
  y_qty = 10;
  x_qty = 150;
  y_entry = 65000;
  x_entry = 3400;
}

abbrev calls : List (Change Thousandths)
calls = adopts held ∷ (exits 66000 3300 ∷ (enters_long 10 66000 3300 ∷ []))

has_position_current_example :
    has_position (changes calls new_account) false
    ≡ (is_some (changes calls new_account).current_position || false)
has_position_current_example = has_position_current calls false
