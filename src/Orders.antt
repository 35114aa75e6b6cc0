-- ===== src/Orders.antt =====
-- execution/order_manager.py: `OrderManager`, the life of an order from `submit` to its end. A method
-- that waits for a router is two functions, one for each side of the wait.
pub mod State
pub mod Records
pub mod Lifecycle
pub mod Timeouts
pub mod Runs
pub mod Races
pub mod Account
mod Tests
use quantluna.Prelude.{
  ℕ, zero, suc, ◌+◌, Bool, true, false, not, Option, none, some, List, [], ◌∷◌, ◌++◌, ◌==◌, ltb,
  length, get_elem?, if◌then◌else◌,
}
use quantluna.Prelude.Dict.{Dict, lookup, insert}
use quantluna.Prelude.Float.{Float}
use State.{
  Status, pending, submitted, filled, partially, cancelled, failed, timed_out, Side, Kind, market,
  limit, Request, Order, Config, Notice, fill, close, Manager, is_open, modify,
}

-- What a router answers when it has placed an order: the id, the first of `average` and `price` that is
-- not 0 or missing, and the quantity filled.
pub record Receipt {ℓ} (W : Type ℓ) : Type ℓ where
  pub exchange_id : Option ℕ
  pub average : Option W
  pub filled : Option W

-- Where a method goes on: it has returned, or it waits for the router.
pub data Next : Type 0 where
  returned : Bool → Next
  waiting : ℕ → Next

abbrev pub or_else {ℓ} : {A : Type ℓ} → Option A → A → A
or_else (some x) y = x
or_else none y = y

abbrev pub is_member : ℕ → List ℕ → Bool
is_member x [] = false
is_member x (y ∷ ys) = let rest = is_member x ys in if x == y then true else rest

abbrev pub timeout_of : Config → Kind → ℕ
timeout_of cfg market = cfg.market_timeout
timeout_of cfg limit = cfg.limit_timeout

module _ {ℓ} {W : Type ℓ} where
  -- A terminal status, and the callbacks that are told of it.
  abbrev pub finish : Notice → ℕ → (Order W → Order W) → Manager W → Manager W
  finish notice i change m = record m {
    records = modify i change m.records;
    told = m.told ++ (notice ∷ []);
  }

  abbrev pub end_as : Status → ℕ → Manager W → Manager W
  end_as status i m = finish (close i) i (λ r. record r { status = status }) m

  -- `register_router`
  unfoldable pub register_router : ℕ → Manager W → Manager W
  register_router venue m = record m { venues = venue ∷ m.venues }

module _ {ℓ} {W : Type ℓ} ⦃f : Float W⦄ where
  abbrev pub new_order : ℕ → ℕ → Request W → Order W
  new_order now id req = record {
    local_id = id;
    request = req;
    status = pending;
    exchange_id = none;
    submitted_at = now;
    filled_at = none;
    fill_price = none;
    fill_qty = f.nought;
  }

  abbrev pub fill_now : ℕ → W → W → Order W → Order W
  fill_now now price qty r = record r {
    status = filled;
    filled_at = some now;
    fill_price = some price;
    fill_qty = qty;
  }

  abbrev pub send : Order W → Order W
  send r = record r { status = submitted }

  -- `submit` up to its wait, with the local id.
  unfoldable pub begin_submit : Config → ℕ → ℕ → Request W → Manager W → Manager W × Next
  begin_submit cfg now id req m =
      let i = length m.records in
      let added = record m {
        records = m.records ++ (new_order now id req ∷ []);
        orders = insert id i m.orders;
      } in
      if cfg.dry_run
      then (
        finish (fill i) i (fill_now now (or_else req.price f.nought) req.qty) added,
        returned true,
      )
      else if not (is_member req.venue m.venues)
      then (end_as failed i added, returned true)
      else (record added { records = modify i send added.records }, waiting i)

  -- The id of the exchange, and for a market order the fill.
  abbrev pub place : Receipt W → Order W → Order W
  place receipt r = record r { exchange_id = receipt.exchange_id }

  abbrev pub execute : ℕ → Receipt W → Order W → Order W
  execute now receipt r = place receipt (
      fill_now now (or_else receipt.average (or_else r.request.price f.nought))
        (or_else receipt.filled r.request.qty) r)

  -- The rest of `submit` for a record: the router has answered, or raised.
  unfoldable pub finish_submit : ℕ → ℕ → Option (Receipt W) → Manager W → Manager W
  finish_submit now i none m = end_as failed i m
  finish_submit now i (some receipt) m = elim (get_elem? m.records i) [
    | none ↦ m
    | some order ↦ elim order.request.order_type [
      | market ↦ finish (fill i) i (execute now receipt) m
      | limit ↦ record m { records = modify i (place receipt) m.records }
    ]
  ]

  abbrev pub resume_submit : ℕ → Option (Receipt W) → Manager W × Next → Manager W
  resume_submit now answer (m, returned _) = m
  resume_submit now answer (m, waiting i) = finish_submit now i answer m

  -- `submit` with nothing in between.
  unfoldable pub submit :
      Config → ℕ → ℕ → ℕ → Request W → Option (Receipt W) → Manager W → Manager W
  submit cfg now later id req answer m = resume_submit later answer (begin_submit cfg now id req m)

  -- `submit_pair`: both legs start, and either may have its answer first.
  unfoldable pub submit_pair :
      Config
      → ℕ
      → ℕ
      → Bool
      → ℕ × Request W × Option (Receipt W)
      → ℕ × Request W × Option (Receipt W)
      → Manager W
      → Manager W
  submit_pair cfg now later y_first (id_y, req_y, answer_y) (id_x, req_x, answer_x) m =
      let (m_y, next_y) = begin_submit cfg now id_y req_y m in
      let (m_x, next_x) = begin_submit cfg now id_x req_x m_y in
      if y_first
      then resume_submit later answer_x (resume_submit later answer_y (m_x, next_y), next_x)
      else resume_submit later answer_y (resume_submit later answer_x (m_x, next_x), next_y)

module _ {ℓ} {W : Type ℓ} where
  -- `cancel` up to its wait: a record without an id of the exchange, or without a router, is cancelled
  -- at once.
  unfoldable pub begin_cancel : ℕ → Manager W → Manager W × Next
  begin_cancel id m = elim (lookup id m.orders) [
    | none ↦ (m, returned false)
    | some i ↦ elim (get_elem? m.records i) [
      | none ↦ (m, returned false)
      | some order ↦
          if not (is_open order.status) then (m, returned false) else elim order.exchange_id [
            | none ↦ (end_as cancelled i m, returned true)
            | some _ ↦
                if is_member order.request.venue m.venues
                then (m, waiting i)
                else (end_as cancelled i m, returned true)
          ]
    ]
  ]

  -- The rest of `cancel`: `cancel_order` of the router has returned, or raised.
  unfoldable pub finish_cancel : ℕ → Bool → Manager W → Manager W × Bool
  finish_cancel i ok m = if ok then (end_as cancelled i m, true) else (m, false)

  abbrev pub resume_cancel : Bool → Manager W × Next → Manager W × Bool
  resume_cancel ok (m, returned result) = (m, result)
  resume_cancel ok (m, waiting i) = finish_cancel i ok m

  unfoldable pub cancel : ℕ → Bool → Manager W → Manager W × Bool
  cancel id ok m = resume_cancel ok (begin_cancel id m)

  -- `_check_timeouts`: the snapshot of the open orders, here by number,
  unfoldable pub stale_from : ℕ → List (Order W) → List ℕ
  stale_from i [] = []
  stale_from i (order ∷ rest) =
      let later = stale_from (suc i) rest in if is_open order.status then i ∷ later else later

  unfoldable pub give_up : ℕ → Manager W × Bool → Manager W
  give_up i (m, was_cancelled) = if was_cancelled then m else end_as timed_out i m

  -- and one turn of its loop.
  unfoldable pub check_one : Config → ℕ → ℕ → Bool → Manager W → Manager W
  check_one cfg now i ok m = elim (get_elem? m.records i) [
    | none ↦ m
    | some order ↦
        if ltb (order.submitted_at + timeout_of cfg order.request.order_type) now
        then give_up i (cancel order.local_id ok m)
        else m
  ]

  -- The loop with nothing in between, and the answer of the router for each record.
  unfoldable pub check_each : Config → ℕ → (ℕ → Bool) → List ℕ → Manager W → Manager W
  check_each cfg now ok [] m = m
  check_each cfg now ok (i ∷ is) m = check_each cfg now ok is (check_one cfg now i (ok i) m)

  unfoldable pub check_timeouts : Config → ℕ → (ℕ → Bool) → Manager W → Manager W
  check_timeouts cfg now ok m = check_each cfg now ok (stale_from 0 m.records) m

  -- `open_orders`, by number, and `get_status`
  abbrev pub open_orders : Manager W → List ℕ
  open_orders m = stale_from 0 m.records

  abbrev pub status_at : ℕ → Manager W → Option Status
  status_at i m = elim (get_elem? m.records i) [ none ↦ none | some r ↦ some r.status ]

  unfoldable pub get_status : ℕ → Manager W → Option Status
  get_status id m = elim (lookup id m.orders) [ none ↦ none | some i ↦ status_at i m ]
