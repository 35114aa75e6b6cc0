-- ===== src/Orders/Races.antt =====
-- execution/order_manager.py: two methods of an `OrderManager` that wait at the same time.
use quantluna.Prelude.{ℕ, ◌+◌, ◌<◌, ◌≡◌, Bool, true, none, some, ◌++◌, ◌∷◌, [], arith, get_elem?}
use quantluna.Prelude.Dict.{lookup}
use quantluna.Prelude.Float.{Float}
use quantluna.Orders.State.{
  submitted, filled, cancelled, timed_out, fill, close, Order, Manager, Config, market, limit,
  modify,
}
use quantluna.Orders.{
  Receipt, finish_submit, cancel, begin_cancel, check_one, give_up, status_at, execute, place,
}
use quantluna.Orders.Records.{get_elem?-modify}

-- An order whose `submit` waits for the router.
pub record IsInFlight {ℓ} {W : Type ℓ} (i : ℕ) (r : Order W) (m : Manager W) : Type ℓ where
  pub at : get_elem? m.records i ≡ some r
  pub key : lookup r.local_id m.orders ≡ some i
  pub sent : r.status ≡ submitted
  pub no_id : r.exchange_id ≡ none

module _ {ℓ} {W : Type ℓ} ⦃f : Float W⦄ where
  -- A market order that the sweep found open, and that is filled before the sweep comes to it, is
  -- marked as timed out when it is older than its limit: the callbacks are told of the fill and then
  -- of the end.
  pub filled_then_expired :
      (cfg : Config) (later now i : ℕ) (ok : Bool) (receipt : Receipt W) (r : Order W)
      (m : Manager W)
      → IsInFlight i r m
      → r.request.order_type ≡ market
      → r.submitted_at + cfg.market_timeout < now
      → let after = check_one cfg now i ok (finish_submit later i (some receipt) m) in
        (status_at i after ≡ some timed_out)
        × (after.told ≡ (m.told ++ (fill i ∷ [])) ++ (close i ∷ []))
  unfolding finish_submit check_one cancel begin_cancel give_up
  filled_then_expired cfg later now i ok receipt r m flight kind old = grind (
    arith,
    flight.at,
    flight.key,
    kind,
    get_elem?-modify i i (execute later receipt) m.records,
    get_elem?-modify i i (λ r. record r { status = timed_out })
        (modify i (execute later receipt) m.records),
  )

  -- An order that waits for its router is cancelled with no request to the exchange, which `cancel`
  -- reports as done. When the router has placed it after all, a market order is filled, with both
  -- callbacks told; a limit order stays cancelled here, with the id of the order that the exchange has.
  pub cancelled_in_flight :
      (later i : ℕ) (ok : Bool) (receipt : Receipt W) (r : Order W) (m : Manager W)
      → IsInFlight i r m
      → let (gone, result) = cancel r.local_id ok m in
        let after = finish_submit later i (some receipt) gone in
        (result ≡ true)
        × (status_at i gone ≡ some cancelled)
        × (status_at i after
            ≡ elim r.request.order_type [ market ↦ some filled | limit ↦ some cancelled ])
        × (elim (get_elem? after.records i) [ none ↦ none | some r' ↦ r'.exchange_id ]
            ≡ receipt.exchange_id)
  unfolding finish_submit cancel begin_cancel
  cancelled_in_flight later i ok receipt r m flight = grind (
    arith,
    flight.at,
    flight.key,
    flight.sent,
    flight.no_id,
    get_elem?-modify i i (λ r. record r { status = cancelled }) m.records,
    get_elem?-modify i i (execute later receipt)
        (modify i (λ r. record r { status = cancelled }) m.records),
    get_elem?-modify i i (place receipt)
        (modify i (λ r. record r { status = cancelled }) m.records),
  )
