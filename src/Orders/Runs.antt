-- ===== src/Orders/Runs.antt =====
-- execution/order_manager.py: sequences of the operations of an `OrderManager`, one after the other.
use quantluna.Prelude.{
  ℕ, ◌≡◌, refl, ◌⊎◌, inl, inr, Bool, true, false, Option, none, some, [], ◌∷◌, ◌++◌, length, arith,
  get_elem?,
}
use mathlib.Core.Path.{subst}
use quantluna.Prelude.Dict.{lookup, insert, lookup-insert}
use quantluna.Prelude.Float.{Float}
use quantluna.Orders.State.{
  Status, submitted, failed, fill, Order, Manager, Config, Request, is_terminal, modify,
}
use quantluna.Orders.{
  Receipt, begin_submit, finish_submit, submit, cancel, check_timeouts, status_at, new_order,
  register_router, send, execute, place, fill_now, or_else,
}
use quantluna.Orders.Records.{
  get_elem?-modify, get_elem?-add, get_elem?-length, times_told, dry_run, no_router, go_out, refuse,
  come_back, ◌⟶*◌, here, next, ⟶*-terminal,
}
use quantluna.Orders.Lifecycle.{
  IsSound, IsStep, Evolves, unmade, along, Evolves-refl, due, IsStep-join, same-IsStep,
  finish-IsStep, end_as-IsStep, cancel-IsStep, modify-IsKeyed, modify-Evolves,
}
use quantluna.Orders.Timeouts.{check_timeouts-IsStep}

module _ {ℓ} {W : Type ℓ} ⦃f : Float W⦄ where
  -- A record is added, under an id that the dict does not have.
  abbrev added : ℕ → ℕ → Request W → Manager W → Manager W
  added now id req m = record m {
    records = m.records ++ (new_order now id req ∷ []);
    orders = insert id (length m.records) m.orders;
  }

  added-IsStep :
      (now id : ℕ) (req : Request W) (m : Manager W)
      → lookup id m.orders ≡ none
      → IsSound m
      → IsStep m (added now id req m)
  added-IsStep now id req m fresh (told, keyed) = (
    (
      λ i. grind (
        arith,
        told i,
        get_elem?-add (new_order now id req) i m.records,
        get_elem?-length m.records,
      ),
      λ i j e. grind (
        arith,
        keyed i j,
        get_elem?-add (new_order now id req) i m.records,
        lookup-insert j id (length m.records) m.orders,
      ),
    ),
    λ i. grind (
      arith,
      Evolves-refl (status_at i m),
      unmade,
      get_elem?-add (new_order now id req) i m.records,
      get_elem?-length m.records,
    ),
  )

  -- A change that does not end a record.
  modify-IsStep :
      (i : ℕ) (change : Order W → Order W) (m : Manager W) (old : Order W)
      → IsSound m
      → get_elem? m.records i ≡ some old
      → old.status ⟶* (change old).status
      → is_terminal old.status ≡ false
      → is_terminal (change old).status ≡ false
      → ((r : Order W) → (change r).local_id ≡ r.local_id)
      → IsStep m (record m { records = modify i change m.records })
  modify-IsStep i change m old (told, keyed) e way alive still same = (
    (
      λ j. grind (arith, told j, get_elem?-modify i j change m.records),
      modify-IsKeyed i change m keyed same,
    ),
    modify-Evolves i change m old e way,
  )

  finish_submit-IsStep :
      (now i : ℕ) (answer : Option (Receipt W)) (m : Manager W) (r : Order W)
      → IsSound m
      → get_elem? m.records i ≡ some r
      → r.status ≡ submitted
      → IsStep m (finish_submit now i answer m)
  unfolding finish_submit
  finish_submit-IsStep now i none m r v e s =
      end_as-IsStep failed i m r v e (rw s refuse) (rw s refl) refl
  finish_submit-IsStep now i (some receipt) m r v e s = grind (
    arith,
    e,
    finish-IsStep (fill i) i (execute now receipt) m r v e (next (rw s come_back) here) (rw s refl)
        refl (λ r. refl) (λ j. refl),
    modify-IsStep i (place receipt) m r v e here (rw s refl) (rw s refl) (λ r. refl),
  )

  pub submit-IsStep :
      (cfg : Config) (now later id : ℕ) (req : Request W) (answer : Option (Receipt W))
      (m : Manager W)
      → lookup id m.orders ≡ none
      → IsSound m
      → IsStep m (submit cfg now later id req answer m)
  unfolding submit begin_submit
  submit-IsStep cfg now later id req answer m fresh v =
      let m' = added now id req m in
      let i = length m.records in
      let first = added-IsStep now id req m fresh v in
      let r = new_order now id req in
      let e : get_elem? m'.records i ≡ some r = grind (arith, get_elem?-add r i m.records) in
      let sent = modify-IsStep i send m' r first.0 e (next go_out here) refl refl (λ r. refl) in
      let m'' = record m' { records = modify i send m'.records } in
      let e' : get_elem? m''.records i ≡ some (send r) =
        grind (arith, e, get_elem?-modify i i send m'.records) in
      IsStep-join m m' (submit cfg now later id req answer m) first (
        grind (
          arith,
          finish-IsStep (fill i) i (fill_now now (or_else req.price f.nought) req.qty) m' r first.0
              e (next dry_run here) refl refl (λ r. refl) (λ j. refl),
          end_as-IsStep failed i m' r first.0 e no_router refl refl,
          IsStep-join m' m'' (finish_submit later i answer m'') sent
              (finish_submit-IsStep later i answer m'' (send r) sent.0 e' refl),
        ))

-- Whole operations, one after the other. A local id is new where it is submitted.
pub data Runs {ℓ} {W : Type ℓ} ⦃f : Float W⦄ (cfg : Config) : Manager W → Manager W → Type ℓ where
  idle : {m : Manager W} → Runs cfg m m
  submits :
      {m m' : Manager W} (now later id : ℕ) (req : Request W) (answer : Option (Receipt W))
      → lookup id m.orders ≡ none
      → Runs cfg (submit cfg now later id req answer m) m'
      → Runs cfg m m'
  cancels : {m m' : Manager W} (id : ℕ) (ok : Bool) → Runs cfg (cancel id ok m).0 m' → Runs cfg m m'
  checks :
      {m m' : Manager W} (now : ℕ) (ok : ℕ → Bool)
      → Runs cfg (check_timeouts cfg now ok m) m'
      → Runs cfg m m'
  registers : {m m' : Manager W} (venue : ℕ) → Runs cfg (register_router venue m) m' → Runs cfg m m'

abbrev pub new_manager {ℓ} : {W : Type ℓ} → Manager W
new_manager = record { records = []; orders = []; venues = []; told = [] }

new_manager-IsSound {ℓ} : (W : Type ℓ) → IsSound {W = W} new_manager
unfolding times_told
new_manager-IsSound W = (λ i. refl, λ i id e. grind arith)

Evolves-some :
    (s : Status) (t : Option Status)
    → Evolves (some s) t
    → (t' : Status) × (t ≡ some t') × (s ⟶* t')
Evolves-some s none e = elim e [ ]
Evolves-some s (some t') (along way) = (t', refl, way)

terminal_cases :
    (s : Status) {t : Status} (b : Bool)
    → is_terminal s ≡ b
    → s ⟶* t
    → (is_terminal s ≡ false) ⊎ (t ≡ s)
terminal_cases s true e way = inr (⟶*-terminal e way)
terminal_cases s false e way = inl e

terminal_or : (s : Status) {t : Status} → s ⟶* t → (is_terminal s ≡ false) ⊎ (t ≡ s)
terminal_or s way = terminal_cases s (is_terminal s) refl way

module _ {ℓ} {W : Type ℓ} ⦃f : Float W⦄ (cfg : Config) where
  register_router-IsStep :
      (venue : ℕ) (m : Manager W) → IsSound m → IsStep m (register_router venue m)
  unfolding register_router
  register_router-IsStep venue m v = same-IsStep m v

  Runs-IsStep : {m m' : Manager W} → Runs cfg m m' → IsSound m → IsStep m m'
  Runs-IsStep {m} idle v = same-IsStep m v
  Runs-IsStep {m} {m'} (submits now later id req answer fresh runs) v =
      let step = submit-IsStep cfg now later id req answer m fresh v in
      IsStep-join m (submit cfg now later id req answer m) m' step (Runs-IsStep runs step.0)
  Runs-IsStep {m} {m'} (cancels id ok runs) v =
      let step = cancel-IsStep id ok m v in
      IsStep-join m (cancel id ok m).0 m' step (Runs-IsStep runs step.0)
  Runs-IsStep {m} {m'} (checks now ok runs) v =
      let step = check_timeouts-IsStep cfg now ok m v in
      IsStep-join m (check_timeouts cfg now ok m) m' step (Runs-IsStep runs step.0)
  Runs-IsStep {m} {m'} (registers venue runs) v =
      let step = register_router-IsStep venue m v in
      IsStep-join m (register_router venue m) m' step (Runs-IsStep runs step.0)

  -- After whole operations from a new manager, whatever the routers answered: the callbacks were told
  -- exactly once of each order that has ended, and never of another.
  pub told_once :
      (m : Manager W) → Runs cfg new_manager m → (i : ℕ) → times_told i m.told ≡ due (status_at i m)
  told_once m runs = (Runs-IsStep runs (new_manager-IsSound W)).0.0

  -- Of an order that a new manager has after some whole operations: after further ones the manager has
  -- it still, its status has gone along the edges of the life of an order, and if the order had
  -- ended, its status is the same.
  pub life_of_order :
      (m m' : Manager W)
      → Runs cfg new_manager m
      → Runs cfg m m'
      → (i : ℕ) (s : Status) → status_at i m ≡ some s
      → (t : Status) × (status_at i m' ≡ some t) × (s ⟶* t) × ((is_terminal s ≡ false) ⊎ (t ≡ s))
  life_of_order m m' before after i s e =
      let v = (Runs-IsStep before (new_manager-IsSound W)).0 in
      let (t, found, way) =
        Evolves-some s (status_at i m')
          (subst (λ x. Evolves x (status_at i m')) e ((Runs-IsStep after v).1 i)) in
      (t, found, way, terminal_or s way)
