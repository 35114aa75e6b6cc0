-- ===== src/Orders/Lifecycle.antt =====
-- execution/order_manager.py: the life of each order where no two methods wait at the same time.
use quantluna.Prelude.{
  ℕ, ◌≡◌, refl, sym, ap, ◌∙◌, Bool, true, false, Option, none, some, List, ◌==◌, arith, get_elem?,
  if◌then◌else◌,
}
use quantluna.Prelude.Dict.{lookup}
use quantluna.Orders.State.{
  Status, cancelled, timed_out, Notice, close, Order, Manager, is_terminal, is_open, modify,
}
use quantluna.Orders.{cancel, begin_cancel, finish_cancel, status_at, finish, end_as}
use quantluna.Orders.Records.{
  get_elem?-modify, mapped, times_told, times_told-add, is_about, ◌⟶◌, withdraw, expire, ◌⟶*◌, here,
  next, ⟶*-join, is_open-not-terminal,
}

-- A finished order was told of once, any other not at all.
abbrev pub due : Option Status → ℕ
due none = 0
due (some s) = if is_terminal s then 1 else 0

abbrev pub key_of {ℓ} : {W : Type ℓ} → Option (Order W) → Option ℕ
key_of none = none
key_of (some r) = some r.local_id

pub data Evolves : Option Status → Option Status → Type 0 where
  unmade : {t : Option Status} → Evolves none t
  along : {s t : Status} → s ⟶* t → Evolves (some s) (some t)

pub Evolves-refl : (s : Option Status) → Evolves s s
Evolves-refl none = unmade
Evolves-refl (some s) = along here

Evolves-join : {s t u : Option Status} → Evolves s t → Evolves t u → Evolves s u
Evolves-join unmade w = unmade
Evolves-join (along v) (along w) = along (⟶*-join v w)

module _ {ℓ} {W : Type ℓ} where
  abbrev pub IsTold : Manager W → Type 0
  IsTold m = (i : ℕ) → times_told i m.told ≡ due (status_at i m)

  -- The dict has the record of every local id.
  abbrev pub IsKeyed : Manager W → Type 0
  IsKeyed m = (i id : ℕ) → key_of (get_elem? m.records i) ≡ some id → lookup id m.orders ≡ some i

  abbrev pub IsSound : Manager W → Type 0
  IsSound m = IsTold m × IsKeyed m

  abbrev pub IsStep : Manager W → Manager W → Type 0
  IsStep m m' = IsSound m' × ((i : ℕ) → Evolves (status_at i m) (status_at i m'))

  finish-IsTold :
      (n : Notice) (i : ℕ) (change : Order W → Order W) (m : Manager W) (old : Order W)
      → IsTold m
      → get_elem? m.records i ≡ some old
      → is_terminal old.status ≡ false
      → is_terminal (change old).status ≡ true
      → ((j : ℕ) → is_about j n ≡ (i == j))
      → IsTold (finish n i change m)
  finish-IsTold n i change m old v e alive dead about j =
      grind (arith, get_elem?-modify i j change m.records, times_told-add j m.told n, about j, v j)

  key_of-mapped :
      (change : Order W → Order W) (r : Option (Order W))
      → ((r : Order W) → (change r).local_id ≡ r.local_id)
      → key_of (mapped change r) ≡ key_of r
  key_of-mapped change none same = refl
  key_of-mapped change (some r) same = ap some (same r)

  pub key_of-modify :
      (i j : ℕ) (change : Order W → Order W) (xs : List (Order W))
      → ((r : Order W) → (change r).local_id ≡ r.local_id)
      → key_of (get_elem? (modify i change xs) j) ≡ key_of (get_elem? xs j)
  key_of-modify i j change xs same =
      grind (arith, get_elem?-modify i j change xs, key_of-mapped change (get_elem? xs j) same)

  pub modify-IsKeyed :
      (i : ℕ) (change : Order W → Order W) (m : Manager W)
      → IsKeyed m
      → ((r : Order W) → (change r).local_id ≡ r.local_id)
      → IsKeyed (record m { records = modify i change m.records })
  modify-IsKeyed i change m v same j id e =
      v j id (sym (key_of-modify i j change m.records same) ∙ e)

  pub modify-Evolves :
      (i : ℕ) (change : Order W → Order W) (m : Manager W) (old : Order W)
      → get_elem? m.records i ≡ some old
      → old.status ⟶* (change old).status
      → (j : ℕ)
      → Evolves (status_at j m) (status_at j (record m { records = modify i change m.records }))
  modify-Evolves i change m old e way j =
      grind (arith, get_elem?-modify i j change m.records, Evolves-refl (status_at j m), along way)

  -- A record comes to its end.
  pub finish-IsStep :
      (n : Notice) (i : ℕ) (change : Order W → Order W) (m : Manager W) (old : Order W)
      → IsSound m
      → get_elem? m.records i ≡ some old
      → old.status ⟶* (change old).status
      → is_terminal old.status ≡ false
      → is_terminal (change old).status ≡ true
      → ((r : Order W) → (change r).local_id ≡ r.local_id)
      → ((j : ℕ) → is_about j n ≡ (i == j))
      → IsStep m (finish n i change m)
  finish-IsStep n i change m old (told, keyed) e way alive dead same about = (
    (finish-IsTold n i change m old told e alive dead about, modify-IsKeyed i change m keyed same),
    modify-Evolves i change m old e way,
  )

  pub same-IsStep : (m : Manager W) → IsSound m → IsStep m m
  same-IsStep m v = (v, λ i. Evolves-refl (status_at i m))

  pub end_as-IsStep :
      (s : Status) (i : ℕ) (m : Manager W) (r : Order W)
      → IsSound m
      → get_elem? m.records i ≡ some r
      → r.status ⟶ s
      → is_terminal r.status ≡ false
      → is_terminal s ≡ true
      → IsStep m (end_as s i m)
  end_as-IsStep s i m r v e edge alive dead =
      finish-IsStep (close i) i (λ r. record r { status = s }) m r v e (next edge here) alive dead
        (λ r. refl) (λ j. refl)

  pub withdraw-IsStep :
      (i : ℕ) (m : Manager W) (r : Order W)
      → IsSound m
      → get_elem? m.records i ≡ some r
      → is_open r.status ≡ true
      → IsStep m (end_as cancelled i m)
  withdraw-IsStep i m r v e h =
      end_as-IsStep cancelled i m r v e (withdraw h) (is_open-not-terminal _ h) refl

  pub expire-IsStep :
      (i : ℕ) (m : Manager W) (r : Order W)
      → IsSound m
      → get_elem? m.records i ≡ some r
      → is_open r.status ≡ true
      → IsStep m (end_as timed_out i m)
  expire-IsStep i m r v e h =
      end_as-IsStep timed_out i m r v e (expire h) (is_open-not-terminal _ h) refl

  pub cancel-IsStep : (id : ℕ) (ok : Bool) (m : Manager W) → IsSound m → IsStep m (cancel id ok m).0
  unfolding cancel begin_cancel finish_cancel
  cancel-IsStep id ok m v = grind (arith, same-IsStep m v, withdraw-IsStep)

  pub IsStep-join : (m m' m'' : Manager W) → IsStep m m' → IsStep m' m'' → IsStep m m''
  IsStep-join m m' m'' (v, first) (v', second) = (v', λ i. Evolves-join (first i) (second i))
