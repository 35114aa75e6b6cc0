-- ===== src/Orders/Timeouts.antt =====
-- execution/order_manager.py: `_check_timeouts`, the snapshot of the open orders and the turn of each.
use quantluna.Prelude.{
  ℕ, zero, suc, ◌+◌, ◌≤◌, ◌≡◌, refl, ap, ◌∙◌, ◌⊎◌, Bool, true, false, Option, none, some, List, [],
  ◌∷◌, arith, get_elem?, if◌then◌else◌,
}
use quantluna.Orders.State.{cancelled, timed_out, Order, Manager, Config, is_open}
use quantluna.Orders.{
  cancel, begin_cancel, finish_cancel, check_one, check_each, check_timeouts, give_up, stale_from,
  end_as,
}
use quantluna.Orders.Records.{get_elem?-modify}
use quantluna.Orders.Lifecycle.{
  IsKeyed, IsSound, IsStep, IsStep-join, same-IsStep, withdraw-IsStep, expire-IsStep,
}

module _ {ℓ} {W : Type ℓ} where
  abbrev pub is_open_at : Option (Order W) → Bool
  is_open_at none = false
  is_open_at (some r) = is_open r.status

  check_one-cases :
      (cfg : Config) (now i : ℕ) (ok : Bool) (m : Manager W)
      → IsKeyed m
      → is_open_at (get_elem? m.records i) ≡ true
      → (check_one cfg now i ok m ≡ m)
        ⊎ (check_one cfg now i ok m ≡ end_as cancelled i m)
        ⊎ (check_one cfg now i ok m ≡ end_as timed_out i m)
  unfolding check_one cancel begin_cancel finish_cancel give_up
  check_one-cases cfg now i ok m keyed h = grind (arith, keyed i)

  check_one-IsStep :
      (cfg : Config) (now i : ℕ) (ok : Bool) (m : Manager W)
      → IsSound m
      → is_open_at (get_elem? m.records i) ≡ true
      → IsStep m (check_one cfg now i ok m)
  check_one-IsStep cfg now i ok m v h = grind (
    arith,
    check_one-cases cfg now i ok m v.1 h,
    same-IsStep m v,
    withdraw-IsStep i m,
    expire-IsStep i m,
  )

  check_one-keeps :
      (cfg : Config) (now i : ℕ) (ok : Bool) (m : Manager W) (j : ℕ)
      → IsKeyed m
      → is_open_at (get_elem? m.records i) ≡ true
      → suc i ≤ j
      → get_elem? (check_one cfg now i ok m).records j ≡ get_elem? m.records j
  check_one-keeps cfg now i ok m j keyed h above = grind (
    arith,
    check_one-cases cfg now i ok m keyed h,
    get_elem?-modify i j (λ r. record r { status = cancelled }) m.records,
    get_elem?-modify i j (λ r. record r { status = timed_out }) m.records,
  )

  -- Numbers in order, from a lower bound on, of records that are open.
  abbrev IsQueued : List (Order W) → ℕ → List ℕ → Type 0
  IsQueued records k [] = Unit
  IsQueued records k (i ∷ is) =
      (k ≤ i) × (is_open_at (get_elem? records i) ≡ true) × IsQueued records (suc i) is

  IsQueued-keep :
      (before after : List (Order W)) (k : ℕ) (is : List ℕ)
      → ((j : ℕ) → k ≤ j → get_elem? after j ≡ get_elem? before j)
      → IsQueued before k is
      → IsQueued after k is
  IsQueued-keep before after k [] same q = tt
  IsQueued-keep before after k (i ∷ is) same (above, open_i, q) = (
    above,
    ap is_open_at (same i above) ∙ open_i,
    IsQueued-keep before after (suc i) is (λ j h. same j (omega arith)) q,
  )

  check_each-IsStep :
      (cfg : Config) (now : ℕ) (ok : ℕ → Bool) (k : ℕ) (is : List ℕ) (m : Manager W)
      → IsSound m
      → IsQueued m.records k is
      → IsStep m (check_each cfg now ok is m)
  unfolding check_each
  check_each-IsStep cfg now ok k [] m v q = same-IsStep m v
  check_each-IsStep cfg now ok k (i ∷ is) m v (above, open_i, q) =
      let m' = check_one cfg now i (ok i) m in
      let step = check_one-IsStep cfg now i (ok i) m v open_i in
      IsStep-join m m' (check_each cfg now ok is m') step (
        check_each-IsStep cfg now ok (suc i) is m' step.0 (
          IsQueued-keep m.records m'.records (suc i) is
            (λ j h. check_one-keeps cfg now i (ok i) m j v.1 open_i h) q))

  IsQueued-lower :
      (records : List (Order W)) (k : ℕ) (is : List ℕ)
      → IsQueued records (suc k) is
      → IsQueued records k is
  IsQueued-lower records k [] q = tt
  IsQueued-lower records k (i ∷ is) (above, open_i, q) = (omega arith, open_i, q)

  -- What is queued when the first record of the rest has the number `k`.
  stale_one :
      (records rest : List (Order W)) (k : ℕ) (b : Bool) (is : List ℕ)
      → (b ≡ true → is_open_at (get_elem? records k) ≡ true)
      → IsQueued records (suc k) is
      → IsQueued records k (if b then k ∷ is else is)
  stale_one records rest k true is h q = (omega arith, h refl, q)
  stale_one records rest k false is h q = IsQueued-lower records k is q

  stale_from-IsQueued :
      (records rest : List (Order W)) (k : ℕ)
      → ((i : ℕ) → get_elem? records (k + i) ≡ get_elem? rest i)
      → IsQueued records k (stale_from k rest)
  unfolding stale_from
  stale_from-IsQueued records [] k same = tt
  stale_from-IsQueued records (x ∷ rest) k same =
      let first : get_elem? records k ≡ some x = ap (get_elem? records) (omega arith) ∙ same zero in
      stale_one records rest k (is_open x.status) (stale_from (suc k) rest)
        (λ h. ap is_open_at first ∙ h)
        (stale_from-IsQueued records rest (suc k)
          (λ i. ap (get_elem? records) (omega arith) ∙ same (suc i)))

  pub check_timeouts-IsStep :
      (cfg : Config) (now : ℕ) (ok : ℕ → Bool) (m : Manager W)
      → IsSound m
      → IsStep m (check_timeouts cfg now ok m)
  unfolding check_timeouts
  check_timeouts-IsStep cfg now ok m v =
      check_each-IsStep cfg now ok zero (stale_from zero m.records) m v
        (stale_from-IsQueued m.records m.records zero (λ i. ap (get_elem? m.records) (omega arith)))
