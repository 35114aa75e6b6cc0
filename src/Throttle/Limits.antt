-- ===== src/Throttle/Limits.antt =====
-- execution/order_throttle.py: the allowed orders that lie in a window of time.
use native.Mathlib.Decide.{dec_le}
use quantluna.Prelude.{
  ℕ, ◌+◌, ◌≤◌, ◌≡◌, Bool, true, List, [], ◌∷◌, ◌&&◌, arith, leb, ◌==◌, if◌then◌else◌, ◌<◌, ◌↔◌, inl,
  inr, Bool-cases, length,
}
use quantluna.Throttle.{Config, requests, empty, allow, remaining, Throttle, prune}
use quantluna.Throttle.History.{history, passes, recent, recent_of, IsRising, requests-history}

-- The orders from `until - w` to `until`, ends included, and those of one symbol.
abbrev pub within : ℕ → ℕ → ℕ → Bool
within w until t = leb until (t + w) && leb t until

abbrev pub orders : ℕ → ℕ → List (ℕ × ℕ) → ℕ
orders w until [] = 0
orders w until ((t, s) ∷ h) = (if within w until t then 1 else 0) + orders w until h

abbrev pub orders_of : ℕ → ℕ → ℕ → List (ℕ × ℕ) → ℕ
orders_of w until symbol [] = 0
orders_of w until symbol ((t, s) ∷ h) =
    (if symbol == s then (if within w until t then 1 else 0) else 0) + orders_of w until symbol h

-- No order of the history is later than `now`, with the latest first.
abbrev IsPast : ℕ → List (ℕ × ℕ) → Type 0
IsPast now [] = Unit
IsPast now ((t, s) ∷ h) = (t ≤ now) × IsPast now h

IsPast-mono : (now later : ℕ) (h : List (ℕ × ℕ)) → now ≤ later → IsPast now h → IsPast later h
IsPast-mono now later [] le p = tt
IsPast-mono now later ((t, s) ∷ h) le p = (omega arith, IsPast-mono now later h le p.1)

module _ (w now until : ℕ) (le : now ≤ until) where
  orders-le-recent : (h : List (ℕ × ℕ)) → orders w until h ≤ recent w now h
  orders-le-recent [] = omega arith
  orders-le-recent ((t, s) ∷ h) = ground (arith, orders-le-recent h)

  orders_of-le-recent_of :
      (symbol : ℕ) (h : List (ℕ × ℕ)) → orders_of w until symbol h ≤ recent_of w now symbol h
  orders_of-le-recent_of symbol [] = omega arith
  orders_of-le-recent_of symbol ((t, s) ∷ h) = ground (arith, orders_of-le-recent_of symbol h)

module _ (cfg : Config) where
  record IsLimited (h : List (ℕ × ℕ)) : Type 0 where
    all : (until : ℕ) → orders cfg.window until h ≤ cfg.burst_cap
    own : (symbol until : ℕ) → orders_of cfg.window until symbol h ≤ cfg.max_orders

  step_all :
      (now symbol : ℕ) (h : List (ℕ × ℕ))
      → IsLimited h
      → passes cfg now symbol h ≡ true
      → (until : ℕ) → orders cfg.window until ((now, symbol) ∷ h) ≤ cfg.burst_cap
  unfolding passes
  step_all now symbol h l p until = elim (dec_le now until) [
    | yes le ↦ ground (arith, orders-le-recent cfg.window now until le h)
    | no gt ↦ ground (arith, l.all until)
  ]

  step_own :
      (now symbol : ℕ) (h : List (ℕ × ℕ))
      → IsLimited h
      → passes cfg now symbol h ≡ true
      → (name until : ℕ) → orders_of cfg.window until name ((now, symbol) ∷ h) ≤ cfg.max_orders
  unfolding passes
  step_own now symbol h l p name until = elim (dec_le now until) [
    | yes le ↦ ground (
      arith,
      l.own name until,
      orders_of-le-recent_of cfg.window now until le symbol h,
      orders_of-le-recent_of cfg.window now until le name h,
    )
    | no gt ↦ ground (arith, l.own name until)
  ]

  history-IsLimited : (rs h : List (ℕ × ℕ)) → IsLimited h → IsLimited (history cfg rs h)
  unfolding history
  history-IsLimited [] h l = l
  history-IsLimited ((now, symbol) ∷ rs) h l = elim (Bool-cases (passes cfg now symbol h)) [
    | inl p ↦ rw p (
        history-IsLimited rs ((now, symbol) ∷ h)
          (record { all = step_all now symbol h l p; own = step_own now symbol h l p }))
    | inr p ↦ rw p (history-IsLimited rs h l)
  ]

  -- On a clock that does not run back, the orders that a new throttle allows hold, in every closed
  -- interval as long as the window, at most `burst_cap` orders, and at most `max_orders` of any
  -- one symbol.
  pub requests_limited :
      (rs : List (ℕ × ℕ)) (symbol until : ℕ)
      → IsRising 0 rs
      → let done = (requests cfg rs empty []).1 in
        (orders cfg.window until done ≤ cfg.burst_cap)
        × (orders_of cfg.window until symbol done ≤ cfg.max_orders)
  requests_limited rs symbol until up =
      let l =
        history-IsLimited rs [] (record { all = λ u. omega arith; own = λ s u. omega arith }) in
      rw (requests-history cfg rs up) (l.all until, l.own symbol until)

-- `remaining` tells the truth: an order of the symbol is allowed exactly when some of its tokens
-- are left and the window holds fewer orders than the global cap.
pub allow-remaining :
    (cfg : Config) (now symbol : ℕ) (th : Throttle)
    → ((allow cfg now symbol th).1 ≡ true) ↔ (
        (0 < remaining cfg now symbol th)
        × (length (prune cfg.window now th.global_times) < cfg.burst_cap))
unfolding allow remaining
allow-remaining cfg now symbol th = ground arith
