-- ===== src/Throttle/Tests.antt =====
-- execution/order_throttle.py: runs of the model, and each theorem at an input.
use quantluna.Prelude.{ℕ, ◌≤◌, ◌<◌, ◌≡◌, ◌↔◌, refl, true, some, List, [], ◌∷◌, arith, length}
use quantluna.Throttle.{Config, Throttle, allow, remaining, prune, requests, empty, reset}
use quantluna.Throttle.History.{history, requests-history}
use quantluna.Throttle.Limits.{orders, orders_of, requests_limited, allow-remaining}

abbrev cfg : Config
cfg = record { max_orders = 2; window = 60; burst_cap = 3 }

-- Two orders of symbol 7, a third that is refused, two of symbol 8 of which the cap takes one, and
-- one of symbol 7 when the first two have left the window.
abbrev wanted : List (ℕ × ℕ)
wanted = (0, 7) ∷ (10, 7) ∷ (20, 7) ∷ (30, 8) ∷ (40, 8) ∷ (71, 7) ∷ []

allowed : (requests cfg wanted empty []).1 ≡ (71, 7) ∷ (30, 8) ∷ (10, 7) ∷ (0, 7) ∷ []
unfolding requests prune
allowed = refl

abbrev busy : Throttle
busy = record { buckets = (7, 0 ∷ 10 ∷ []) ∷ []; global_times = 0 ∷ 10 ∷ [] }

reset_one : reset (some 7) busy ≡ record { buckets = []; global_times = 0 ∷ 10 ∷ [] }
unfolding reset
reset_one = refl

requests-history_example : (requests cfg wanted empty []).1 ≡ history cfg wanted []
requests-history_example = requests-history cfg wanted (omega arith)

requests_limited_example :
    let done = (requests cfg wanted empty []).1 in
    (orders 60 60 done ≤ 3) × (orders_of 60 60 7 done ≤ 2)
requests_limited_example = requests_limited cfg wanted 7 60 (omega arith)

allow-remaining_example :
    ((allow cfg 61 7 busy).1 ≡ true)
    ↔ ((0 < remaining cfg 61 7 busy) × (length (prune 60 61 busy.global_times) < 3))
allow-remaining_example = allow-remaining cfg 61 7 busy
