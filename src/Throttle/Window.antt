-- ===== src/Throttle/Window.antt =====
-- execution/order_throttle.py: pruning, and what later windows count.
use quantluna.Prelude.{
  ℕ, ◌+◌, ◌≤◌, ◌≡◌, refl, List, [], ◌∷◌, ◌++◌, arith, leb, length, if◌then◌else◌,
}
use quantluna.Throttle.{prune}

module _ (w : ℕ) where
  pub length-prune-prune :
      (now later : ℕ) (ts : List ℕ)
      → now ≤ later
      → length (prune w later (prune w now ts)) ≡ length (prune w later ts)
  unfolding prune
  length-prune-prune now later [] h = refl
  length-prune-prune now later (t ∷ ts) h = ground (arith, length-prune-prune now later ts h)

  pub length-prune-append :
      (now t : ℕ) (ts : List ℕ)
      → length (prune w now (ts ++ (t ∷ [])))
        ≡ length (prune w now ts) + (if leb now (t + w) then 1 else 0)
  unfolding prune
  length-prune-append now t [] = ground arith
  length-prune-append now t (u ∷ ts) = ground (arith, length-prune-append now t ts)
