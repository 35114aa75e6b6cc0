-- ===== src/Traffic/Cache.antt =====
-- core/bybit_traffic_controller.py: `TTLCache`. The keys are digests, which the code compares and
-- tests for a prefix, so a key is a number and a prefix the test of a key for it.
use quantluna.Prelude.{
  ℕ, ◌+◌, ◌≤◌, ◌≡◌, Bool, Option, none, some, [], ◌∷◌, ltb, leb, arith, if◌then◌else◌, ◌==◌,
}
use quantluna.Prelude.Dict.{Dict, lookup, insert, erase, lookup-insert, lookup-erase}

module _ {ℓ} {V : Type ℓ} where
  unfoldable pub get : ℕ → ℕ → Dict (ℕ × V) → Dict (ℕ × V) × Option V
  get now key cache = elim (lookup key cache) [
    | none ↦ (cache, none)
    | some (expires, value) ↦
        if ltb expires now then (erase key cache, none) else (cache, some value)
  ]

  unfoldable pub set : ℕ → ℕ → V → ℕ → Dict (ℕ × V) → Dict (ℕ × V)
  set now key value ttl cache = insert key (now + ttl, value) cache

  drop_prefix : (ℕ → Bool) → Dict (ℕ × V) → Dict (ℕ × V)
  drop_prefix starts [] = []
  drop_prefix starts (e ∷ cache) =
      let rest = drop_prefix starts cache in if starts e.0 then rest else e ∷ rest

  -- `none` is the empty prefix, which clears the cache.
  pub invalidate : Option (ℕ → Bool) → Dict (ℕ × V) → Dict (ℕ × V)
  unfolding drop_prefix
  invalidate none cache = []
  invalidate (some starts) cache = drop_prefix starts cache

  -- What `get` finds at the time `now`.
  abbrev pub fetch : ℕ → ℕ → Dict (ℕ × V) → Option V
  fetch now key cache = (get now key cache).1

  -- A value that was set is found until its time to live has passed, its last tick included, and
  -- nothing is found after it; what is found under other keys stays the same.
  pub get-set :
      (now later key name ttl : ℕ) (value : V) (cache : Dict (ℕ × V))
      → fetch later name (set now key value ttl cache) ≡ (
          if name == key
          then (if leb later (now + ttl) then some value else none)
          else fetch later name cache)
  unfolding get set
  get-set now later key name ttl value cache =
      ground (arith, lookup-insert name key (now + ttl, value) cache)

  -- A `get`, which drops the entry that it finds expired, changes no answer of a later `get`, under
  -- any key, on a clock that does not run back.
  pub get-get :
      (now later key name : ℕ) (cache : Dict (ℕ × V))
      → now ≤ later
      → fetch later name (get now key cache).0 ≡ fetch later name cache
  unfolding get
  get-get now later key name cache le = ground (arith, lookup-erase name key cache)

  lookup-drop_prefix :
      (starts : ℕ → Bool) (key : ℕ) (cache : Dict (ℕ × V))
      → lookup key (drop_prefix starts cache) ≡ (if starts key then none else lookup key cache)
  unfolding drop_prefix
  lookup-drop_prefix starts key [] = ground arith
  lookup-drop_prefix starts key (e ∷ cache) = ground (arith, lookup-drop_prefix starts key cache)

  -- After `invalidate` nothing is found under a key with the prefix, and what is found under the
  -- other keys stays the same; with no prefix nothing is found at all.
  pub get-invalidate :
      (starts : ℕ → Bool) (now key : ℕ) (cache : Dict (ℕ × V))
      → (fetch now key (invalidate (some starts) cache)
          ≡ (if starts key then none else fetch now key cache))
        × (fetch now key (invalidate none cache) ≡ none)
  unfolding get invalidate
  get-invalidate starts now key cache = ground (arith, lookup-drop_prefix starts key cache)
