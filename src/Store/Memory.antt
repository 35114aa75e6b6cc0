-- ===== src/Store/Memory.antt =====
-- core/store.py: `MemoryStore`.
use quantluna.Prelude.{
  ℕ, zero, suc, ◌+◌, Bool, true, false, Option, none, some, [], ◌∷◌, ltb, length, if◌then◌else◌,
}
use quantluna.Prelude.Dict.{Dict, lookup, insert, erase}

-- A value with the time when it expires, if it does.
abbrev pub Timed {ℓ} : Type ℓ → Type ℓ
Timed V = V × Option ℕ

pub record MemoryStore {ℓ} (V : Type ℓ) : Type ℓ where
  pub data_of : Dict (Timed V)

-- `exp is not None and now > exp`
abbrev pub is_past : ℕ → Option ℕ → Bool
is_past now none = false
is_past now (some at_time) = ltb at_time now

-- `(now + ttl) if ttl else None`
abbrev pub expiry : ℕ → Option ℕ → Option ℕ
expiry now none = none
expiry now (some zero) = none
expiry now (some (suc n)) = some (now + suc n)

module _ {ℓ} {V : Type ℓ} where
  -- `__init__`
  abbrev pub new : MemoryStore V
  new = record { data_of = [] }

  -- `_is_expired`, also for a key that is not there
  unfoldable pub is_expired : ℕ → ℕ → MemoryStore V → Bool
  is_expired now key m = elim (lookup key m.data_of) [
    | none ↦ true
    | some (_, at_time) ↦ is_past now at_time
  ]

  unfoldable pub delete : ℕ → MemoryStore V → MemoryStore V
  delete key m = record { data_of = erase key m.data_of }

  unfoldable pub get : ℕ → ℕ → MemoryStore V → MemoryStore V × Option V
  get now key m =
      if is_expired now key m
      then (delete key m, none)
      else (m, elim (lookup key m.data_of) [ none ↦ none | some (v, _) ↦ some v ])

  unfoldable pub set : ℕ → ℕ → V → Option ℕ → MemoryStore V → MemoryStore V
  set now key v ttl m = record { data_of = insert key (v, expiry now ttl) m.data_of }

  abbrev pub fresh : ℕ → Dict (Timed V) → Dict (Timed V)
  fresh now [] = []
  fresh now ((k, (v, at_time)) ∷ d) =
      let rest = fresh now d in if is_past now at_time then rest else (k, (v, at_time)) ∷ rest

  abbrev pub values : Dict (Timed V) → Dict V
  values [] = []
  values ((k, (v, _)) ∷ d) = (k, v) ∷ values d

  -- `all`, which first takes out what has expired
  unfoldable pub all : ℕ → MemoryStore V → MemoryStore V × Dict V
  all now m = let kept = fresh now m.data_of in (record { data_of = kept }, values kept)

  unfoldable pub count : ℕ → MemoryStore V → MemoryStore V × ℕ
  count now m = let (m', found) = all now m in (m', length found)

  abbrev pub clear : MemoryStore V → MemoryStore V
  clear m = new
