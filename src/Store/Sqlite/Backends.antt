-- ===== src/Store/Sqlite/Backends.antt =====
-- core/store.py: the memory and the SQLite backend next to each other, and what an overwritten value
-- leaves behind.
use quantluna.Prelude.{
  ℕ, ◌≡◌, refl, true, false, Option, none, some, List, [], ◌∷◌, arith, ap, inl, inr, Option-cases,
  Bool-cases,
}
use quantluna.Prelude.Dict.{Dict, insert, lookup, erase, lookup-insert}
use quantluna.Store.Memory
use quantluna.Store.Memory.{MemoryStore, expiry, is_past}
use quantluna.Store.Sqlite
use quantluna.Store.Sqlite.{
  Value, plain, fields, Json, SqliteStore, live_fields, safe_fields, payload, keep_live, reattach,
  update,
}

-- An operation that a facade asks of its store.
pub data Operation {ℓ} (V : Type ℓ) : Type ℓ where
  get : ℕ → Operation V
  set : ℕ → V → Option ℕ → Operation V
  delete : ℕ → Operation V

-- Operations with their times: what the gets return.
unfoldable pub memory_answers {ℓ} :
    {V : Type ℓ} → List (ℕ × Operation V) → MemoryStore V → List (Option V)
memory_answers [] m = []
memory_answers ((now, get key) ∷ ops) m =
    let (m', v) = Memory.get now key m in v ∷ memory_answers ops m'
memory_answers ((now, set key v ttl) ∷ ops) m = memory_answers ops (Memory.set now key v ttl m)
memory_answers ((now, delete key) ∷ ops) m = memory_answers ops (Memory.delete key m)

erase_missing {ℓ} : {A : Type ℓ} (key : ℕ) (d : Dict A) → lookup key d ≡ none → erase key d ≡ d
erase_missing key [] e = refl
erase_missing key (item ∷ d) e = ground (arith, erase_missing key d)

module _ {ℓ} {P F : Type ℓ} (json : Json P F) where
  pub sqlite_answers :
      List (ℕ × Operation (Value P F)) → SqliteStore P F → List (Option (Value P F))
  sqlite_answers [] s = []
  sqlite_answers ((now, get key) ∷ ops) s =
      let (s', v) = Sqlite.get now key s in v ∷ sqlite_answers ops s'
  sqlite_answers ((now, set key v ttl) ∷ ops) s =
      sqlite_answers ops (Sqlite.set json now key v ttl s)
  sqlite_answers ((now, delete key) ∷ ops) s = sqlite_answers ops (Sqlite.delete key s)

  -- A value that JSON keeps as it is.
  abbrev AreJson : Dict F → Type ℓ
  AreJson [] = Unit
  AreJson ((k, v) ∷ d) = ((json.encodes v ≡ true) × (json.recode v ≡ v)) × AreJson d

  abbrev pub IsJson : Value P F → Type ℓ
  IsJson (plain p) = (json.encodes_plain p ≡ true) × (json.recode_plain p ≡ p)
  IsJson (fields d) = AreJson d

  abbrev pub SetsJson : List (ℕ × Operation (Value P F)) → Type ℓ
  SetsJson [] = Unit
  SetsJson ((_, set _ v _) ∷ ops) = IsJson v × SetsJson ops
  SetsJson ((_, get _) ∷ ops) = SetsJson ops
  SetsJson ((_, delete _) ∷ ops) = SetsJson ops

  AreJson-fields : (d : Dict F) → AreJson d → (live_fields json d ≡ []) × (safe_fields json d ≡ d)
  AreJson-fields [] h = (refl, refl)
  AreJson-fields ((k, v) ∷ d) h = ground (arith, AreJson-fields d)

  -- The SQLite store of the rows that a memory store holds.
  abbrev on_disk : MemoryStore (Value P F) → SqliteStore P F
  on_disk m = record { rows = m.data_of; live = [] }

  pub set-kept :
      (now key : ℕ) (v : Value P F) (ttl : Option ℕ) (s : SqliteStore P F)
      → IsJson v
      → Sqlite.set json now key v ttl s
        ≡ record { rows = insert key (v, expiry now ttl) s.rows; live = s.live }
  unfolding Sqlite.set payload keep_live
  set-kept now key (plain p) ttl s h = ground arith
  set-kept now key (fields d) ttl s h = ground (arith, AreJson-fields d h)

  set-on_disk :
      (now key : ℕ) (v : Value P F) (ttl : Option ℕ) (m : MemoryStore (Value P F))
      → IsJson v
      → Sqlite.set json now key v ttl (on_disk m) ≡ on_disk (Memory.set now key v ttl m)
  unfolding Memory.set
  set-on_disk now key v ttl m h = set-kept now key v ttl (on_disk m) h

  get-on_disk :
      (now key : ℕ) (m : MemoryStore (Value P F))
      → Sqlite.get now key (on_disk m)
        ≡ (on_disk (Memory.get now key m).0, (Memory.get now key m).1)
  unfolding Memory.get Memory.is_expired Memory.delete Sqlite.get Sqlite.delete reattach
  get-on_disk now key m = elim (Option-cases (lookup key m.data_of)) [
    | inl e ↦ grind (arith, e, erase_missing key m.data_of)
    | inr ((v, at_time), e) ↦ elim (Bool-cases (is_past now at_time)) [
      | inl past ↦ grind (arith, e, past)
      | inr past ↦ grind (arith, e, past)
    ]
  ]

  delete-on_disk :
      (key : ℕ) (m : MemoryStore (Value P F))
      → Sqlite.delete key (on_disk m) ≡ on_disk (Memory.delete key m)
  unfolding Memory.delete Sqlite.delete
  delete-on_disk key m = refl

  -- The memory and the SQLite backend answer alike: if every value that is set is one that JSON keeps
  -- as it is, then any gets, sets with or without a time to live, and deletes return the same from a
  -- new store of either kind, on the same clock.
  pub backends_agree :
      (ops : List (ℕ × Operation (Value P F))) (m : MemoryStore (Value P F))
      → SetsJson ops
      → sqlite_answers ops (on_disk m) ≡ memory_answers ops m
  unfolding sqlite_answers memory_answers
  backends_agree [] m h = refl
  backends_agree ((now, get key) ∷ ops) m h =
      rw (get-on_disk now key m)
        (ap (λ vs. (Memory.get now key m).1 ∷ vs) (backends_agree ops (Memory.get now key m).0 h))
  backends_agree ((now, set key v ttl) ∷ ops) m h =
      rw (set-on_disk now key v ttl m h.0) (backends_agree ops (Memory.set now key v ttl m) h.1)
  backends_agree ((now, delete key) ∷ ops) m h =
      rw (delete-on_disk key m) (backends_agree ops (Memory.delete key m) h)

  lookup-live_fields :
      (k : ℕ) (w : F) (d : Dict F)
      → lookup k d ≡ some w
      → json.encodes w ≡ false
      → lookup k (live_fields json d) ≡ some w
  lookup-live_fields k w [] e h = ground arith
  lookup-live_fields k w ((j, v) ∷ d) e h = ground (arith, lookup-live_fields k w d)

  lookup-update :
      (k : ℕ) (w : F) (d live : Dict F) → lookup k live ≡ some w → lookup k (update d live) ≡ some w
  lookup-update k w d [] e = ground arith
  lookup-update k w d ((j, v) ∷ live) e =
      grind (arith, lookup-update k w d live, lookup-insert k j v (update d live))

  get_kept :
      (now key : ℕ) (v : Value P F) (live : Option (Dict F)) (s : SqliteStore P F)
      → lookup key s.rows ≡ some (v, none)
      → lookup key s.live ≡ live
      → (Sqlite.get now key s).1 ≡ some (reattach live v)
  unfolding Sqlite.get
  get_kept now key v live s e kept = grind (arith, e, kept)

  kept_live :
      (key k : ℕ) (w : F) (fresh : Dict F) (live : Dict (Dict F))
      → lookup k fresh ≡ some w
      → lookup key (keep_live key fresh live) ≡ some fresh
  unfolding keep_live
  kept_live key k w [] live e = ground arith
  kept_live key k w (item ∷ fresh) live e =
      ground (arith, lookup-insert key key (item ∷ fresh) live)

  -- A field that JSON refuses outlives the value: if a value with such a field is overwritten by any
  -- other whose fields JSON takes, `get` still puts the old field on the new value.
  pub stale_field :
      (now later key k : ℕ) (w : F) (d new : Dict F) (s : SqliteStore P F)
      → lookup k d ≡ some w
      → json.encodes w ≡ false
      → AreJson new
      → let written =
          Sqlite.set json later key (fields new) none (Sqlite.set json now key (fields d) none s) in
        (read : Dict F) × (((Sqlite.get later key written).1 ≡ some (fields read))
          × (lookup k read ≡ some w))
  unfolding Sqlite.set payload keep_live reattach
  stale_field now later key k w d new s e refused h =
      let first = Sqlite.set json now key (fields d) none s in
      let written = Sqlite.set json later key (fields new) none first in
      let live = live_fields json d in
      let found = lookup-live_fields k w d e refused in
      (
        update (safe_fields json new) live,
        (
          get_kept later key (fields (safe_fields json new)) (some live) written
              (ground
                (arith, lookup-insert key key (fields (safe_fields json new), none) first.rows))
              (rw (AreJson-fields new h).0 (kept_live key k w live s.live found)),
          lookup-update k w (safe_fields json new) live found,
        ),
      )
