-- ===== src/Store/Implementations.antt =====
-- core/store.py: the memory and the SQLite backend as `AbstractStore`.
use quantluna.Prelude.{ℕ, ◌≡◌, Option, none, some, [], arith, ◌==◌, if◌then◌else◌, ap, ◌∙◌}
use quantluna.Prelude.Dict.{Dict, lookup, insert, erase, lookup-insert, lookup-erase}
use quantluna.Store.Memory
use quantluna.Store.Memory.{MemoryStore, Timed, is_past, expiry}
use quantluna.Store.Sqlite
use quantluna.Store.Sqlite.{Value, Json, SqliteStore, reattach}
use quantluna.Store.Sqlite.Backends.{IsJson, set-kept}
use quantluna.Store.Interface.{AbstractStore, IsStore}

module _ {ℓ} {V : Type ℓ} where
  -- What a row gives at a time.
  abbrev still : ℕ → Option (Timed V) → Option V
  still now none = none
  still now (some (v, at_time)) = if is_past now at_time then none else some v

  still-insert :
      (now later j key : ℕ) (v : V) (d : Dict (Timed V))
      → still later (lookup j (insert key (v, expiry now none) d))
        ≡ (if j == key then some v else still later (lookup j d))
  still-insert now later j key v d = grind (arith, lookup-insert j key (v, expiry now none) d)

  still-erase :
      (later j key : ℕ) (d : Dict (Timed V))
      → still later (lookup j (erase key d)) ≡ (if j == key then none else still later (lookup j d))
  still-erase later j key d = grind (arith, lookup-erase j key d)

  memory_get :
      (later j : ℕ) (m : MemoryStore V)
      → (Memory.get later j m).1 ≡ still later (lookup j m.data_of)
  unfolding Memory.get Memory.is_expired
  memory_get later j m = grind arith

  abbrev pub memory_store : AbstractStore (MemoryStore V) V
  memory_store = record { get = Memory.get; set = Memory.set; delete = Memory.delete }

  pub memory_store-IsStore : IsStore memory_store (λ _. Unit) (λ _. Unit)
  unfolding Memory.set Memory.delete
  memory_store-IsStore = record {
    set-IsSound = λ now key v s keeps sound. tt;
    delete-IsSound = λ key s sound. tt;
    get-set = λ now later key v s keeps sound.
        grind (arith, memory_get, still-insert now later key key v s.data_of);
    get-set_other = λ now later j key v s keeps sound ne.
        grind (arith, memory_get, still-insert now later j key v s.data_of);
    get-delete =
        λ later j key s sound. grind (arith, memory_get, still-erase later j key s.data_of);
  }

module _ {ℓ} {P F : Type ℓ} (json : Json P F) where
  abbrev pub sqlite_store : AbstractStore (SqliteStore P F) (Value P F)
  sqlite_store = record { get = Sqlite.get; set = Sqlite.set json; delete = Sqlite.delete }

  -- No live fields are kept.
  abbrev pub IsPlain : SqliteStore P F → Type ℓ
  IsPlain s = s.live ≡ []

  sqlite_get :
      (later j : ℕ) (s : SqliteStore P F)
      → IsPlain s
      → (Sqlite.get later j s).1 ≡ still later (lookup j s.rows)
  unfolding Sqlite.get reattach
  sqlite_get later j s h = grind (arith, h)

  pub sqlite_store-IsStore : IsStore sqlite_store (IsJson json) IsPlain
  unfolding Sqlite.delete
  sqlite_store-IsStore = record {
    set-IsSound =
        λ now key v s keeps sound. ap (λ s. s.live) (set-kept json now key v none s keeps) ∙ sound;
    delete-IsSound = λ key s sound. ap (erase key) sound;
    get-set = λ now later key v s keeps sound.
        rw (set-kept json now key v none s keeps)
          (sqlite_get later key _ sound ∙ grind (arith, still-insert now later key key v s.rows));
    get-set_other = λ now later j key v s keeps sound ne.
        rw (set-kept json now key v none s keeps) (
          sqlite_get later j _ sound
          ∙ grind (arith, still-insert now later j key v s.rows, sqlite_get later j s sound));
    get-delete = λ later j key s sound.
        sqlite_get later j (Sqlite.delete key s) (ap (erase key) sound)
        ∙ grind (arith, still-erase later j key s.rows, sqlite_get later j s sound);
  }
