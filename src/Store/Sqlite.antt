-- ===== src/Store/Sqlite.antt =====
-- core/store.py: `SQLiteStore`. The table is a dictionary by its primary key, and `_live` holds the
-- fields of a value that `json.dumps` refuses. JSON is outside code.
pub mod Backends
use quantluna.Prelude.{
  ℕ, ◌+◌, Bool, true, false, not, ◌&&◌, Option, none, some, List, [], ◌∷◌, ltb, ◌==◌, if◌then◌else◌,
}
use quantluna.Prelude.Dict.{Dict, lookup, insert, erase}
use quantluna.Store.Memory.{Timed, is_past, expiry}

-- A Python dict with fields of the type F, or another value.
pub data Value {ℓ} (P F : Type ℓ) : Type ℓ where
  plain : P → Value P F
  fields : Dict F → Value P F

-- `json.dumps(_, default=str)`: whether it succeeds, and what `json.loads` makes of the result.
pub record Json {ℓ} (P F : Type ℓ) : Type ℓ where
  pub null : F
  pub encodes : F → Bool
  pub recode : F → F
  pub encodes_plain : P → Bool
  pub recode_plain : P → P
  -- `{"_error": str(e)}`
  pub error_fields : P → Dict F

pub record SqliteStore {ℓ} (P F : Type ℓ) : Type ℓ where
  pub rows : Dict (Timed (Value P F))
  pub live : Dict (Dict F)

-- `d.update(_)`; the order of the keys is not looked at
abbrev pub update {ℓ} : {F : Type ℓ} → Dict F → Dict F → Dict F
update d [] = d
update d ((k, v) ∷ more) = insert k v (update d more)

unfoldable pub keep_live {ℓ} : {F : Type ℓ} → ℕ → Dict F → Dict (Dict F) → Dict (Dict F)
keep_live key [] live = live
keep_live key (item ∷ d) live = insert key (item ∷ d) live

module _ {ℓ} {P F : Type ℓ} where
  -- `__init__` on a new table
  abbrev pub new : SqliteStore P F
  new = record { rows = []; live = [] }

  unfoldable pub delete : ℕ → SqliteStore P F → SqliteStore P F
  delete key s = record { rows = erase key s.rows; live = erase key s.live }

  -- The live fields, put back on a value that was read.
  unfoldable pub reattach : Option (Dict F) → Value P F → Value P F
  reattach none v = v
  reattach (some live) (plain p) = plain p
  reattach (some live) (fields d) = fields (update d live)

  unfoldable pub get : ℕ → ℕ → SqliteStore P F → SqliteStore P F × Option (Value P F)
  get now key s = elim (lookup key s.rows) [
    | none ↦ (s, none)
    | some (v, at_time) ↦
        if is_past now at_time
        then (delete key s, none)
        else (s, some (reattach (lookup key s.live) v))
  ]

  -- `all`; an expiry at time 0 counts as none
  unfoldable pub all : ℕ → SqliteStore P F → Dict (Value P F)
  all now s = go s.rows
    where
      go : Dict (Timed (Value P F)) → Dict (Value P F)
      go [] = []
      go ((k, (v, none)) ∷ d) = (k, reattach (lookup k s.live) v) ∷ go d
      go ((k, (v, some at_time)) ∷ d) =
          let rest = go d in
          if not (at_time == 0) && ltb at_time now
          then rest
          else (k, reattach (lookup k s.live) v) ∷ rest

  -- `count`, by the query's `expires_at > now`
  abbrev pub unexpired : ℕ → Dict (Timed (Value P F)) → ℕ
  unexpired now [] = 0
  unexpired now ((k, (v, none)) ∷ d) = 1 + unexpired now d
  unexpired now ((k, (v, some at_time)) ∷ d) = (if ltb now at_time then 1 else 0) + unexpired now d

  abbrev pub count : ℕ → SqliteStore P F → ℕ
  count now s = unexpired now s.rows

module _ {ℓ} {P F : Type ℓ} (json : Json P F) where
  abbrev pub live_fields : Dict F → Dict F
  live_fields [] = []
  live_fields ((k, v) ∷ d) =
      let rest = live_fields d in if json.encodes v then rest else (k, v) ∷ rest

  -- The fields that are written, as they will be read.
  abbrev pub safe_fields : Dict F → Dict F
  safe_fields [] = []
  safe_fields ((k, v) ∷ d) =
      (k, if json.encodes v then json.recode v else json.null) ∷ safe_fields d

  unfoldable pub payload : Value P F → Value P F
  payload (fields d) = fields (safe_fields d)
  payload (plain p) =
      if json.encodes_plain p then plain (json.recode_plain p) else fields (json.error_fields p)

  unfoldable pub set : ℕ → ℕ → Value P F → Option ℕ → SqliteStore P F → SqliteStore P F
  set now key v ttl s = record {
    rows = insert key (payload v, expiry now ttl) s.rows;
    live = elim v [ plain p ↦ s.live | fields d ↦ keep_live key (live_fields d) s.live ];
  }
