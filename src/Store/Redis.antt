-- ===== src/Store/Redis.antt =====
-- core/store.py: `RedisStore`. The Redis server and JSON are outside code.
use quantluna.Prelude.{
  ◌≡◌, refl, ℕ, Bool, true, false, Option, none, some, List, [], ◌∷◌, ltb, length, if◌then◌else◌,
}
use quantluna.Prelude.Dict.{Dict, lookup, erase}
use quantluna.Store.Memory
use quantluna.Store.Memory.{MemoryStore}
use quantluna.Store.Sqlite.{
  Value, plain, fields, Json, keep_live, live_fields, safe_fields, reattach,
}

-- The client's calls: GET, SETEX (key, time to live, payload), DEL and the keys of a scan.
pub record Server {ℓ} (S V : Type ℓ) : Type ℓ where
  pub fetch : ℕ → S → Option V
  pub setex : ℕ → ℕ → V → S → S
  pub remove : ℕ → S → S
  pub scan : S → List ℕ

pub record RedisStore {ℓ} (S P F : Type ℓ) : Type ℓ where
  pub client : Option S
  pub fallback : Option (MemoryStore (Value P F))
  pub live : Dict (Dict F)
  pub default_ttl : ℕ

module _ {ℓ} {S P F : Type ℓ} (server : Server S (Value P F)) (json : Json P F) where
  -- `__init__`: `none` if the server did not answer
  abbrev pub connect : Option S → ℕ → RedisStore S P F
  connect (some client) default_ttl = record {
    client = some client;
    fallback = none;
    live = [];
    default_ttl = default_ttl;
  }
  connect none default_ttl = record {
    client = none;
    fallback = some Memory.new;
    live = [];
    default_ttl = default_ttl;
  }

  -- The test `if self._fallback`: a store has a length, and so an empty one counts as false.
  abbrev usable : ℕ → RedisStore S P F → Option (MemoryStore (Value P F))
  usable now s = elim s.fallback [
    | none ↦ none
    | some m ↦ let (kept, n) = Memory.count now m in if ltb 0 n then some kept else none
  ]

  -- What `get` reads from the server.
  abbrev read : ℕ → S → RedisStore S P F → Option (Value P F)
  read key client s = elim (server.fetch key client) [
    | none ↦ none
    | some v ↦ some (reattach (lookup key s.live) v)
  ]

  -- An operation gives `none` if it raises: without a client, on `None`.
  unfoldable pub get : ℕ → ℕ → RedisStore S P F → Option (RedisStore S P F × Option (Value P F))
  get now key s = elim (usable now s) [
    | some m ↦ let (m', v) = Memory.get now key m in some (record s { fallback = some m' }, v)
    | none ↦ elim s.client [ none ↦ none | some client ↦ some (s, read key client s) ]
  ]

  -- `ttl or self.default_ttl`
  abbrev ttl_or_default : Option ℕ → ℕ → ℕ
  ttl_or_default none default = default
  ttl_or_default (some ttl) default = if ltb 0 ttl then ttl else default

  unfoldable pub set : ℕ → ℕ → Value P F → Option ℕ → RedisStore S P F → Option (RedisStore S P F)
  set now key v ttl s = elim (usable now s) [
    | some m ↦ some record s { fallback = some (Memory.set now key v ttl m) }
    | none ↦ elim s.client [
      | none ↦ none
      | some client ↦ elim v [
        | plain p ↦
            if json.encodes_plain p
            then some record s {
              client = some (
                  server.setex key (ttl_or_default ttl s.default_ttl) (plain (json.recode_plain p))
                    client);
            }
            else none
        | fields d ↦ some record s {
          client = some (
              server.setex key (ttl_or_default ttl s.default_ttl) (fields (safe_fields json d))
                client);
          live = keep_live key (live_fields json d) s.live;
        }
      ]
    ]
  ]

  unfoldable pub delete : ℕ → ℕ → RedisStore S P F → Option (RedisStore S P F)
  delete now key s = elim (usable now s) [
    | some m ↦ some record s { fallback = some (Memory.delete key m) }
    | none ↦ elim s.client [
      | none ↦ none
      | some client ↦
          some record s { client = some (server.remove key client); live = erase key s.live }
    ]
  ]

  abbrev collect : S → RedisStore S P F → List ℕ → Dict (Value P F)
  collect client s [] = []
  collect client s (key ∷ keys) =
      let rest = collect client s keys in
      elim (read key client s) [ none ↦ rest | some v ↦ (key, v) ∷ rest ]

  unfoldable pub all : ℕ → RedisStore S P F → Option (RedisStore S P F × Dict (Value P F))
  all now s = elim (usable now s) [
    | some m ↦ let (m', found) = Memory.all now m in some (record s { fallback = some m' }, found)
    | none ↦ elim s.client [
      | none ↦ none
      | some client ↦ some (s, collect client s (server.scan client))
    ]
  ]

  unfoldable pub count : ℕ → RedisStore S P F → Option (RedisStore S P F × ℕ)
  count now s = elim (usable now s) [
    | some m ↦ let (m', n) = Memory.count now m in some (record s { fallback = some m' }, n)
    | none ↦ elim s.client [ none ↦ none | some client ↦ some (s, length (server.scan client)) ]
  ]

  -- `is_connected`
  abbrev pub is_connected : RedisStore S P F → Bool
  is_connected s = elim s.client [
    | none ↦ false
    | some _ ↦ elim s.fallback [ none ↦ true | some _ ↦ false ]
  ]

  -- The fallback is of no use: if the server does not answer at the start, every operation raises,
  -- with nothing stored, at any time.
  pub unreachable_raises :
      (now key default_ttl : ℕ) (v : Value P F) (ttl : Option ℕ)
      → let s = connect none default_ttl in
        ((get now key s ≡ none) × (set now key v ttl s ≡ none))
        × ((delete now key s ≡ none) × ((all now s ≡ none) × (count now s ≡ none)))
  unfolding get set delete all count Memory.count Memory.all
  unreachable_raises now key default_ttl v ttl = ((refl, refl), (refl, (refl, refl)))
