-- ===== src/Store/Tests.antt =====
-- core/store.py: runs of the model, and each theorem at an input.
use quantluna.Prelude.{
  ℕ, ◌≡◌, refl, true, false, none, some, List, [], ◌∷◌, ltb, inl, inr, length, drop, ◌-◌,
}
use quantluna.Prelude.Dict.{Dict, lookup}
use quantluna.Store.Memory
use quantluna.Store.Memory.{MemoryStore}
use quantluna.Store.Sqlite
use quantluna.Store.Sqlite.{Value, plain, fields, Json, SqliteStore}
use quantluna.Store.Sqlite.Backends.{
  Operation, memory_answers, sqlite_answers, backends_agree, stale_field,
}
use quantluna.Store.Redis
use quantluna.Store.Redis.{RedisStore, Server, connect, unreachable_raises}
use quantluna.Store.Jobs.{
  Job, evict_done, evict_done_keeps, to_evict, to_evict_oldest, over, oldest_first, IsBefore,
}

-- Numbers below 100 are encoded, as themselves.
abbrev json : Json ℕ ℕ
json = record {
  null = 0;
  encodes = λ v. ltb v 100;
  recode = λ v. v;
  encodes_plain = λ v. ltb v 100;
  recode_plain = λ v. v;
  error_fields = λ v. [];
}

abbrev ops : List (ℕ × Operation (Value ℕ ℕ))
ops =
    (0, Operation.set 7 (fields ((1, 5) ∷ [])) (some 10))
    ∷ (10, Operation.get 7)
    ∷ (11, Operation.get 7)
    ∷ (12, Operation.set 7 (plain 3) none)
    ∷ (13, Operation.get 7)
    ∷ (14, Operation.delete 7)
    ∷ (15, Operation.get 7)
    ∷ []

answers :
    memory_answers ops Memory.new ≡ some (fields ((1, 5) ∷ [])) ∷ none ∷ some (plain 3) ∷ none ∷ []
unfolding memory_answers Memory.get Memory.set Memory.delete Memory.is_expired
answers = refl

backends_agree_example : sqlite_answers json ops Sqlite.new ≡ memory_answers ops Memory.new
backends_agree_example = backends_agree json ops Memory.new (((refl, refl), tt), ((refl, refl), tt))

stale_field_example :
    let written =
      Sqlite.set json 6 7
        (fields ((2, 4) ∷ []))
        none
        (Sqlite.set json 5 7 (fields ((1, 500) ∷ [])) none Sqlite.new) in
    (read : Dict ℕ) × (((Sqlite.get 6 7 written).1 ≡ some (fields read))
      × (lookup 1 read ≡ some 500))
stale_field_example =
    stale_field json 5 6 7 1 500 ((1, 500) ∷ []) ((2, 4) ∷ []) Sqlite.new refl refl
      ((refl, refl), tt)

-- A server that keeps nothing.
abbrev server : Server ℕ (Value ℕ ℕ)
server = record {
  fetch = λ key s. none;
  setex = λ key ttl v s. s;
  remove = λ key s. s;
  scan = λ s. [];
}

unreachable_raises_example :
    let s = connect server json none 60 in
    ((Redis.get server json 5 7 s ≡ none) × (Redis.set server json 5 7 (plain 3) none s ≡ none))
    × ((Redis.delete server json 5 7 s ≡ none)
        × ((Redis.all server json 5 s ≡ none) × (Redis.count server json 5 s ≡ none)))
unreachable_raises_example = unreachable_raises server json 5 7 60 (plain 3) none

abbrev job : ℕ → ℕ → Job
job id created_at = record { job_id = id; is_over = true; created_at = created_at }

abbrev jobs : MemoryStore Job
jobs = record {
  data_of =
      (1, (job 1 30, none))
      ∷ (2, (record { job_id = 2; is_over = false; created_at = 5 }, none))
      ∷ (3, (job 3 10, none))
      ∷ (4, (job 4 20, none))
      ∷ [];
}

evicted : (evict_done 0 4 1 jobs).1 ≡ 2
unfolding evict_done to_evict Memory.all
evicted = refl

evict_done_keeps_example :
    lookup 2 (evict_done 0 4 1 jobs).0.data_of ≡ lookup 2 (Memory.all 0 jobs).0.data_of
unfolding Memory.all
evict_done_keeps_example =
    evict_done_keeps 0 4 1 2 jobs (inr refl, (inl refl, (inr refl, (inr refl, tt))))

abbrev listed : Dict Job
listed = (1, job 1 30) ∷ (3, job 3 10) ∷ (4, job 4 20) ∷ []

to_evict_oldest_example :
    (length (to_evict 1 listed) ≡ 2)
    × IsBefore (to_evict 1 listed) (drop (length (over listed) - 1) (oldest_first (over listed)))
to_evict_oldest_example = to_evict_oldest 1 listed
