-- ===== src/Store/Jobs.antt =====
-- core/store.py: `JobStore.evict_done`, on the memory backend.
use quantluna.Prelude.{
  ℕ, ◌-◌, ◌≤◌, ◌≡◌, refl, ◌⊎◌, inl, inr, Bool, false, List, [], ◌∷◌, ltb, leb, length, arith,
  if◌then◌else◌, All, ◌==◌, zero, suc, take, drop, length-take, Bool-cases, ◌∙◌, tests, ap,
}
use quantluna.Prelude.Dict.{Dict, lookup, lookup-erase}
use quantluna.Store.Memory
use quantluna.Store.Memory.{MemoryStore, Timed, fresh, values}

-- The fields of a job that the method reads: its id, whether its status is `done` or `error`, and the
-- time of its creation (ISO texts are ordered as the times that they name).
pub record Job : Type 0 where
  pub job_id : ℕ
  pub is_over : Bool
  pub created_at : ℕ

abbrev pub over : Dict Job → List Job
over [] = []
over ((_, j) ∷ d) = let rest = over d in if j.is_over then j ∷ rest else rest

-- `sorted(…, key=…)`, which is stable
abbrev pub place : Job → List Job → List Job
place j [] = j ∷ []
place j (i ∷ js) =
    let rest = place j js in if leb j.created_at i.created_at then j ∷ i ∷ js else i ∷ rest

abbrev pub oldest_first : List Job → List Job
oldest_first [] = []
oldest_first (j ∷ js) = place j (oldest_first js)

abbrev pub delete_all : List Job → MemoryStore Job → MemoryStore Job
delete_all [] m = m
delete_all (j ∷ js) m = delete_all js (Memory.delete j.job_id m)

-- The jobs that go.
unfoldable pub to_evict : ℕ → Dict Job → List Job
to_evict keep_last jobs = take (length (over jobs) - keep_last) (oldest_first (over jobs))

unfoldable pub evict_done : ℕ → ℕ → ℕ → MemoryStore Job → MemoryStore Job × ℕ
evict_done now max_total keep_last m =
    let (kept, jobs) = Memory.all now m in
    if ltb (length jobs) max_total
    then (kept, 0)
    else (delete_all (to_evict keep_last jobs) kept, length (to_evict keep_last jobs))

-- No job of the list has this id.
abbrev Lacks : ℕ → List Job → Type 0
Lacks key js = All (λ j. (key == j.job_id) ≡ false) js

-- Every job of the store with this id is queued or running.
abbrev pub Runs : ℕ → Dict Job → Type 0
Runs key [] = Unit
Runs key ((_, j) ∷ d) = ((j.is_over ≡ false) ⊎ ((key == j.job_id) ≡ false)) × Runs key d

over-Lacks : (key : ℕ) (d : Dict Job) → Runs key d → Lacks key (over d)
over-Lacks key [] h = tt
over-Lacks key ((_, j) ∷ d) h = ground (arith, over-Lacks key d)

place-All : (P : Job → Type 0) (j : Job) (js : List Job) → P j → All P js → All P (place j js)
place-All P j [] p h = (p, tt)
place-All P j (i ∷ js) p h = elim (Bool-cases (leb j.created_at i.created_at)) [
  | inl e ↦ rw e (p, h)
  | inr e ↦ rw e (h.0, place-All P j js p h.1)
]

sort-All : (P : Job → Type 0) (js : List Job) → All P js → All P (oldest_first js)
sort-All P [] h = tt
sort-All P (j ∷ js) h = place-All P j (oldest_first js) h.0 (sort-All P js h.1)

take-All : (P : Job → Type 0) (n : ℕ) (js : List Job) → All P js → All P (take n js)
take-All P zero js h = tt
take-All P (suc n) [] h = tt
take-All P (suc n) (j ∷ js) h = (h.0, take-All P n js h.1)

delete_all-Lacks :
    (key : ℕ) (js : List Job) (m : MemoryStore Job)
    → Lacks key js
    → lookup key (delete_all js m).data_of ≡ lookup key m.data_of
unfolding Memory.delete
delete_all-Lacks key [] m h = refl
delete_all-Lacks key (j ∷ js) m h =
    delete_all-Lacks key js (Memory.delete j.job_id m) h.1
    ∙ (lookup-erase key j.job_id m.data_of ∙ rw h.0 refl)

-- A job that is queued or running is not evicted: what the store holds for its id, once what has
-- expired is gone, stays as it is.
pub evict_done_keeps :
    (now max_total keep_last key : ℕ) (m : MemoryStore Job)
    → Runs key (Memory.all now m).1
    → lookup key (evict_done now max_total keep_last m).0.data_of
      ≡ lookup key (Memory.all now m).0.data_of
unfolding evict_done to_evict
evict_done_keeps now max_total keep_last key m h =
    let (kept, jobs) = Memory.all now m in
    elim (Bool-cases (ltb (length jobs) max_total)) [
      | inl e ↦ rw e refl
      | inr e ↦ rw e (
          delete_all-Lacks key (to_evict keep_last jobs) kept
            (take-All _ _ _ (sort-All _ (over jobs) (over-Lacks key jobs h))))
    ]

-- Every job of the first list is at most as new as every one of the second.
abbrev pub IsBefore : List Job → List Job → Type 0
IsBefore xs ys = All (λ x. All (λ y. x.created_at ≤ y.created_at) ys) xs

abbrev IsSorted : List Job → Type 0
IsSorted [] = Unit
IsSorted (j ∷ js) = All (λ i. j.created_at ≤ i.created_at) js × IsSorted js

All-le :
    (a b : ℕ) (js : List Job)
    → b ≤ a
    → All (λ j. a ≤ j.created_at) js
    → All (λ j. b ≤ j.created_at) js
All-le a b [] le h = tt
All-le a b (j ∷ js) le h = (omega arith, All-le a b js le h.1)

place-IsSorted : (j : Job) (js : List Job) → IsSorted js → IsSorted (place j js)
place-IsSorted j [] h = (tt, tt)
place-IsSorted j (i ∷ js) h = elim (Bool-cases (leb j.created_at i.created_at)) [
  | inl e ↦ rw e ((omega tests, All-le i.created_at j.created_at js (omega tests) h.0), h)
  | inr e ↦ rw e (
    place-All (λ k. i.created_at ≤ k.created_at) j js (ground arith) h.0,
    place-IsSorted j js h.1,
  )
]

sort-IsSorted : (js : List Job) → IsSorted (oldest_first js)
sort-IsSorted [] = tt
sort-IsSorted (j ∷ js) = place-IsSorted j (oldest_first js) (sort-IsSorted js)

drop-All : (P : Job → Type 0) (n : ℕ) (js : List Job) → All P js → All P (drop n js)
drop-All P zero js h = h
drop-All P (suc n) [] h = tt
drop-All P (suc n) (j ∷ js) h = drop-All P n js h.1

IsSorted-IsBefore : (n : ℕ) (js : List Job) → IsSorted js → IsBefore (take n js) (drop n js)
IsSorted-IsBefore zero js h = tt
IsSorted-IsBefore (suc n) [] h = tt
IsSorted-IsBefore (suc n) (j ∷ js) h =
    (drop-All (λ i. j.created_at ≤ i.created_at) n js h.0, IsSorted-IsBefore n js h.1)

length-place : (j : Job) (js : List Job) → length (place j js) ≡ suc (length js)
length-place j [] = refl
length-place j (i ∷ js) = ground (arith, length-place j js)

length-sort : (js : List Job) → length (oldest_first js) ≡ length js
length-sort [] = refl
length-sort (j ∷ js) = length-place j (oldest_first js) ∙ ap suc (length-sort js)

-- What an eviction takes: all but `keep_last` of the jobs that are over, or none of them if they are
-- no more, and those it takes are at most as new as those it leaves.
pub to_evict_oldest :
    (keep_last : ℕ) (jobs : Dict Job)
    → (length (to_evict keep_last jobs) ≡ length (over jobs) - keep_last)
      × IsBefore
          (to_evict keep_last jobs)
          (drop (length (over jobs) - keep_last) (oldest_first (over jobs)))
unfolding to_evict
to_evict_oldest keep_last jobs =
    let sizes = length-sort (over jobs) in
    (
      omega (arith, length-take (length (over jobs) - keep_last) (oldest_first (over jobs))),
      IsSorted-IsBefore _ (oldest_first (over jobs)) (sort-IsSorted (over jobs)),
    )
