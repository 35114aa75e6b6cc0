-- ===== src/Lock.antt =====
-- core/singleton_lock.py: `SingletonLock`, a file that keeps a second runner from starting. A process is
-- its number; the file and the processes that run are shared by all.
pub mod Holders
mod Tests
use quantluna.Prelude.{
  ℕ, Bool, true, false, not, ◌&&◌, Option, none, some, List, [], ◌∷◌, ◌==◌, if◌then◌else◌,
}

-- The lock file: text that is no JSON, JSON without a process, or the process that it names.
pub data Content : Type 0 where
  corrupt : Content
  nameless : Content
  owned : ℕ → Content

-- `acquired` has the processes whose `_acquired` is set. A process that may not be signalled belongs to
-- another user.
pub record World : Type 0 where
  pub file : Option Content
  pub alive : ℕ → Bool
  pub may_signal : ℕ → Bool
  pub acquired : List ℕ

abbrev pub holds : ℕ → List ℕ → Bool
holds p [] = false
holds p (q ∷ qs) = let rest = holds p qs in if p == q then true else rest

abbrev pub without : ℕ → List ℕ → List ℕ
without p [] = []
without p (q ∷ qs) = let rest = without p qs in if p == q then rest else q ∷ rest

-- `_pid_is_alive`: `os.kill(pid, 0)` raises an OSError for a process that has ended, and a
-- PermissionError, which is one, for a process of another user.
unfoldable pub pid_is_alive : ℕ → World → Bool
pid_is_alive p w = w.alive p && w.may_signal p

-- `os.kill(pid, 9)` of a process that may be signalled.
abbrev pub kill : ℕ → World → World
kill p w = record w {
  alive = λ q. if q == p then false else w.alive q;
  acquired = without p w.acquired;
}

-- The first part of `acquire`, which reads the file: whether to go on, after a forced takeover has
-- killed the owner.
unfoldable pub check : Bool → World → World × Bool
check force w = elim w.file [
  | none ↦ (w, true)
  | some corrupt ↦ (w, true)
  | some nameless ↦ (w, true)
  | some (owned p) ↦
      if not (p == 0) && pid_is_alive p w
      then if force then (kill p w, true) else (w, false)
      else (w, true)
]

-- The second part, which writes the file.
unfoldable pub write : ℕ → World → World
write p w = record w { file = some (owned p); acquired = p ∷ w.acquired }

-- `acquire` with no other process in between. A process that has killed itself goes no further.
unfoldable pub acquire : Bool → ℕ → World → World × Bool
acquire force p w =
    let (w', go) = check force w in if go && w'.alive p then (write p w', true) else (w', false)

unfoldable pub release : ℕ → World → World
release p w = record w {
  file = if holds p w.acquired then none else w.file;
  acquired = without p w.acquired;
}

-- `get_owner`
abbrev pub get_owner : World → Option ℕ
get_owner w = elim w.file [
  | none ↦ none
  | some corrupt ↦ none
  | some nameless ↦ none
  | some (owned p) ↦ some p
]
