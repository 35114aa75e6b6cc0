-- ===== src/Lock/Holders.antt =====
-- core/singleton_lock.py: how many processes hold the lock.
use quantluna.Prelude.{
  ℕ, suc, ◌≤◌, ◌≡◌, ◌⊎◌, inl, inr, refl, Bool, true, ◌∙◌, ◌&&◌, false, none, some, List, [], ◌∷◌,
  ◌==◌, arith, length, Bool-cases, ap, if◌then◌else◌,
}
use quantluna.Lock.{pid_is_alive, owned, World, kill, check, write, acquire, release, get_owner}

-- A new process that acquires, by force or not (its number above 0; a number that is in use is that of no
-- new process), one that releases, and one that ends without a release.
pub data Event : Type 0 where
  starts : Bool → ℕ → Event
  releases : ℕ → Event
  ends : ℕ → Event

abbrev pub begun : ℕ → World → World
begun n w = record w { alive = λ q. if q == suc n then true else w.alive q }

unfoldable pub happens : Event → World → World
happens (starts force n) w = if w.alive (suc n) then w else (acquire force (suc n) (begun n w)).0
happens (releases n) w = release (suc n) w
happens (ends n) w = kill (suc n) w

unfoldable pub all_happen : List Event → World → World
all_happen [] w = w
all_happen (e ∷ es) w = all_happen es (happens e w)

-- Every process may be signalled.
abbrev pub IsOneUser : World → Type 0
IsOneUser w = (p : ℕ) → w.may_signal p ≡ true

-- No process holds the lock, or one that runs and that the file names.
abbrev IsSingle : World → Type 0
IsSingle w =
    (w.acquired ≡ [])
    ⊎ ((n : ℕ) × ((w.acquired ≡ suc n ∷ [])
          × ((w.file ≡ some (owned (suc n))) × (w.alive (suc n) ≡ true))))

write-IsSingle :
    (m : ℕ) (w : World) → w.alive (suc m) ≡ true → w.acquired ≡ [] → IsSingle (write (suc m) w)
unfolding write
write-IsSingle m w runs h = inr (m, (ap (λ ps. suc m ∷ ps) h, (refl, runs)))

-- What `check` leaves: nobody holds the lock and the others run as before, or it says no.
check-free : (force : Bool) (w : World) → w.acquired ≡ [] → ((check force w).0.acquired ≡ [])
unfolding check
check-free force w h = grind (arith, h)

write_or_not :
    (p : ℕ) (b : Bool) (w : World)
    → IsSingle w
    → (b ≡ true → IsSingle (write p w))
    → IsSingle (if◌then◌else◌ {A = World × Bool} b (write p w, true) (w, false)).0
write_or_not p true w h h' = h' refl
write_or_not p false w h h' = h

acquire-free :
    (force : Bool) (m : ℕ) (w : World)
    → (check force w).0.acquired ≡ []
    → IsSingle (acquire force (suc m) w).0
unfolding acquire
acquire-free force m w h =
    let (after, go) = check force w in
    write_or_not (suc m) (go && after.alive (suc m)) after (inl h)
      (λ e. write-IsSingle m after (grind (arith, e)) h)

-- A file that names a process that runs and may be signalled.
check-owned :
    (force : Bool) (n : ℕ) (w : World)
    → w.file ≡ some (owned (suc n))
    → w.alive (suc n) ≡ true
    → w.may_signal (suc n) ≡ true
    → check force w ≡ (if force then (kill (suc n) w, true) else (w, false))
unfolding check pid_is_alive
check-owned force n w k l u = grind (arith, k, l, u)

refused :
    (m n : ℕ) (w : World)
    → w.file ≡ some (owned (suc n))
    → w.alive (suc n) ≡ true
    → w.may_signal (suc n) ≡ true
    → acquire false (suc m) w ≡ (w, false)
unfolding acquire
refused m n w k l u = rw (check-owned false n w k l u) refl

acquire-held :
    (force : Bool) (m n : ℕ) (w : World)
    → w.acquired ≡ suc n ∷ []
    → w.file ≡ some (owned (suc n))
    → w.alive (suc n) ≡ true
    → w.may_signal (suc n) ≡ true
    → IsSingle (acquire force (suc m) w).0
acquire-held true m n w h k l u =
    acquire-free true m w
      (ap (λ r. r.0.acquired) (check-owned true n w k l u) ∙ rw h (ground arith))
acquire-held false m n w h k l u = rw (refused m n w k l u) (inr (n, (h, (k, l))))

acquire-IsSingle :
    (force : Bool) (m : ℕ) (w : World)
    → IsOneUser w
    → w.alive (suc m) ≡ false
    → IsSingle w
    → IsSingle (acquire force (suc m) (begun m w)).0
acquire-IsSingle force m w user new (inl h) =
    acquire-free force m (begun m w) (check-free force (begun m w) h)
acquire-IsSingle force m w user new (inr (n, (h, (k, l)))) =
    acquire-held force m n (begun m w) h k (ground (arith, l)) (user (suc n))

either-IsSingle :
    (b : Bool) (w w' : World)
    → (b ≡ true → IsSingle w)
    → (b ≡ false → IsSingle w')
    → IsSingle (if b then w else w')
either-IsSingle true w w' h h' = h refl
either-IsSingle false w w' h h' = h' refl

happens-IsOneUser : (e : Event) (w : World) → IsOneUser w → IsOneUser (happens e w)
unfolding happens acquire check write release
happens-IsOneUser e w user p = grind (arith, user p)

happens-IsSingle : (e : Event) (w : World) → IsOneUser w → IsSingle w → IsSingle (happens e w)
unfolding happens release
happens-IsSingle (starts force m) w user h =
    either-IsSingle (w.alive (suc m)) w _ (λ _. h) (λ new. acquire-IsSingle force m w user new h)
happens-IsSingle (releases m) w user (inl h) = inl (rw h refl)
happens-IsSingle (releases m) w user (inr (n, (h, (k, l)))) = elim (Bool-cases (suc m == suc n)) [
  | inl e ↦ inl (rw (h, e) refl)
  | inr e ↦ inr (n, (rw (h, e) refl, (rw (h, e) k, l)))
]
happens-IsSingle (ends m) w user (inl h) = inl (rw h refl)
happens-IsSingle (ends m) w user (inr (n, (h, (k, l)))) = elim (Bool-cases (suc m == suc n)) [
  | inl e ↦ inl (rw (h, e) refl)
  | inr e ↦ inr (n, (rw (h, e) refl, (k, ground (arith, l, e))))
]

all_happen-IsSingle :
    (es : List Event) (w : World) → IsOneUser w → IsSingle w → IsSingle (all_happen es w)
unfolding all_happen
all_happen-IsSingle [] w user h = h
all_happen-IsSingle (e ∷ es) w user h =
    all_happen-IsSingle es (happens e w) (happens-IsOneUser e w user) (happens-IsSingle e w user h)

single-length : (w : World) → IsSingle w → length w.acquired ≤ 1
single-length w (inl h) = rw h (omega arith)
single-length w (inr (n, (h, _))) = rw h (omega arith)

-- Where all processes are of one user and none acts between the read and the write of another, at most
-- one process holds the lock: whatever the file said before, whatever processes start, with or without
-- force, release or end without a release, in any order, if none held it at first.
pub all_happen-exclusive :
    (es : List Event) (w : World)
    → IsOneUser w
    → w.acquired ≡ []
    → length (all_happen es w).acquired ≤ 1
all_happen-exclusive es w user h =
    single-length (all_happen es w) (all_happen-IsSingle es w user (inl h))

-- The read and the write are not one step: of two processes that both read before either writes, both
-- hold the lock, and when the first releases, the file of the second is gone.
pub both_hold :
    (p q : ℕ) (w : World)
    → w.file ≡ none
    → w.acquired ≡ []
    → (p == q) ≡ false
    → let after = write q (write p w) in
      ((check false w ≡ (w, true)) × (after.acquired ≡ q ∷ p ∷ []))
      × ((get_owner after ≡ some q)
          × (((release p after).acquired ≡ q ∷ []) × ((release p after).file ≡ none)))
unfolding check write release
both_hold p q w e h ne = ground arith
