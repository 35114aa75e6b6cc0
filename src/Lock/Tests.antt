-- ===== src/Lock/Tests.antt =====
-- core/singleton_lock.py: runs of the model, and each theorem at an input.
use quantluna.Prelude.{◌≡◌, ◌≤◌, refl, true, false, none, some, List, [], ◌∷◌, length, ◌==◌}
use quantluna.Lock.{World, pid_is_alive, check, write, release, get_owner, owned, acquire}
use quantluna.Lock.Holders.{
  Event, starts, releases, ends, all_happen, all_happen-exclusive, both_hold,
}

abbrev free : World
free = record { file = none; alive = λ p. true; may_signal = λ p. true; acquired = [] }

-- The file names a process that has ended.
abbrev abandoned : World
abandoned = record {
  file = some (owned 9);
  alive = λ p. p == 4;
  may_signal = λ p. true;
  acquired = [];
}

taken_over : (acquire false 4 abandoned).0.acquired ≡ 4 ∷ []
unfolding acquire check pid_is_alive write
taken_over = refl

abbrev day : List Event
day = starts false 4 ∷ starts false 5 ∷ starts true 6 ∷ ends 6 ∷ starts false 7 ∷ releases 7 ∷ []

all_happen-exclusive_example : length (all_happen day abandoned).acquired ≤ 1
all_happen-exclusive_example = all_happen-exclusive day abandoned (λ p. refl) refl

-- The second process may not signal the first, which is of another user, and takes the lock too.
two_users :
    (acquire false 5 (record {
      file = some (owned 4);
      alive = λ p. true;
      may_signal = λ p. p == 5;
      acquired = 4 ∷ [];
    })).0.acquired
    ≡ 5 ∷ 4 ∷ []
unfolding acquire check pid_is_alive write
two_users = refl

both_hold_example :
    let after = write 5 (write 4 free) in
    ((check false free ≡ (free, true)) × (after.acquired ≡ 5 ∷ 4 ∷ []))
    × ((get_owner after ≡ some 5)
        × (((release 4 after).acquired ≡ 5 ∷ []) × ((release 4 after).file ≡ none)))
both_hold_example = both_hold 4 5 free refl refl refl
