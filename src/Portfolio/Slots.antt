-- ===== src/Portfolio/Slots.antt =====
-- risk/multi_pair_allocator.py: `_n_pairs`, the count of the pairs beside the dict of the pairs.
use quantluna.Prelude.{
  ℕ, suc, ◌≤◌, ◌≡◌, refl, ◌∙◌, ap, Bool, true, false, not, List, [], ◌∷◌, arith, length,
  if◌then◌else◌,
}
use quantluna.Prelude.Dict.{Dict, insert, erase, contains}
use quantluna.Prelude.Float.{Float}
use quantluna.Drawdown.Halting.{contains-insert}
use quantluna.Portfolio.Allocator.{
  Config, Allocator, Request, new, admit, request_entry, update_state, record_exit, manual_resume,
  portfolio_summary,
}
use quantluna.Portfolio.Agreement.{
  Call, entry, tick, exit, resume, report, call, calls, asked, entered, HasRoom, entry_keeps,
  entry_outcome,
}
use quantluna.Portfolio.Halts.{contains-erase}

-- No key of the dict is there twice.
abbrev IsDistinct : Dict ℕ → Type 0
IsDistinct [] = Unit
IsDistinct (item ∷ items) = (contains item.0 items ≡ false) × IsDistinct items

insert-IsDistinct : (k n : ℕ) (items : Dict ℕ) → IsDistinct items → IsDistinct (insert k n items)
insert-IsDistinct k n [] v = (refl, tt)
insert-IsDistinct k n (item ∷ items) v =
    grind (arith, v.0, v.1, insert-IsDistinct k n items, contains-insert item.0 k n items)

erase-IsDistinct : (k : ℕ) (items : Dict ℕ) → IsDistinct items → IsDistinct (erase k items)
erase-IsDistinct k [] v = tt
erase-IsDistinct k (item ∷ items) v =
    grind (arith, v.0, v.1, erase-IsDistinct k items, contains-erase item.0 k items)

length-insert :
    (k n : ℕ) (items : Dict ℕ)
    → contains k items ≡ false
    → length (insert k n items) ≡ suc (length items)
length-insert k n [] h = refl
length-insert k n (item ∷ items) h = grind (arith, h, length-insert k n items)

length-erase_absent :
    (k : ℕ) (items : Dict ℕ) → contains k items ≡ false → length (erase k items) ≡ length items
length-erase_absent k [] h = refl
length-erase_absent k (item ∷ items) h = grind (arith, h, length-erase_absent k items)

length-erase :
    (k : ℕ) (items : Dict ℕ)
    → IsDistinct items
    → contains k items ≡ true
    → suc (length (erase k items)) ≡ length items
length-erase k [] v h = absurd cc
length-erase k (item ∷ items) v h =
    grind (arith, v.0, v.1, h, length-erase k items, length-erase_absent k items)

-- The call enters no pair that is active, and exits none that is not.
abbrev pub is_orderly {ℓ} : {W : Type ℓ} → Call W → Allocator W → Bool
is_orderly (entry q) a = not (contains q.pair_id a.active_pairs)
is_orderly (exit k) a = contains k a.active_pairs
is_orderly _ a = true

both_true : (b : Bool) {b' : Bool} → (if b then b' else false) ≡ true → (b ≡ true) × (b' ≡ true)
both_true true h = (refl, h)
both_true false h = absurd cc

module _ {ℓ} {W : Type ℓ} ⦃f : Float W⦄ (cfg : Config W) where
  abbrev pub are_orderly : List (Call W) → Allocator W → Bool
  are_orderly [] a = true
  are_orderly (x ∷ xs) a = if is_orderly x a then are_orderly xs (call cfg x a) else false

  -- The count is right and within the maximum.
  abbrev IsCounted : Allocator W → Type 0
  IsCounted a =
      (a.n_pairs ≡ length a.active_pairs)
      × (a.n_pairs ≤ cfg.max_concurrent_pairs)
      × IsDistinct a.active_pairs

  entered-IsCounted :
      (q : Request W) (a : Allocator W)
      → contains q.pair_id a.active_pairs ≡ false
      → IsCounted a
      → HasRoom cfg q a
      → IsCounted (entered cfg q a)
  unfolding admit
  entered-IsCounted q a fresh v room = (
    omega (arith, v.0, length-insert q.pair_id (asked cfg q a) a.active_pairs fresh),
    omega (arith, room.1),
    insert-IsDistinct q.pair_id (asked cfg q a) a.active_pairs v.2,
  )

  exit-IsCounted :
      (k : ℕ) (a : Allocator W)
      → contains k a.active_pairs ≡ true
      → IsCounted a
      → IsCounted (record_exit cfg k a)
  unfolding record_exit
  exit-IsCounted k a known v =
      let fewer = length-erase k a.active_pairs v.2 known in
      (omega (arith, v.0, fewer), omega (arith, v.1), erase-IsDistinct k a.active_pairs v.2)

  call-IsCounted :
      (x : Call W) (a : Allocator W)
      → is_orderly x a ≡ true
      → IsCounted a
      → IsCounted (call cfg x a)
  unfolding call update_state manual_resume portfolio_summary
  call-IsCounted (entry q) a h v =
      entry_keeps cfg IsCounted q a v (entered-IsCounted q a (grind (arith, h)) v)
  call-IsCounted (tick profits) a h v = v
  call-IsCounted (exit k) a h v = exit-IsCounted k a h v
  call-IsCounted resume a h v = v
  call-IsCounted report a h v = v

  calls-IsCounted :
      (xs : List (Call W)) (a : Allocator W)
      → are_orderly xs a ≡ true
      → IsCounted a
      → IsCounted (calls cfg xs a)
  unfolding calls
  calls-IsCounted [] a h v = v
  calls-IsCounted (x ∷ xs) a h v =
      let (first, rest) = both_true (is_orderly x a) h in
      calls-IsCounted xs (call cfg x a) rest (call-IsCounted x a first v)

  -- If the calls on a new allocator enter no pair that is active and exit none that is not, the count
  -- is that of the active pairs and at most the maximum.
  pub slots_counted :
      (xs : List (Call W))
      → are_orderly xs (new cfg) ≡ true
      → let a = calls cfg xs (new cfg) in
        (a.n_pairs ≡ length a.active_pairs) × (length a.active_pairs ≤ cfg.max_concurrent_pairs)
  slots_counted xs h =
      let v = calls-IsCounted xs (new cfg) h (refl, omega arith, tt) in
      (v.0, omega (arith, v.0, v.1))

  admitted_count :
      (q : Request W) (a : Allocator W)
      → contains q.pair_id a.active_pairs ≡ false
      → (request_entry cfg q a).1.allowed ≡ true
      → length (request_entry cfg q a).0.active_pairs ≡ suc (length a.active_pairs)
  unfolding admit
  admitted_count q a fresh ok =
      let more = length-insert q.pair_id (asked cfg q a) a.active_pairs fresh in
      grind (arith, ok, more, entry_outcome cfg q a)

  -- After orderly calls on a new allocator that fill every place, an exit of a pair that is not
  -- active and then an admitted request for a new pair leave one active pair more than the maximum.
  pub over_maximum :
      (xs : List (Call W)) (other : ℕ) (q : Request W)
      → are_orderly xs (new cfg) ≡ true
      → let a = calls cfg xs (new cfg) in
        length a.active_pairs ≡ cfg.max_concurrent_pairs
        → contains other a.active_pairs ≡ false
        → contains q.pair_id a.active_pairs ≡ false
        → (request_entry cfg q (record_exit cfg other a)).1.allowed ≡ true
        → length (request_entry cfg q (record_exit cfg other a)).0.active_pairs
          ≡ suc cfg.max_concurrent_pairs
  unfolding record_exit
  over_maximum xs other q h full absent fresh ok =
      let a = calls cfg xs (new cfg) in
      let still_fresh = contains-erase q.pair_id other a.active_pairs in
      let more =
        admitted_count q (record_exit cfg other a) (grind (arith, fresh, still_fresh)) ok in
      more ∙ ap suc (length-erase_absent other a.active_pairs absent ∙ full)
