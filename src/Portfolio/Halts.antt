-- ===== src/Portfolio/Halts.antt =====
-- risk/multi_pair_allocator.py: the hard stop of the drawdown controller, which a resume ends.
use quantluna.Prelude.{
  ℕ, ◌≡◌, refl, ◌∙◌, ap, inl, Bool, true, false, List, [], ◌∷◌, arith, ◌==◌, if◌then◌else◌,
}
use quantluna.Prelude.Dict.{Dict, insert, erase, contains, lookup-erase}
use quantluna.Prelude.Float.{Float}
use quantluna.Drawdown
use quantluna.Drawdown.Halting
use quantluna.Drawdown.Halting.{
  contains-insert, mark_pairs-kept, IsHalted, call-IsHalted, updates, closes, update-IsHalted,
  has_key, hard_stop_closes_all,
}
use quantluna.Portfolio.Allocator.{
  Config, Allocator, Request, new, admit, request_entry, update_state, record_exit, manual_resume,
  portfolio_summary,
}
use quantluna.Portfolio.Agreement.{
  Call, entry, tick, exit, resume, report, call, calls, asked, entered, entry_keeps, entry_outcome,
}

pub contains-erase {ℓ} :
    {A : Type ℓ} (j k : ℕ) (items : Dict A)
    → contains j (erase k items) ≡ (if j == k then false else contains j items)
contains-erase j k items = grind (arith, lookup-erase j k items)

module _ {ℓ} {W : Type ℓ} ⦃f : Float W⦄ (cfg : Config W) (pair : ℕ) where
  -- The drawdown controller knows the pair if it is active.
  abbrev IsKnown : Dict ℕ → Dict (Drawdown.PairState W) → Type 0
  IsKnown active states = contains pair active ≡ true → contains pair states ≡ true

  insert-IsKnown :
      (k n : ℕ) (s : Drawdown.PairState W) (active : Dict ℕ) (states : Dict (Drawdown.PairState W))
      → IsKnown active states
      → IsKnown (insert k n active) (insert k s states)
  insert-IsKnown k n s active states v h =
      grind (arith, v, h, contains-insert pair k n active, contains-insert pair k s states)

  erase-IsKnown :
      (k : ℕ) (active : Dict ℕ) (states : Dict (Drawdown.PairState W))
      → IsKnown active states
      → IsKnown (erase k active) (erase k states)
  erase-IsKnown k active states v h =
      grind (arith, v, h, contains-erase pair k active, contains-erase pair k states)

  conclude-pairs :
      (total : W) (pairs : List ℕ) (c : Drawdown.Controller W)
      → (Drawdown.conclude cfg.drawdown total pairs c).0.pair_states ≡ c.pair_states
  unfolding Drawdown.conclude Drawdown.set_level
  conclude-pairs total pairs c = grind arith

  update-kept :
      (profits : List (ℕ × W)) (c : Drawdown.Controller W)
      → contains pair c.pair_states ≡ true
      → contains pair (Drawdown.update cfg.drawdown profits c).0.pair_states ≡ true
  unfolding Drawdown.update
  update-kept profits c h =
      let (marked, total, pairs) = Drawdown.mark_pairs cfg.drawdown profits f.nought c in
      ap (contains pair) (conclude-pairs total pairs marked)
      ∙ mark_pairs-kept cfg.drawdown profits f.nought c pair h

  abbrev KnowsActive : Allocator W → Type 0
  KnowsActive a = IsKnown a.active_pairs a.dd.pair_states

  entered-KnowsActive :
      (q : Request W) (a : Allocator W) → KnowsActive a → KnowsActive (entered cfg q a)
  unfolding admit Drawdown.open_pair
  entered-KnowsActive q a v =
      insert-IsKnown q.pair_id (asked cfg q a) (Drawdown.fresh_pair cfg.drawdown a.dd)
        a.active_pairs a.dd.pair_states v

  call-KnowsActive : (x : Call W) (a : Allocator W) → KnowsActive a → KnowsActive (call cfg x a)
  unfolding call update_state record_exit manual_resume portfolio_summary Drawdown.manual_resume
      Drawdown.close_pair
  call-KnowsActive (entry q) a v =
      entry_keeps cfg KnowsActive q a v (λ room. entered-KnowsActive q a v)
  call-KnowsActive (tick profits) a v = λ h. update-kept profits a.dd (v h)
  call-KnowsActive (exit k) a v = erase-IsKnown k a.active_pairs a.dd.pair_states v
  call-KnowsActive resume a v = grind (arith, v)
  call-KnowsActive report a v = v

  calls-KnowsActive :
      (xs : List (Call W)) (a : Allocator W) → KnowsActive a → KnowsActive (calls cfg xs a)
  unfolding calls
  calls-KnowsActive [] a v = v
  calls-KnowsActive (x ∷ xs) a v = calls-KnowsActive xs (call cfg x a) (call-KnowsActive x a v)

-- A call that is not `manual_resume`.
abbrev pub is_resume {ℓ} : {W : Type ℓ} → Call W → Bool
is_resume resume = true
is_resume _ = false

-- None of the calls is `manual_resume`.
abbrev pub none_resumes {ℓ} : {W : Type ℓ} → List (Call W) → Bool
none_resumes [] = true
none_resumes (x ∷ xs) = if is_resume x then false else none_resumes xs

pub both_false :
    (b : Bool) {b' : Bool} → (if b then false else b') ≡ true → (b ≡ false) × (b' ≡ true)
both_false true h = absurd cc
both_false false h = (refl, h)

module _ {ℓ} {W : Type ℓ} ⦃f : Float W⦄ (cfg : Config W) where
  -- The drawdown controller is halted.
  abbrev IsStopped : Allocator W → Type 0
  IsStopped a = IsHalted cfg.drawdown a.dd

  stopped_refuses :
      (q : Request W) (a : Allocator W)
      → IsStopped a
      → ((request_entry cfg q a).0 ≡ a) × ((request_entry cfg q a).1.allowed ≡ false)
  stopped_refuses q a v = grind (arith, v.1, entry_outcome cfg q a)

  call-IsStopped :
      (x : Call W) (a : Allocator W) → is_resume x ≡ false → IsStopped a → IsStopped (call cfg x a)
  unfolding call update_state record_exit portfolio_summary Halting.call
  call-IsStopped (entry q) a h v =
      entry_keeps cfg IsStopped q a v (λ room. absurd (grind (arith, v.1, room.0)))
  call-IsStopped (tick profits) a h v = call-IsHalted cfg.drawdown (updates profits) a.dd v
  call-IsStopped (exit k) a h v = call-IsHalted cfg.drawdown (closes k) a.dd v
  call-IsStopped resume a h v = absurd cc
  call-IsStopped report a h v = v

  calls-IsStopped :
      (xs : List (Call W)) (a : Allocator W)
      → none_resumes xs ≡ true
      → IsStopped a
      → IsStopped (calls cfg xs a)
  unfolding calls
  calls-IsStopped [] a h v = v
  calls-IsStopped (x ∷ xs) a h v =
      let (first, rest) = both_false (is_resume x) h in
      calls-IsStopped xs (call cfg x a) rest (call-IsStopped x a first v)

  -- After any calls on a new allocator, let an update have a drawdown of at least the hard limit. Then
  -- each active pair is among those to close, and until a resume every request is refused and changes
  -- nothing, whatever calls come in between.
  pub hard_stop_exits_active :
      (xs ys : List (Call W)) (profits : List (ℕ × W)) (pair : ℕ) (q : Request W)
      → let a = calls cfg xs (new cfg) in
        let (after, snap) = update_state cfg profits a in
        f.le cfg.drawdown.portfolio_hard_dd snap.portfolio_dd_pct ≡ true
        → contains pair a.active_pairs ≡ true
        → none_resumes ys ≡ true
        → let later = calls cfg ys after in
          (has_key pair snap.pairs_force_close ≡ true)
          × ((request_entry cfg q later).0 ≡ later)
          × ((request_entry cfg q later).1.allowed ≡ false)
  unfolding update_state
  hard_stop_exits_active xs ys profits pair q deep active quiet =
      let a = calls cfg xs (new cfg) in
      let known = calls-KnowsActive cfg pair xs (new cfg) (λ h. h) active in
      let stop = hard_stop_closes_all cfg.drawdown profits a.dd pair deep (inl known) in
      let halted = update-IsHalted cfg.drawdown profits a.dd stop.0 in
      let refused =
        stopped_refuses q (calls cfg ys (update_state cfg profits a).0)
          (calls-IsStopped ys (update_state cfg profits a).0 quiet halted) in
      (stop.2, refused.0, refused.1)
