-- ===== src/Drawdown/Halting.antt =====
-- risk/drawdown_controller.py: what a hard stop leaves in force.
use quantluna.Prelude.{
  ℕ, ◌≡◌, refl, ◌∙◌, ◌⊎◌, inl, inr, Bool, true, false, List, [], ◌∷◌, arith, ◌==◌, if◌then◌else◌,
}
use quantluna.Prelude.Dict.{Dict, insert, contains, lookup-insert}
use quantluna.Prelude.Float.{Float}
use quantluna.Drawdown.{
  hard_stop, Config, Controller, keys, open_pair, close_pair, mark_pair, mark_pairs, set_level,
  conclude, update, manual_resume, can_open_new,
}

-- The pairs of a dict.
abbrev pub has_key : ℕ → List ℕ → Bool
has_key x [] = false
has_key x (y ∷ ys) = if x == y then true else has_key x ys

keys-has_key {ℓ} : {A : Type ℓ} (x : ℕ) (items : Dict A) → has_key x (keys items) ≡ contains x items
keys-has_key x [] = refl
keys-has_key x (item ∷ items) = grind (arith, keys-has_key x items)

pub contains-insert {ℓ} :
    {A : Type ℓ} (j k : ℕ) (value : A) (items : Dict A)
    → contains j (insert k value items) ≡ (if j == k then true else contains j items)
contains-insert j k value items = grind (arith, lookup-insert j k value items)

pub or_true : (b : Bool) {b' : Bool} → b' ≡ true → (if b then true else b') ≡ true
or_true true h = refl
or_true false h = h

first_or : (b : Bool) {b' : Bool} → (if b then true else b') ≡ true → (b ≡ true) ⊎ (b' ≡ true)
first_or true h = inl refl
first_or false h = inr h

-- The calls that may come after a hard stop, but for a resume.
pub data Call {ℓ} (W : Type ℓ) : Type ℓ where
  opens closes : ℕ → Call W
  updates : List (ℕ × W) → Call W

module _ {ℓ} {W : Type ℓ} ⦃f : Float W⦄ (cfg : Config W) where
  unfoldable pub call : Call W → Controller W → Controller W
  call (opens pair) c = open_pair cfg pair c
  call (closes pair) c = (close_pair cfg pair c).0
  call (updates profits) c = (update cfg profits c).0

  unfoldable pub calls : List (Call W) → Controller W → Controller W
  calls [] c = c
  calls (x ∷ xs) c = calls xs (call x c)

  -- Trading is halted: the stop was triggered, and the level is not normal.
  abbrev pub IsHalted : Controller W → Type 0
  IsHalted c = (c.hard_stop_triggered ≡ true) × (can_open_new c ≡ false)

  set_level-IsHalted : (dd : W) (c : Controller W) → IsHalted c → IsHalted (set_level cfg dd c)
  unfolding set_level
  set_level-IsHalted dd c v = grind (arith, v)

  mark_pairs-IsHalted :
      (profits : List (ℕ × W)) (total : W) (c : Controller W)
      → IsHalted c
      → IsHalted (mark_pairs cfg profits total c).0
  unfolding mark_pairs mark_pair
  mark_pairs-IsHalted [] total c v = v
  mark_pairs-IsHalted (item ∷ items) total c v =
      mark_pairs-IsHalted items (f.add total item.1) (mark_pair cfg item.0 item.1 c).0 v

  pub call-IsHalted : (x : Call W) (c : Controller W) → IsHalted c → IsHalted (call x c)
  unfolding call open_pair close_pair update conclude
  call-IsHalted (opens pair) c v = v
  call-IsHalted (closes pair) c v = v
  call-IsHalted (updates profits) c v =
      let marked = mark_pairs cfg profits f.nought c in
      set_level-IsHalted _ _ (mark_pairs-IsHalted profits f.nought c v)

  calls-IsHalted : (xs : List (Call W)) (c : Controller W) → IsHalted c → IsHalted (calls xs c)
  unfolding calls
  calls-IsHalted [] c v = v
  calls-IsHalted (x ∷ xs) c v = calls-IsHalted xs (call x c) (call-IsHalted x c v)

  pub update-IsHalted :
      (profits : List (ℕ × W)) (c : Controller W)
      → (update cfg profits c).1.level ≡ hard_stop
      → IsHalted (update cfg profits c).0
  unfolding update conclude set_level
  update-IsHalted profits c e = grind (arith, e)

  -- After an update whose snapshot says hard stop, whatever pairs are opened and closed and whatever
  -- profits follow, no position may be opened; `manual_resume` then succeeds, and after it one may.
  pub halted_until_resume :
      (profits : List (ℕ × W)) (c : Controller W) (xs : List (Call W))
      → (update cfg profits c).1.level ≡ hard_stop
      → let final = calls xs (update cfg profits c).0 in
        let (resumed, done) = manual_resume cfg final in
        (can_open_new final ≡ false) × (done ≡ true) × (can_open_new resumed ≡ true)
  unfolding manual_resume
  halted_until_resume profits c xs e =
      let halted = calls-IsHalted xs (update cfg profits c).0 (update-IsHalted profits c e) in
      (halted.1, grind (arith, halted.0), grind (arith, halted.0))

module _ {ℓ} {W : Type ℓ} ⦃f : Float W⦄ (cfg : Config W) where
  pub mark_pairs-kept :
      (profits : List (ℕ × W)) (total : W) (c : Controller W) (pair : ℕ)
      → contains pair c.pair_states ≡ true
      → contains pair (mark_pairs cfg profits total c).0.pair_states ≡ true
  unfolding mark_pairs mark_pair
  mark_pairs-kept [] total c pair h = h
  mark_pairs-kept (item ∷ items) total c pair h =
      mark_pairs-kept items (f.add total item.1) (mark_pair cfg item.0 item.1 c).0 pair
        (contains-insert pair item.0 _ c.pair_states ∙ or_true (pair == item.0) h)

  mark_pairs-listed :
      (profits : List (ℕ × W)) (total : W) (c : Controller W) (pair : ℕ)
      → has_key pair (keys profits) ≡ true
      → contains pair (mark_pairs cfg profits total c).0.pair_states ≡ true
  unfolding mark_pairs mark_pair
  mark_pairs-listed [] total c pair h = absurd cc
  mark_pairs-listed (item ∷ items) total c pair h =
      let c' = (mark_pair cfg item.0 item.1 c).0 in
      elim (first_or (pair == item.0) h) [
        | inl same ↦
            mark_pairs-kept items (f.add total item.1) c' pair
              (contains-insert pair item.0 _ c.pair_states ∙ rw same refl)
        | inr more ↦ mark_pairs-listed items (f.add total item.1) c' pair more
      ]

  marked_known :
      (profits : List (ℕ × W)) (c : Controller W) (pair : ℕ)
      → (contains pair c.pair_states ≡ true) ⊎ (has_key pair (keys profits) ≡ true)
      → contains pair (mark_pairs cfg profits f.nought c).0.pair_states ≡ true
  marked_known profits c pair (inl h) = mark_pairs-kept profits f.nought c pair h
  marked_known profits c pair (inr h) = mark_pairs-listed profits f.nought c pair h

  -- A hard stop takes every position down: at an update whose drawdown is at least the hard limit, the
  -- snapshot has each pair that was open before, and each pair of the profits, among those to close.
  pub hard_stop_closes_all :
      (profits : List (ℕ × W)) (c : Controller W) (pair : ℕ)
      → f.le cfg.portfolio_hard_dd (update cfg profits c).1.portfolio_dd_pct ≡ true
      → (contains pair c.pair_states ≡ true) ⊎ (has_key pair (keys profits) ≡ true)
      → let (after, snapshot) = update cfg profits c in
        (snapshot.level ≡ hard_stop)
        × (can_open_new after ≡ false)
        × (has_key pair snapshot.pairs_force_close ≡ true)
  unfolding update conclude set_level
  hard_stop_closes_all profits c pair deep known =
      let marked = (mark_pairs cfg profits f.nought c).0 in
      let opened = marked_known profits c pair known in
      rw deep (refl, refl, keys-has_key pair marked.pair_states ∙ opened)
