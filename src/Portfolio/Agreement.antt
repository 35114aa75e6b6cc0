-- ===== src/Portfolio/Agreement.antt =====
-- risk/multi_pair_allocator.py: the calls of the allocator, and how its three tables of pairs go
-- together.
use mathlib.Core.Path.{subst}
use quantluna.Prelude.{
  sym, ℕ, ◌+◌, ◌≤◌, ◌<◌, ◌≡◌, refl, ◌⊎◌, inl, inr, ◌∙◌, ap, true, false, Option, none, some, List,
  [], ◌∷◌, arith,
}
use quantluna.Prelude.Dict.{Dict, lookup, insert, erase}
use quantluna.Prelude.Float.{Float}
use quantluna.Drawdown
use quantluna.Portfolio.{
  PairExposure, Risk, add_position, update_pnl, set_pnl, remove_position, summary, check_drawdown,
  total_exposure,
}
use quantluna.Portfolio.Allocator.{
  Config, Allocator, Request, Decision, sum_notionals, exposure_of, admit, enter, request_entry,
  update_pnls, update_state, record_exit, manual_resume, portfolio_summary,
}

-- The calls that change an allocator.
pub data Call {ℓ} (W : Type ℓ) : Type ℓ where
  entry : Request W → Call W
  tick : List (ℕ × W) → Call W
  exit : ℕ → Call W
  resume report : Call W

-- The notionals of the positions of the risk monitor.
abbrev pub notionals {ℓ} : {W : Type ℓ} → Dict (PairExposure W) → Dict ℕ
notionals [] = []
notionals (item ∷ items) = (item.0, item.1.notional_usdt) ∷ notionals items

module _ {ℓ} {W : Type ℓ} ⦃f : Float W⦄ (cfg : Config W) where
  unfoldable pub call : Call W → Allocator W → Allocator W
  call (entry q) a = (request_entry cfg q a).0
  call (tick profits) a = (update_state cfg profits a).0
  call (exit pair) a = record_exit cfg pair a
  call resume a = (manual_resume cfg a).0
  call report a = (portfolio_summary cfg a).0

  unfoldable pub calls : List (Call W) → Allocator W → Allocator W
  calls [] a = a
  calls (x ∷ xs) a = calls xs (call x a)

module _ {ℓ} {W : Type ℓ} ⦃f : Float W⦄ (cfg : Config W) where
  -- The notional that a request asks for.
  abbrev pub asked : Request W → Allocator W → ℕ
  asked q a = q.final_notional (sum_notionals a.active_pairs)

  -- What a request that passes every gate leaves.
  abbrev pub entered : Request W → Allocator W → Allocator W
  entered q a = admit cfg q.pair_id (asked q a) (record a {
    portfolio_risk = record a.portfolio_risk {
      positions = insert q.pair_id (exposure_of cfg q (asked q a)) a.portfolio_risk.positions;
    };
  })

  -- The gates that an admitted request has passed.
  abbrev pub HasRoom : Request W → Allocator W → Type 0
  HasRoom q a =
      (Drawdown.can_open_new a.dd ≡ true)
      × (a.n_pairs < cfg.max_concurrent_pairs)
      × (a.portfolio_risk.circuit_breaker ≡ false)
      × (total_exposure a.portfolio_risk.positions + asked q a ≤ cfg.risk.max_exposure)

  abbrev pub Outcome : Request W → Allocator W → Allocator W × Decision → Type ℓ
  Outcome q a result =
      ((result.0 ≡ a) × (result.1.allowed ≡ false))
      ⊎ ((result.0 ≡ entered q a) × (result.1.allowed ≡ true) × HasRoom q a)

  enter_outcome :
      (q : Request W) (a : Allocator W)
      → Drawdown.can_open_new a.dd ≡ true
      → a.n_pairs < cfg.max_concurrent_pairs
      → Outcome q a (enter cfg q (asked q a) a)
  unfolding enter add_position
  enter_outcome q a ready room = grind (arith, ready, room)

  pub entry_outcome : (q : Request W) (a : Allocator W) → Outcome q a (request_entry cfg q a)
  unfolding request_entry
  entry_outcome q a = grind (arith, enter_outcome q a)

  outcome_keeps :
      (P : Allocator W → Type 0) (q : Request W) (a : Allocator W) (result : Allocator W × Decision)
      → P a
      → (HasRoom q a → P (entered q a))
      → Outcome q a result
      → P result.0
  outcome_keeps P q a result same more (inl h) = subst P (sym h.0) same
  outcome_keeps P q a result same more (inr h) = subst P (sym h.0) (more h.2)

  -- To keep a predicate it is enough that an admitted request keeps it.
  pub entry_keeps :
      (P : Allocator W → Type 0) (q : Request W) (a : Allocator W)
      → P a
      → (HasRoom q a → P (entered q a))
      → P (request_entry cfg q a).0
  entry_keeps P q a same more =
      outcome_keeps P q a (request_entry cfg q a) same more (entry_outcome q a)

notionals-insert {ℓ} :
    {W : Type ℓ} (pair : ℕ) (e : PairExposure W) (items : Dict (PairExposure W))
    → notionals (insert pair e items) ≡ insert pair e.notional_usdt (notionals items)
notionals-insert pair e [] = refl
notionals-insert pair e (item ∷ items) = grind (arith, notionals-insert pair e items)

notionals-erase {ℓ} :
    {W : Type ℓ} (pair : ℕ) (items : Dict (PairExposure W))
    → notionals (erase pair items) ≡ erase pair (notionals items)
notionals-erase pair [] = refl
notionals-erase pair (item ∷ items) = grind (arith, notionals-erase pair items)

insert_present :
    (pair n : ℕ) (items : Dict ℕ) → lookup pair items ≡ some n → insert pair n items ≡ items
insert_present pair n [] h = absurd cc
insert_present pair n (item ∷ items) h = grind (arith, insert_present pair n items)

lookup-notionals {ℓ} :
    {W : Type ℓ} (pair : ℕ) (e : PairExposure W) (items : Dict (PairExposure W))
    → lookup pair items ≡ some e
    → lookup pair (notionals items) ≡ some e.notional_usdt
lookup-notionals pair e [] h = absurd cc
lookup-notionals pair e (item ∷ items) h = grind (arith, lookup-notionals pair e items)

module _ {ℓ} {W : Type ℓ} ⦃f : Float W⦄ (cfg : Config W) where
  abbrev pub DoAgree : Allocator W → Type 0
  DoAgree a = notionals a.portfolio_risk.positions ≡ a.active_pairs

  -- A new profit of a position leaves the notionals.
  set_pnl-notionals :
      (pair : ℕ) (pnl : W) (found : Option (PairExposure W)) (r : Risk W)
      → lookup pair r.positions ≡ found
      → notionals (set_pnl cfg.risk pair pnl found r).positions ≡ notionals r.positions
  set_pnl-notionals pair pnl none r h = refl
  set_pnl-notionals pair pnl (some held) r h =
      notionals-insert pair (record held { current_pnl = pnl }) r.positions
      ∙ insert_present pair held.notional_usdt (notionals r.positions)
          (lookup-notionals pair held r.positions h)

  update_pnl-notionals :
      (pair : ℕ) (pnl : W) (r : Risk W)
      → notionals (update_pnl cfg.risk pair pnl r).positions ≡ notionals r.positions
  unfolding update_pnl
  update_pnl-notionals pair pnl r = set_pnl-notionals pair pnl (lookup pair r.positions) r refl

  update_pnls-notionals :
      (profits : List (ℕ × W)) (r : Risk W)
      → notionals (update_pnls cfg profits r).positions ≡ notionals r.positions
  unfolding update_pnls
  update_pnls-notionals [] r = refl
  update_pnls-notionals (item ∷ items) r =
      update_pnls-notionals items (update_pnl cfg.risk item.0 item.1 r)
      ∙ update_pnl-notionals item.0 item.1 r

  entered-DoAgree : (q : Request W) (a : Allocator W) → DoAgree a → DoAgree (entered cfg q a)
  unfolding admit
  entered-DoAgree q a v =
      notionals-insert q.pair_id (exposure_of cfg q (asked cfg q a)) a.portfolio_risk.positions
      ∙ ap (insert q.pair_id (asked cfg q a)) v

  check_drawdown-positions : (r : Risk W) → (check_drawdown cfg.risk r).0.positions ≡ r.positions
  unfolding check_drawdown
  check_drawdown-positions r = grind arith

  pub call-DoAgree : (x : Call W) (a : Allocator W) → DoAgree a → DoAgree (call cfg x a)
  unfolding call update_state record_exit remove_position manual_resume portfolio_summary summary
  call-DoAgree (entry q) a v = entry_keeps cfg DoAgree q a v (λ room. entered-DoAgree q a v)
  call-DoAgree (tick profits) a v = update_pnls-notionals profits a.portfolio_risk ∙ v
  call-DoAgree (exit pair) a v = notionals-erase pair a.portfolio_risk.positions ∙ ap (erase pair) v
  call-DoAgree resume a v = v
  call-DoAgree report a v = ap notionals (check_drawdown-positions a.portfolio_risk) ∙ v

  pub calls-DoAgree : (xs : List (Call W)) (a : Allocator W) → DoAgree a → DoAgree (calls cfg xs a)
  unfolding calls
  calls-DoAgree [] a v = v
  calls-DoAgree (x ∷ xs) a v = calls-DoAgree xs (call cfg x a) (call-DoAgree x a v)
