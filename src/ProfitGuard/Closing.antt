-- ===== src/ProfitGuard/Closing.antt =====
-- execution/profit_guard.py: a position from its registration until the guard closes it.
use quantluna.Prelude.{
  ℕ, zero, suc, ◌+◌, ◌≤◌, ◌<◌, ◌≡◌, ◌≢◌, refl, ap, sym, ◌∙◌, true, Option, none, some, List, [],
  ◌∷◌, length, get_elem?, drop, arith,
}
use mathlib.Core.Path.{subst}
use mathlib.Core.Option.{some-injective}
use quantluna.Prelude.Dict.{lookup}
use quantluna.Prelude.Float.{Float, IsOrdered}
use quantluna.ProfitGuard.{
  Config, Position, Guard, Action, Reason, hold, partial_close, full_close, update, conclude, track,
  estimate_profit, not_registered,
}
use quantluna.ProfitGuard.Ladder.{
  ratio_of, counts_of, counts, IsStep, kept, climbed, left, conclude-IsStep, track-same,
  evaluate-not-partial,
}

-- The ratios of the partial closes among some actions.
abbrev pub ratios {ℓ} : {W : Type ℓ} → List (Action W) → List W
ratios [] = []
ratios (partial_close ratio ∷ actions) = ratio ∷ ratios actions
ratios (hold _ ∷ actions) = ratios actions
ratios (full_close _ ∷ actions) = ratios actions

abbrev pub ratios_of {ℓ} : {W : Type ℓ} → List (W × W) → List W
ratios_of [] = []
ratios_of (level ∷ levels) = level.1 ∷ ratios_of levels

pub data IsPrefix {ℓ} {A : Type ℓ} : List A → List A → Type ℓ where
  none_yet : {ys : List A} → IsPrefix [] ys
  one_more : {x : A} {xs ys : List A} → IsPrefix xs ys → IsPrefix (x ∷ xs) (x ∷ ys)

-- A full close among some actions.
pub data HasClose {ℓ} {W : Type ℓ} : List (Action W) → Type ℓ where
  now : {why : Reason} {actions : List (Action W)} → HasClose (full_close why ∷ actions)
  later :
      {action : Action W} {actions : List (Action W)}
      → HasClose actions
      → HasClose (action ∷ actions)

-- The next level is the first of those that are left.
drop-level {ℓ} :
    {W : Type ℓ} (n : ℕ) (levels : List (W × W)) (ratio : W)
    → ratio_of (get_elem? levels n) ≡ some ratio
    → ratios_of (drop n levels) ≡ ratio ∷ ratios_of (drop (suc n) levels)
drop-level n [] ratio e = absurd cc
drop-level zero (level ∷ levels) ratio e = ap (λ r. r ∷ ratios_of levels) (some-injective _ _ e)
drop-level (suc n) (level ∷ levels) ratio e = drop-level n levels ratio e

module _ {ℓ} {W : Type ℓ} ⦃f : Float W⦄ (cfg : Config W) (pair : ℕ) where
  -- `update` for one bar after another: the score and the spread of each.
  unfoldable pub updates : List (W × W) → Guard W → Guard W × List (Action W)
  updates [] g = (g, [])
  updates (bar ∷ bars) g =
      let (after, action) = update cfg pair bar.0 bar.1 g in
      let (final, actions) = updates bars after in (final, action ∷ actions)

  update-absent :
      (zscore spread : W) (g : Guard W)
      → counts pair g ≡ none
      → let (after, action) = update cfg pair zscore spread g in
        (action ≡ hold not_registered) × (counts pair after ≡ none)
  unfolding update
  update-absent zscore spread g e = grind (arith, e)

  update-conclude :
      (zscore spread : W) (g : Guard W) (p : Position W)
      → cfg.enabled ≡ true
      → lookup pair g.positions ≡ some p
      → let bar = suc g.bar_counter in
        let profit = estimate_profit cfg p spread in
        update cfg pair zscore spread g
        ≡ conclude cfg pair bar zscore profit
            (track bar zscore profit p)
            (record g { bar_counter = bar })
  unfolding update
  update-conclude zscore spread g p on e = grind (arith, on, e)

  update-at :
      (zscore spread : W) (g : Guard W) (p : Position W)
      → cfg.enabled ≡ true
      → lookup pair g.positions ≡ some p
      → let (after, action) = update cfg pair zscore spread g in
        IsStep cfg p.partial_closes p.bars_held action (counts pair after)
  update-at zscore spread g p on e =
      let bar = suc g.bar_counter in
      subst (λ r. IsStep cfg p.partial_closes p.bars_held r.1 (counts pair r.0))
        (sym (update-conclude zscore spread g p on e))
        (conclude-IsStep cfg pair bar zscore (estimate_profit cfg p spread) p
          (record g { bar_counter = bar }))

  counts-lookup :
      (o : Option (Position W)) (n b : ℕ)
      → counts_of o ≡ some (n, b)
      → (p : Position W) × (o ≡ some p) × (p.partial_closes ≡ n) × (p.bars_held ≡ b)
  counts-lookup none n b e = absurd cc
  counts-lookup (some p) n b e =
      let same = some-injective _ _ e in (p, refl, ap (λ c. c.0) same, ap (λ c. c.1) same)

  update-IsStep :
      (zscore spread : W) (g : Guard W) (n b : ℕ)
      → cfg.enabled ≡ true
      → counts pair g ≡ some (n, b)
      → let (after, action) = update cfg pair zscore spread g in
        IsStep cfg n b action (counts pair after)
  update-IsStep zscore spread g n b on e =
      let (p, found, closes_same, bars_same) = counts-lookup (lookup pair g.positions) n b e in
      subst
        (λ b'.
          IsStep cfg n b' (update cfg pair zscore spread g).1
            (counts pair (update cfg pair zscore spread g).0))
        bars_same
        (subst
          (λ n'.
            IsStep cfg n' p.bars_held (update cfg pair zscore spread g).1
              (counts pair (update cfg pair zscore spread g).0))
          closes_same (update-at zscore spread g p on found))

  updates-absent :
      (bars : List (W × W)) (g : Guard W) → counts pair g ≡ none → ratios (updates bars g).1 ≡ []
  unfolding updates
  updates-absent [] g e = refl
  updates-absent (bar ∷ bars) g e =
      let (held, absent) = update-absent bar.0 bar.1 g e in
      rw held (updates-absent bars (update cfg pair bar.0 bar.1 g).0 absent)

  prefix_step :
      (n b : ℕ) (action : Action W) (c : Option (ℕ × ℕ)) (rest : List (Action W))
      → IsStep cfg n b action c
      → ((n' b' : ℕ)
          → c ≡ some (n', b')
          → IsPrefix (ratios rest) (ratios_of (drop n' cfg.ladder_levels)))
      → (c ≡ none → ratios rest ≡ [])
      → IsPrefix (ratios (action ∷ rest)) (ratios_of (drop n cfg.ladder_levels))
  prefix_step n b _ _ rest (kept early) more end = more n (suc b) refl
  prefix_step n b _ _ rest (climbed early level) more end =
      rw (drop-level n cfg.ladder_levels _ level) (one_more (more (suc n) (suc b) refl))
  prefix_step n b _ _ rest left more end = rw (end refl) none_yet

  -- The partial closes of a position follow the ladder: with the guard enabled, the ratios that the bars
  -- of a pair bring are the first of the levels that are left, in their order and each once at most.
  pub ladder_in_order :
      (bars : List (W × W)) (g : Guard W) (n b : ℕ)
      → cfg.enabled ≡ true
      → counts pair g ≡ some (n, b)
      → IsPrefix (ratios (updates bars g).1) (ratios_of (drop n cfg.ladder_levels))
  unfolding updates
  ladder_in_order [] g n b on e = none_yet
  ladder_in_order (bar ∷ bars) g n b on e =
      let after = (update cfg pair bar.0 bar.1 g).0 in
      prefix_step n b (update cfg pair bar.0 bar.1 g).1 (counts pair after) (updates bars after).1
        (update-IsStep bar.0 bar.1 g n b on e) (λ n' b' e'. ladder_in_order bars after n' b' on e')
        (λ e'. updates-absent bars after e')

  close_step :
      (n b : ℕ) (action : Action W) (c : Option (ℕ × ℕ)) (rest : List (Action W))
      → IsStep cfg n b action c
      → ((n' : ℕ) → c ≡ some (n', suc b) → suc b ≤ cfg.max_hold_bars → HasClose rest)
      → HasClose (action ∷ rest)
  close_step n b _ _ rest (kept early) more = later (more n refl early)
  close_step n b _ _ rest (climbed early level) more = later (more (suc n) refl early)
  close_step n b _ _ rest left more = now

  -- A position is not held for ever: with the guard enabled, as soon as a pair has more bars, those
  -- before included, than may be held, one of them brought a full close.
  pub held_then_closed :
      (bars : List (W × W)) (g : Guard W) (n b : ℕ)
      → cfg.enabled ≡ true
      → counts pair g ≡ some (n, b)
      → b ≤ cfg.max_hold_bars
      → cfg.max_hold_bars < b + length bars
      → HasClose (updates bars g).1
  unfolding updates
  held_then_closed [] g n b on e start long = absurd (omega arith)
  held_then_closed (bar ∷ bars) g n b on e start long =
      let after = (update cfg pair bar.0 bar.1 g).0 in
      close_step n b (update cfg pair bar.0 bar.1 g).1 (counts pair after) (updates bars after).1
        (update-IsStep bar.0 bar.1 g n b on e)
        (λ n' e' early. held_then_closed bars after n' (suc b) on e' early (omega arith))

  -- A level of the ladder whose profit is at least the take profit is never used: where it is the next
  -- one, no bar brings a partial close. The comparisons are those of doubles.
  pub skipped_level :
      IsOrdered W
      → (zscore spread trigger ratio ratio' : W) (g : Guard W) (n b : ℕ) → cfg.enabled ≡ true
      → counts pair g ≡ some (n, b)
      → get_elem? cfg.ladder_levels n ≡ some (trigger, ratio)
      → f.le cfg.tp_profit_pct trigger ≡ true
      → (update cfg pair zscore spread g).1 ≢ partial_close ratio'
  skipped_level law zscore spread trigger ratio ratio' g n b on e level above same =
      let (p, found, closes_same, _) = counts-lookup (lookup pair g.positions) n b e in
      let bar = suc g.bar_counter in
      let profit = estimate_profit cfg p spread in
      let p' = track bar zscore profit p in
      evaluate-not-partial cfg law bar zscore profit trigger p' ratio ratio'
        (ap (get_elem? cfg.ladder_levels) ((track-same cfg bar zscore profit p).0 ∙ closes_same)
          ∙ level)
        above (sym (ap (λ r. r.1) (update-conclude zscore spread g p on found)) ∙ same)
