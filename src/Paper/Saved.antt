-- ===== src/Paper/Saved.antt =====
-- execution/paper_engine.py: the positions in the store, and the two ways to close a position.
use quantluna.Prelude.{
  ◌≡◌, refl, ◌∙◌, Bool, true, false, Option, none, some, List, [], ◌∷◌, ◌++◌, arith, if◌then◌else◌,
  ℕ,
}
use quantluna.Prelude.Int.{◌+ℤ◌, ◌-ℤ◌, int_laws}
use quantluna.Prelude.Dict.{Dict, lookup}
use quantluna.Prelude.Float.{Float}
use quantluna.Paper.{
  Order, Position, Engine, Rules, is_filled, same_side, new, settle, save_positions, record_equity,
  close_position, meet, apply_fill, update_position, take_order, submit_order, reset,
}
use quantluna.Paper.Accounting.{Op, submits, closes, resets, operate, operates}

-- What a store holds when the positions are saved.
abbrev pub saved_of {ℓ} :
    {W : Type ℓ} → Option (Dict (Position W)) → Dict (Position W) → Option (Dict (Position W))
saved_of none positions = none
saved_of (some _) positions = some positions

saved-twice {ℓ} :
    {W : Type ℓ} (store : Option (Dict (Position W))) (p : Dict (Position W))
    → elim store [ none ↦ none | some _ ↦ some p ]
      ≡ saved_of (elim store [ none ↦ none | some _ ↦ some p ]) p
saved-twice none p = refl
saved-twice (some _) p = refl

abbrev is_some {ℓ} : {A : Type ℓ} → Option A → Bool
is_some none = false
is_some (some x) = true

abbrev has_store {ℓ} : {W : Type ℓ} → Engine W → Bool
has_store e = is_some e.store

saved-some {ℓ} :
    {W : Type ℓ} (store : Option (Dict (Position W))) (p : Dict (Position W))
    → is_some store ≡ true
    → store ≡ saved_of store p
    → store ≡ some p
saved-some none p h e = absurd cc
saved-some (some _) p h e = e

module _ {ℓ} {W : Type ℓ} ⦃f : Float W⦄ (rules : Rules W) where
  -- The store, if there is one, has the positions of the engine.
  abbrev pub IsSaved : Engine W → Type ℓ
  IsSaved e = e.store ≡ saved_of e.store e.positions

  if-IsSaved : (b : Bool) (e e' : Engine W) → IsSaved e → IsSaved e' → IsSaved (if b then e else e')
  if-IsSaved true e e' h h' = h
  if-IsSaved false e e' h h' = h'

  take_order-IsSaved : (o : Order W) (e : Engine W) → IsSaved e → IsSaved (take_order rules o e)
  unfolding take_order
  take_order-IsSaved o e h =
      let after = update_position rules o (record e { orders = e.orders ++ (o ∷ []) }) in
      if-IsSaved (is_filled o.status) _ _ (saved-twice after.store after.positions) h

  found-IsSaved :
      (symbol : ℕ) (price : W) (e : Engine W) (found : Option (Position W))
      → IsSaved e
      → IsSaved (elim found [
        | none ↦ e
        | some p ↦ record_equity (
            save_positions (
              settle rules symbol p price
                (rules.gain p.side p.qty p.entry_price price -ℤ rules.taker_fee price p.qty)
                e))
      ])
  found-IsSaved symbol price e none h = h
  found-IsSaved symbol price e (some p) h = saved-twice e.store _

  operate-IsSaved : (op : Op W) (e : Engine W) → IsSaved e → IsSaved (operate rules op e)
  unfolding operate submit_order close_position reset
  operate-IsSaved (submits draw symbol side kind qty mid price) e h = take_order-IsSaved _ e h
  operate-IsSaved (closes symbol price) e h =
      found-IsSaved symbol price e (lookup symbol e.positions) h
  operate-IsSaved resets e h = saved-twice e.store []

  operates-IsSaved : (ops : List (Op W)) (e : Engine W) → IsSaved e → IsSaved (operates rules ops e)
  unfolding operates
  operates-IsSaved [] e h = h
  operates-IsSaved (op ∷ ops) e h =
      operates-IsSaved ops (operate rules op e) (operate-IsSaved op e h)

  take_order-has_store :
      (o : Order W) (e : Engine W) → has_store (take_order rules o e) ≡ has_store e
  unfolding take_order update_position apply_fill meet
  take_order-has_store o e = grind arith

  close_position-has_store :
      (symbol : ℕ) (price : W) (e : Engine W)
      → has_store (close_position rules symbol price e) ≡ has_store e
  unfolding close_position
  close_position-has_store symbol price e = grind arith

  operate-has_store : (op : Op W) (e : Engine W) → has_store (operate rules op e) ≡ has_store e
  unfolding operate submit_order reset
  operate-has_store (submits draw symbol side kind qty mid price) e = take_order-has_store _ e
  operate-has_store (closes symbol price) e = close_position-has_store symbol price e
  operate-has_store resets e = grind arith

  operates-has_store :
      (ops : List (Op W)) (e : Engine W) → has_store (operates rules ops e) ≡ has_store e
  unfolding operates
  operates-has_store [] e = refl
  operates-has_store (op ∷ ops) e =
      operates-has_store ops (operate rules op e) ∙ operate-has_store op e

  -- After any operations on a new engine with a store, the store has the positions of the engine.
  pub positions_saved :
      (ops : List (Op W))
      → let e = operates rules ops (new rules true) in e.store ≡ some e.positions
  positions_saved ops =
      let e = operates rules ops (new rules true) in
      saved-some e.store e.positions (operates-has_store ops (new rules true))
        (operates-IsSaved ops (new rules true) refl)

  -- A position closed by an order of the other side that covers it, at a price and with the fee that
  -- `close_position` would take, leaves the equity smaller by that fee than `close_position`.
  pub order_charges_twice :
      (o : Order W) (p : Position W) (e : Engine W)
      → lookup o.symbol e.positions ≡ some p
      → is_filled o.status ≡ true
      → same_side p.side o.side ≡ false
      → f.le p.qty o.filled_qty ≡ true
      → o.commission ≡ rules.taker_fee o.avg_fill_price p.qty
      → (take_order rules o e).equity +ℤ o.commission
        ≡ (close_position rules o.symbol o.avg_fill_price e).equity
  unfolding take_order update_position apply_fill meet close_position
  order_charges_twice o p e found full other covers fee =
      grind (int_laws, found, full, other, covers, fee)
