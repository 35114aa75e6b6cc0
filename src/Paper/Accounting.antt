-- ===== src/Paper/Accounting.antt =====
-- execution/paper_engine.py: the equity of the engine, its profit and the fees of its orders.
use quantluna.Prelude.{
  ◌≡◌, refl, ap, sym, ◌∙◌, Bool, true, false, Option, none, some, List, [], ◌∷◌, ◌++◌, arith,
  if◌then◌else◌, ℕ,
}
use quantluna.Prelude.Int.{ℤ, pos, ◌+ℤ◌, ◌-ℤ◌, int_laws}
use quantluna.Prelude.Dict.{lookup, insert}
use quantluna.Prelude.Float.{Float}
use quantluna.Paper.{
  Side, Kind, Order, Position, Engine, Rules, Draw, is_filled, new, settle, save_positions,
  record_equity, close_position, meet, apply_fill, update_position, take_order, submit_order, reset,
  fill_order, new_order, same_side, open_position,
}

abbrev fee_of {ℓ} : {W : Type ℓ} → Order W → ℤ
fee_of o = if is_filled o.status then o.commission else pos 0

-- The fees of the orders that were filled.
unfoldable pub fees {ℓ} : {W : Type ℓ} → List (Order W) → ℤ
fees [] = pos 0
fees (o ∷ os) = fee_of o +ℤ fees os

pub +ℤ_assoc : (a b c : ℤ) → (a +ℤ b) +ℤ c ≡ a +ℤ (b +ℤ c)
+ℤ_assoc a b c = grind int_laws

nought_add : (a : ℤ) → pos 0 +ℤ a ≡ a +ℤ pos 0
nought_add a = grind int_laws

swap_net : (e net r : ℤ) → (e +ℤ net) +ℤ r ≡ e +ℤ (r +ℤ net)
swap_net e net r = grind int_laws

fees-add {ℓ} :
    {W : Type ℓ} (os : List (Order W)) (o : Order W) → fees (os ++ (o ∷ [])) ≡ fees os +ℤ fee_of o
unfolding fees
fees-add [] o = grind int_laws
fees-add (x ∷ os) o =
    ap (λ t. fee_of x +ℤ t) (fees-add os o) ∙ sym (+ℤ_assoc (fee_of x) (fees os) (fee_of o))

charge :
    (equity fees fee start realised : ℤ)
    → equity +ℤ fees ≡ start +ℤ realised
    → (equity -ℤ fee) +ℤ (fees +ℤ fee) ≡ start +ℤ realised
charge equity fees fee start realised h = grind (int_laws, h)

unpaid : (equity fees : ℤ) → equity +ℤ (fees +ℤ pos 0) ≡ equity +ℤ fees
unpaid equity fees = grind int_laws

gain_both :
    (equity fees net start realised : ℤ)
    → equity +ℤ fees ≡ start +ℤ realised
    → (equity +ℤ net) +ℤ fees ≡ start +ℤ (realised +ℤ net)
gain_both equity fees net start realised h = grind (int_laws, h)

module _ {ℓ} {W : Type ℓ} ⦃f : Float W⦄ (rules : Rules W) where
  -- The equity lacks a sum beside what the profit says.
  abbrev Lacks : ℤ → Engine W → Type 0
  Lacks sum e = e.equity +ℤ sum ≡ rules.initial_capital +ℤ e.realised_pnl

  -- The sum is that of the fees of the filled orders.
  abbrev pub IsBalanced : Engine W → Type 0
  IsBalanced e = Lacks (fees e.orders) e

  if-Lacks :
      (sum : ℤ) (b : Bool) (e e' : Engine W)
      → Lacks sum e
      → Lacks sum e'
      → Lacks sum (if b then e else e')
  if-Lacks sum true e e' h h' = h
  if-Lacks sum false e e' h h' = h'

  meet-Lacks :
      (sum : ℤ) (o : Order W) (p : Position W) (e : Engine W)
      → Lacks sum e
      → Lacks sum (meet rules o p e)
  unfolding meet
  meet-Lacks sum o p e h =
      if-Lacks sum (same_side p.side o.side) _ _ h
        (if-Lacks sum (f.le p.qty o.filled_qty) _ _ (gain_both e.equity sum _ _ e.realised_pnl h) h)

  found-Lacks :
      (sum : ℤ) (o : Order W) (e : Engine W) (found : Option (Position W))
      → Lacks sum e
      → Lacks sum (elim found [
        | some p ↦ meet rules o p e
        | none ↦
            save_positions (record e { positions = insert o.symbol (open_position o) e.positions })
      ])
  found-Lacks sum o e none h = h
  found-Lacks sum o e (some p) h = meet-Lacks sum o p e h

  apply_fill-Lacks :
      (sum : ℤ) (o : Order W) (e : Engine W) → Lacks sum e → Lacks sum (apply_fill rules o e)
  unfolding apply_fill
  apply_fill-Lacks sum o e h = found-Lacks sum o e (lookup o.symbol e.positions) h

  apply_fill-orders : (o : Order W) (e : Engine W) → (apply_fill rules o e).orders ≡ e.orders
  unfolding apply_fill meet
  apply_fill-orders o e = grind arith

  taken :
      (b : Bool) (o : Order W) (e : Engine W)
      → is_filled o.status ≡ b
      → IsBalanced e
      → IsBalanced (take_order rules o e)
  unfolding take_order update_position
  taken true o e s h =
      let after = apply_fill rules o (record e { orders = e.orders ++ (o ∷ []) }) in
      rw s (
        ap (λ os. (after.equity -ℤ o.commission) +ℤ fees os)
          (apply_fill-orders o (record e { orders = e.orders ++ (o ∷ []) }))
        ∙ ap (λ t. (after.equity -ℤ o.commission) +ℤ t) (fees-add e.orders o)
        ∙ ap
            (λ b.
              (after.equity -ℤ o.commission)
              +ℤ (fees e.orders +ℤ (if b then o.commission else pos 0)))
            s
        ∙ charge after.equity (fees e.orders) o.commission rules.initial_capital after.realised_pnl
            (apply_fill-Lacks (fees e.orders) o (record e { orders = e.orders ++ (o ∷ []) }) h))
  taken false o e s h = rw s (
      ap (λ t. e.equity +ℤ t) (fees-add e.orders o)
      ∙ ap (λ b. e.equity +ℤ (fees e.orders +ℤ (if b then o.commission else pos 0))) s
      ∙ unpaid e.equity (fees e.orders)
      ∙ h)

  take_order-IsBalanced :
      (o : Order W) (e : Engine W) → IsBalanced e → IsBalanced (take_order rules o e)
  take_order-IsBalanced o e h = taken (is_filled o.status) o e refl h

  closed-IsBalanced :
      (symbol : ℕ) (price : W) (e : Engine W) (found : Option (Position W))
      → IsBalanced e
      → IsBalanced (elim found [
        | none ↦ e
        | some p ↦ record_equity (
            save_positions (
              settle rules symbol p price
                (rules.gain p.side p.qty p.entry_price price -ℤ rules.taker_fee price p.qty)
                e))
      ])
  closed-IsBalanced symbol price e none h = h
  closed-IsBalanced symbol price e (some p) h =
      gain_both e.equity (fees e.orders) _ _ e.realised_pnl h

  close_position-IsBalanced :
      (symbol : ℕ) (price : W) (e : Engine W)
      → IsBalanced e
      → IsBalanced (close_position rules symbol price e)
  unfolding close_position
  close_position-IsBalanced symbol price e h =
      closed-IsBalanced symbol price e (lookup symbol e.positions) h

-- The operations of the engine.
pub data Op {ℓ} (W : Type ℓ) : Type ℓ where
  submits : Draw W → ℕ → Side → Kind → W → W → Option W → Op W
  closes : ℕ → W → Op W
  resets : Op W

module _ {ℓ} {W : Type ℓ} ⦃f : Float W⦄ (rules : Rules W) where
  unfoldable pub operate : Op W → Engine W → Engine W
  operate (submits draw symbol side kind qty mid price) e =
      submit_order rules draw symbol side kind qty mid price e
  operate (closes symbol price) e = close_position rules symbol price e
  operate resets e = reset rules e

  unfoldable pub operates : List (Op W) → Engine W → Engine W
  operates [] e = e
  operates (op ∷ ops) e = operates ops (operate op e)

  reset-IsBalanced : (e : Engine W) → IsBalanced rules (reset rules e)
  unfolding reset fees
  reset-IsBalanced e = refl

  operate-IsBalanced :
      (op : Op W) (e : Engine W) → IsBalanced rules e → IsBalanced rules (operate op e)
  unfolding operate submit_order
  operate-IsBalanced (submits draw symbol side kind qty mid price) e h =
      take_order-IsBalanced rules
        (fill_order rules draw mid (new_order rules symbol side kind qty price)) e h
  operate-IsBalanced (closes symbol price) e h = close_position-IsBalanced rules symbol price e h
  operate-IsBalanced resets e h = reset-IsBalanced e

  operates-IsBalanced :
      (ops : List (Op W)) (e : Engine W) → IsBalanced rules e → IsBalanced rules (operates ops e)
  unfolding operates
  operates-IsBalanced [] e h = h
  operates-IsBalanced (op ∷ ops) e h =
      operates-IsBalanced ops (operate op e) (operate-IsBalanced op e h)

  -- After any operations on a new engine, the equity with the fees of all filled orders added is the
  -- capital with the realised profit.
  pub equity_and_fees :
      (ops : List (Op W)) (has_store : Bool)
      → let e = operates ops (new rules has_store) in
        e.equity +ℤ fees e.orders ≡ rules.initial_capital +ℤ e.realised_pnl
  unfolding fees
  equity_and_fees ops has_store = operates-IsBalanced ops (new rules has_store) refl
