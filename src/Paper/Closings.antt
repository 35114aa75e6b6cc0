-- ===== src/Paper/Closings.antt =====
-- execution/paper_engine.py: the trades that the engine notes, and the fee of each.
use quantluna.Prelude.{
  ◌≡◌, refl, ap, sym, ◌∙◌, Bool, true, false, Option, none, some, List, [], ◌∷◌, ◌++◌, ℕ,
  if◌then◌else◌,
}
use quantluna.Prelude.Int.{ℤ, pos, ◌+ℤ◌, ◌-ℤ◌, int_laws}
use quantluna.Prelude.Dict.{lookup, insert}
use quantluna.Prelude.Float.{Float}
use quantluna.Paper.{
  Order, Position, Trade, Engine, Rules, is_filled, new, settle, save_positions, record_equity,
  close_position, meet, apply_fill, update_position, take_order, submit_order, reset, fill_order,
  new_order, same_side, open_position,
}
use quantluna.Paper.Accounting.{
  Op, submits, closes, resets, operate, operates, fees, equity_and_fees, +ℤ_assoc,
}

-- The profits of the trades.
unfoldable pub sum_pnl {ℓ} : {W : Type ℓ} → List (Trade W) → ℤ
sum_pnl [] = pos 0
sum_pnl (t ∷ ts) = t.pnl +ℤ sum_pnl ts

add_nought : (a : ℤ) → a +ℤ pos 0 ≡ pos 0 +ℤ a
add_nought a = grind int_laws

sum_pnl-add {ℓ} :
    {W : Type ℓ} (ts : List (Trade W)) (t : Trade W)
    → sum_pnl (ts ++ (t ∷ [])) ≡ sum_pnl ts +ℤ t.pnl
unfolding sum_pnl
sum_pnl-add [] t = add_nought t.pnl
sum_pnl-add (x ∷ ts) t =
    ap (λ s. x.pnl +ℤ s) (sum_pnl-add ts t) ∙ sym (+ℤ_assoc x.pnl (sum_pnl ts) t.pnl)

-- The order is one of the list.
pub data Among {ℓ} {W : Type ℓ} (o : Order W) : List (Order W) → Type ℓ where
  last : (os : List (Order W)) → Among o (os ++ (o ∷ []))
  before : (os : List (Order W)) (x : Order W) → Among o os → Among o (os ++ (x ∷ []))

module _ {ℓ} {W : Type ℓ} (rules : Rules W) (os : List (Order W)) where
  -- What the position of the trade gains from its entry to the exit.
  abbrev pub gross : Trade W → ℤ
  gross t = rules.gain t.position.side t.position.qty t.position.entry_price t.exit_price

  -- The profit is the gain less one fee: that of a taker for the position at the exit price, or that
  -- of a filled order at whose price it was closed.
  pub data IsCharged (t : Trade W) : Type ℓ where
    by_close : t.pnl ≡ gross t -ℤ rules.taker_fee t.exit_price t.position.qty → IsCharged t
    by_order :
        (o : Order W)
        → Among o os
        → is_filled o.status ≡ true
        → t.exit_price ≡ o.avg_fill_price
        → t.pnl ≡ gross t -ℤ o.commission
        → IsCharged t

  -- So it is for each trade.
  pub data AllCharged : List (Trade W) → Type ℓ where
    no_trade : AllCharged []
    one_more :
        (ts : List (Trade W)) (t : Trade W)
        → AllCharged ts
        → IsCharged t
        → AllCharged (ts ++ (t ∷ []))

IsCharged-more {ℓ} :
    {W : Type ℓ} (rules : Rules W) (os : List (Order W)) (x : Order W) (t : Trade W)
    → IsCharged rules os t
    → IsCharged rules (os ++ (x ∷ [])) t
IsCharged-more rules os x t (by_close h) = by_close h
IsCharged-more rules os x t (by_order o a s p h) = by_order o (before os x a) s p h

AllCharged-more {ℓ} :
    {W : Type ℓ} (rules : Rules W) (os : List (Order W)) (x : Order W) {ts : List (Trade W)}
    → AllCharged rules os ts
    → AllCharged rules (os ++ (x ∷ [])) ts
AllCharged-more rules os x no_trade = no_trade
AllCharged-more rules os x (one_more ts t h c) =
    one_more ts t (AllCharged-more rules os x h) (IsCharged-more rules os x t c)

module _ {ℓ} {W : Type ℓ} ⦃f : Float W⦄ (rules : Rules W) where
  abbrev IsNoted : Engine W → Type ℓ
  IsNoted e = (e.realised_pnl ≡ sum_pnl e.trades) × AllCharged rules e.orders e.trades

  if-IsNoted : (b : Bool) (e e' : Engine W) → IsNoted e → IsNoted e' → IsNoted (if b then e else e')
  if-IsNoted true e e' h h' = h
  if-IsNoted false e e' h h' = h'

  settle-IsNoted :
      (symbol : ℕ) (p : Position W) (price : W) (net : ℤ) (e : Engine W)
      → IsNoted e
      → IsCharged rules e.orders
          (record { symbol = symbol; position = p; exit_price = price; pnl = net })
      → IsNoted (settle rules symbol p price net e)
  settle-IsNoted symbol p price net e h c =
      let t : Trade W = record { symbol = symbol; position = p; exit_price = price; pnl = net } in
      (ap (λ r. r +ℤ net) h.0 ∙ sym (sum_pnl-add e.trades t), one_more e.trades t h.1 c)

  meet-IsNoted :
      (o : Order W) (p : Position W) (e : Engine W)
      → Among o e.orders
      → is_filled o.status ≡ true
      → IsNoted e
      → IsNoted (meet rules o p e)
  unfolding meet
  meet-IsNoted o p e a s h =
      let closed = settle-IsNoted o.symbol p o.avg_fill_price _ e h (by_order o a s refl refl) in
      if-IsNoted (same_side p.side o.side) _ _ h (if-IsNoted (f.le p.qty o.filled_qty) _ _ closed h)

  found-IsNoted :
      (o : Order W) (e : Engine W) (found : Option (Position W))
      → Among o e.orders
      → is_filled o.status ≡ true
      → IsNoted e
      → IsNoted (elim found [
        | some p ↦ meet rules o p e
        | none ↦
            save_positions (record e { positions = insert o.symbol (open_position o) e.positions })
      ])
  found-IsNoted o e none a s h = h
  found-IsNoted o e (some p) a s h = meet-IsNoted o p e a s h

  filled-IsNoted :
      (b : Bool) (o : Order W) (e : Engine W)
      → is_filled o.status ≡ b
      → IsNoted e
      → IsNoted (take_order rules o e)
  unfolding take_order update_position apply_fill
  filled-IsNoted true o e s h =
      let noted = record e { orders = e.orders ++ (o ∷ []) } in
      rw s (
        found-IsNoted o noted (lookup o.symbol e.positions) (last e.orders) s
          (h.0, AllCharged-more rules e.orders o h.1))
  filled-IsNoted false o e s h = rw s (h.0, AllCharged-more rules e.orders o h.1)

  closed-IsNoted :
      (symbol : ℕ) (price : W) (e : Engine W) (found : Option (Position W))
      → IsNoted e
      → IsNoted (elim found [
        | none ↦ e
        | some p ↦ record_equity (
            save_positions (
              settle rules symbol p price
                (rules.gain p.side p.qty p.entry_price price -ℤ rules.taker_fee price p.qty)
                e))
      ])
  closed-IsNoted symbol price e none h = h
  closed-IsNoted symbol price e (some p) h = settle-IsNoted symbol p price _ e h (by_close refl)

  operate-IsNoted : (op : Op W) (e : Engine W) → IsNoted e → IsNoted (operate rules op e)
  unfolding operate submit_order close_position reset sum_pnl
  operate-IsNoted (submits draw symbol side kind qty mid price) e h =
      let o = fill_order rules draw mid (new_order rules symbol side kind qty price) in
      filled-IsNoted (is_filled o.status) o e refl h
  operate-IsNoted (closes symbol price) e h =
      closed-IsNoted symbol price e (lookup symbol e.positions) h
  operate-IsNoted resets e h = (refl, no_trade)

  operates-IsNoted : (ops : List (Op W)) (e : Engine W) → IsNoted e → IsNoted (operates rules ops e)
  unfolding operates
  operates-IsNoted [] e h = h
  operates-IsNoted (op ∷ ops) e h =
      operates-IsNoted ops (operate rules op e) (operate-IsNoted op e h)

  -- After any operations on a new engine: the equity with the fees of all filled orders added is the
  -- capital with the realised profit; that is the sum of the profits of the trades; and the profit of
  -- each trade is the gain of its position less one fee, that of a taker at the exit price, or that
  -- of a filled order at whose price the position was closed.
  pub equity_and_trades :
      (ops : List (Op W)) (has_store : Bool)
      → let e = operates rules ops (new rules has_store) in
        (e.equity +ℤ fees e.orders ≡ rules.initial_capital +ℤ e.realised_pnl)
        × (e.realised_pnl ≡ sum_pnl e.trades)
        × AllCharged rules e.orders e.trades
  unfolding sum_pnl
  equity_and_trades ops has_store =
      let v = operates-IsNoted ops (new rules has_store) (refl, no_trade) in
      (equity_and_fees rules ops has_store, v.0, v.1)
