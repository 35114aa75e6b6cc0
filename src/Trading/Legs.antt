-- ===== src/Trading/Legs.antt =====
-- execution/action_executor.py: the orders that a trade leaves on the exchange, and what the account of
-- the order manager says.
use mathlib.Core.List.{append-nil, append_assoc}
use quantluna.Prelude.{
  ap, sym, ◌∙◌, List, ◌≡◌, refl, ◌⊎◌, inl, inr, Bool, true, false, ◌&&◌, Option, none, some, [],
  ◌∷◌, ◌++◌, arith, if◌then◌else◌,
}
use quantluna.Prelude.Float.{Float}
use quantluna.Orders.State.{Side, buy, sell}
use quantluna.Orders.Account.{
  Leg, long, short, Held, Account, record_entry_long, record_entry_short, record_exit,
}
use quantluna.Trading.{
  Action, entry_long, entry_short, leave, sym_y, sym_x, Sent, Prices, World, Executor, two_orders,
  order_of, hedge_qty, close_y, close_x, execute,
}

module _ {ℓ} {W : Type ℓ} ⦃f : Float W⦄ (e : Executor W) where
  abbrev side_of_y : Action → Side
  side_of_y entry_long = buy
  side_of_y _ = sell

  abbrev other : Side → Side
  other buy = sell
  other sell = buy

  -- An entry and then an exit, all of whose orders are accepted: the position is gone, and the two
  -- orders of the first leg are for the same quantity on opposite sides. Those of the second leg are
  -- not: it is opened with the hedge quantity and closed with the base quantity of the first leg.
  pub round_trip :
      (entry : Action) (b b' : Prices W) (w : World W)
      → e.dry_run ≡ false
      → (entry ≡ leave → ⊥)
      → let side = side_of_y entry in
        let after = execute e b' true true leave (execute e b true true entry w) in
        (after.account.current_position ≡ none)
        × (after.accepted
            ≡ (((w.accepted ++ (order_of sym_y side e.base_qty ∷ []))
                  ++ (order_of sym_x (other side) (hedge_qty e b) ∷ []))
                ++ (order_of sym_y (other side) (f.abs e.base_qty) ∷ []))
              ++ (order_of sym_x side (f.abs e.base_qty) ∷ []))
  unfolding execute two_orders record_entry_long record_entry_short record_exit
  round_trip entry_long b b' w live _ = grind (arith, live)
  round_trip entry_short b b' w live _ = grind (arith, live)
  round_trip leave b b' w live h = absurd (h refl)

  abbrev IsRefused : Bool → World W → World W → Type ℓ
  IsRefused ok_y w after =
      (after.account ≡ w.account)
      × ((after.accepted ≡ w.accepted)
          ⊎ ((order : Sent W) × (ok_y ≡ true) × (after.accepted ≡ w.accepted ++ (order ∷ []))))

  if-IsRefused :
      (b ok_y : Bool) (w after : World W)
      → IsRefused ok_y w after
      → IsRefused ok_y w (if b then w else after)
  if-IsRefused true ok_y w after h = (refl, inl refl)
  if-IsRefused false ok_y w after h = h

  position-IsRefused :
      (ok_y : Bool) (w : World W) (p : Option (Held W)) (after : Held W → World W)
      → ((pos : Held W) → IsRefused ok_y w (after pos))
      → IsRefused ok_y w (elim p [ none ↦ w | some pos ↦ after pos ])
  position-IsRefused ok_y w none after h = (refl, inl refl)
  position-IsRefused ok_y w (some pos) after h = h pos

  two_orders-IsRefused :
      (y x : Sent W) (change : Account W → Account W) (ok_y ok_x : Bool) (w : World W)
      → (ok_y && ok_x) ≡ false
      → IsRefused ok_y w (two_orders y x change ok_y ok_x w)
  unfolding two_orders
  two_orders-IsRefused y x change false ok_x w h = (refl, inl refl)
  two_orders-IsRefused y x change true false w h = (refl, inr (y, refl, refl))
  two_orders-IsRefused y x change true true w h = absurd cc

  -- An action with a refused order leaves the account as it was, even where the exchange has accepted
  -- the order of the first leg.
  pub refused_keeps_account :
      (action : Action) (b : Prices W) (ok_y ok_x : Bool) (w : World W)
      → (ok_y && ok_x) ≡ false
      → let after = execute e b ok_y ok_x action w in
        (after.account ≡ w.account)
        × ((after.accepted ≡ w.accepted)
            ⊎ ((order : Sent W) × (ok_y ≡ true) × (after.accepted ≡ w.accepted ++ (order ∷ []))))
  unfolding execute
  refused_keeps_account entry_long b ok_y ok_x w h =
      if-IsRefused e.dry_run ok_y w _ (two_orders-IsRefused _ _ _ ok_y ok_x w h)
  refused_keeps_account entry_short b ok_y ok_x w h =
      if-IsRefused e.dry_run ok_y w _ (two_orders-IsRefused _ _ _ ok_y ok_x w h)
  refused_keeps_account leave b ok_y ok_x w h = if-IsRefused e.dry_run ok_y w _ (
      position-IsRefused ok_y w w.account.current_position _
        (λ pos. two_orders-IsRefused _ _ _ ok_y ok_x w h))

  -- Exits at these prices whose second order is refused each time.
  unfoldable pub failing_exits : List (Prices W) → World W → World W
  failing_exits [] w = w
  failing_exits (b ∷ bs) w = failing_exits bs (execute e b true false leave w)

  -- One order for each of the prices.
  abbrev pub for_each : List (Prices W) → Sent W → List (Sent W)
  for_each [] order = []
  for_each (b ∷ bs) order = order ∷ for_each bs order

  failing_exit :
      (b : Prices W) (pos : Held W) (w : World W)
      → e.dry_run ≡ false
      → w.account.current_position ≡ some pos
      → execute e b true false leave w ≡ record w { accepted = w.accepted ++ (close_y pos ∷ []) }
  unfolding execute two_orders
  failing_exit b pos w live held = grind (arith, live, held)

  failing_exits-accepted :
      (bs : List (Prices W)) (pos : Held W) (w : World W)
      → e.dry_run ≡ false
      → w.account.current_position ≡ some pos
      → failing_exits bs w ≡ record w { accepted = w.accepted ++ for_each bs (close_y pos) }
  unfolding failing_exits
  failing_exits-accepted [] pos w live held =
      ap (λ sent. record w { accepted = sent }) (sym (append-nil w.accepted))
  failing_exits-accepted (b ∷ bs) pos w live held =
      ap (failing_exits bs) (failing_exit b pos w live held)
      ∙ failing_exits-accepted bs pos (record w { accepted = w.accepted ++ (close_y pos ∷ []) })
          live held
      ∙ ap (λ sent. record w { accepted = sent })
          (append_assoc w.accepted (close_y pos ∷ []) (for_each bs (close_y pos)))

  last_exit :
      (b : Prices W) (pos : Held W) (w : World W)
      → e.dry_run ≡ false
      → w.account.current_position ≡ some pos
      → let after = execute e b true true leave w in
        (after.account.current_position ≡ none)
        × (after.accepted ≡ (w.accepted ++ (close_y pos ∷ [])) ++ (close_x pos ∷ []))
  unfolding execute two_orders record_exit
  last_exit b pos w live held = grind (arith, live, held)

  exits_from :
      (bs : List (Prices W)) (b : Prices W) (pos : Held W) (w : World W)
      → e.dry_run ≡ false
      → w.account.current_position ≡ some pos
      → let after = execute e b true true leave (failing_exits bs w) in
        (after.account.current_position ≡ none)
        × (after.accepted
            ≡ ((w.accepted ++ for_each bs (close_y pos)) ++ (close_y pos ∷ []))
              ++ (close_x pos ∷ []))
  exits_from bs b pos w live held =
      rw (failing_exits-accepted bs pos w live held) (
        last_exit b pos (record w { accepted = w.accepted ++ for_each bs (close_y pos) }) live held)

  abbrev held_after : Leg → Leg → Prices W → Held W
  held_after y_side x_side b = record {
    y_side = y_side;
    x_side = x_side;
    y_qty = e.base_qty;
    x_qty = e.base_qty;
    y_entry = b.price_y;
    x_entry = b.price_x;
  }

  entered_long :
      (b : Prices W) (w : World W)
      → e.dry_run ≡ false
      → (execute e b true true entry_long w).account.current_position
        ≡ some (held_after long short b)
  unfolding execute two_orders record_entry_long
  entered_long b w live = grind (arith, live)

  entered_short :
      (b : Prices W) (w : World W)
      → e.dry_run ≡ false
      → (execute e b true true entry_short w).account.current_position
        ≡ some (held_after short long b)
  unfolding execute two_orders record_entry_short
  entered_short b w live = grind (arith, live)

  -- An entry all of whose orders are accepted, exits whose second order is refused each time, and one
  -- that succeeds: each failed exit has closed the first leg once, for the whole base quantity, before
  -- the last one closes both legs, though the account had one position of that quantity.
  pub retries_pile_up :
      (entry : Action) (b : Prices W) (bs : List (Prices W)) (b' : Prices W) (w : World W)
      → e.dry_run ≡ false
      → (entry ≡ leave → ⊥)
      → let side = side_of_y entry in
        let close = order_of sym_y (other side) (f.abs e.base_qty) in
        let entered = execute e b true true entry w in
        let after = execute e b' true true leave (failing_exits bs entered) in
        (after.account.current_position ≡ none)
        × (after.accepted
            ≡ ((entered.accepted ++ for_each bs close) ++ (close ∷ []))
              ++ (order_of sym_x side (f.abs e.base_qty) ∷ []))
  retries_pile_up entry_long b bs b' w live _ = exits_from bs b' _ _ live (entered_long b w live)
  retries_pile_up entry_short b bs b' w live _ = exits_from bs b' _ _ live (entered_short b w live)
  retries_pile_up leave b bs b' w live h = absurd (h refl)
