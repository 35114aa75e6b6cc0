-- ===== src/Orders/Account.antt =====
-- execution/order_manager.py: the position that an `OrderManager` keeps beside its orders.
use quantluna.Prelude.{
  ◌≡◌, Bool, true, false, ◌&&◌, ◌||◌, Option, none, some, List, [], ◌∷◌, arith, if◌then◌else◌,
}
use quantluna.Prelude.Float.{Float}

pub data Leg : Type 0 where
  long short absent : Leg

-- `_Pos` and `_AdoptedPos`; what an adopted position says of its profit is not read.
pub record Held {ℓ} (W : Type ℓ) : Type ℓ where
  pub y_side : Leg
  pub x_side : Leg
  pub y_qty : W
  pub x_qty : W
  pub y_entry : W
  pub x_entry : W

pub record Account {ℓ} (W : Type ℓ) : Type ℓ where
  pub current_position : Option (Held W)
  pub current_pnl : Option W
  pub adopted_record : Option (Held W)
  pub adopted : Bool

abbrev pub is_some {ℓ} : {A : Type ℓ} → Option A → Bool
is_some none = false
is_some (some x) = true

abbrev pub is_long : Leg → Bool
is_long long = true
is_long _ = false

module _ {ℓ} {W : Type ℓ} where
  abbrev pub new_account : Account W
  new_account = record {
    current_position = none;
    current_pnl = none;
    adopted_record = none;
    adopted = false;
  }

  unfoldable pub adopt_position : Held W → Account W → Account W
  adopt_position held a = record a {
    current_position = some held;
    adopted = true;
    adopted_record = some held;
  }

  unfoldable pub release_adopted_position : Account W → Account W
  release_adopted_position a = record {
    current_position = none;
    current_pnl = none;
    adopted_record = none;
    adopted = false;
  }

  -- The last argument: `open_orders` is not empty.
  unfoldable pub has_position : Account W → Bool → Bool
  has_position a has_open =
      (a.adopted && is_some a.adopted_record) || is_some a.current_position || has_open

  unfoldable pub record_entry_long : W → W → W → Account W → Account W
  record_entry_long qty price_y price_x a = record a {
    current_position = some (record {
      y_side = long;
      x_side = short;
      y_qty = qty;
      x_qty = qty;
      y_entry = price_y;
      x_entry = price_x;
    });
    adopted = false;
  }

  unfoldable pub record_entry_short : W → W → W → Account W → Account W
  record_entry_short qty price_y price_x a = record a {
    current_position = some (record {
      y_side = short;
      x_side = long;
      y_qty = qty;
      x_qty = qty;
      y_entry = price_y;
      x_entry = price_x;
    });
    adopted = false;
  }

module _ {ℓ} {W : Type ℓ} ⦃f : Float W⦄ where
  unfoldable pub pnl_of : W → W → Held W → W
  pnl_of price_y price_x pos =
      if is_long pos.y_side
      then f.sub (f.mul (f.sub price_y pos.y_entry) pos.y_qty)
          (f.mul (f.sub price_x pos.x_entry) pos.x_qty)
      else f.add (f.mul (f.sub pos.y_entry price_y) pos.y_qty)
          (f.mul (f.sub price_x pos.x_entry) pos.x_qty)

  unfoldable pub record_exit : W → W → Account W → Account W
  record_exit price_y price_x a = elim a.current_position [
    | none ↦ a
    | some pos ↦ record {
      current_position = none;
      current_pnl = some (pnl_of price_y price_x pos);
      adopted_record = none;
      adopted = false;
    }
  ]

-- The calls that change the account.
pub data Change {ℓ} (W : Type ℓ) : Type ℓ where
  adopts : Held W → Change W
  releases : Change W
  enters_long enters_short : W → W → W → Change W
  exits : W → W → Change W

module _ {ℓ} {W : Type ℓ} ⦃f : Float W⦄ where
  unfoldable pub change : Change W → Account W → Account W
  change (adopts held) a = adopt_position held a
  change releases a = release_adopted_position a
  change (enters_long qty y x) a = record_entry_long qty y x a
  change (enters_short qty y x) a = record_entry_short qty y x a
  change (exits y x) a = record_exit y x a

  unfoldable pub changes : List (Change W) → Account W → Account W
  changes [] a = a
  changes (c ∷ cs) a = changes cs (change c a)

  abbrev IsBacked : Account W → Type 0
  IsBacked a = a.adopted ≡ true → is_some a.current_position ≡ true

  change-IsBacked : (c : Change W) (a : Account W) → IsBacked a → IsBacked (change c a)
  unfolding change adopt_position release_adopted_position record_entry_long record_entry_short
      record_exit
  change-IsBacked (adopts held) a v = grind arith
  change-IsBacked releases a v = grind arith
  change-IsBacked (enters_long qty y x) a v = grind arith
  change-IsBacked (enters_short qty y x) a v = grind arith
  change-IsBacked (exits y x) a v = grind (arith, v)

  changes-IsBacked : (cs : List (Change W)) (a : Account W) → IsBacked a → IsBacked (changes cs a)
  unfolding changes
  changes-IsBacked [] a v = v
  changes-IsBacked (c ∷ cs) a v = changes-IsBacked cs (change c a) (change-IsBacked c a v)

  -- Whatever calls made the account of a new manager, it has a position exactly if one is current or an
  -- order is open: the record of an adopted position adds nothing.
  pub has_position_current :
      (cs : List (Change W)) (has_open : Bool)
      → let a = changes cs new_account in
        has_position a has_open ≡ (is_some a.current_position || has_open)
  unfolding has_position
  has_position_current cs has_open = grind (arith, changes-IsBacked cs new_account (λ h. absurd cc))
