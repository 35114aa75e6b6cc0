-- ===== src/Orders/State.antt =====
-- execution/order_manager.py: the records of the orders, and the state of an `OrderManager`.
use quantluna.Prelude.{ℕ, zero, suc, Bool, true, false, Option, List, [], ◌∷◌}
use quantluna.Prelude.Dict.{Dict}

-- `OrderStatus`
pub data Status : Type 0 where
  pending submitted filled partially cancelled failed timed_out : Status

-- `OrderSide` and `OrderType`
pub data Side : Type 0 where
  buy sell : Side

pub data Kind : Type 0 where
  market limit : Kind

pub record Request {ℓ} (W : Type ℓ) : Type ℓ where
  pub symbol : ℕ
  pub side : Side
  pub qty : W
  pub venue : ℕ
  pub order_type : Kind
  pub price : Option W

-- `OrderRecord`; `fill_price` and `filled_at` come together.
pub record Order {ℓ} (W : Type ℓ) : Type ℓ where
  pub local_id : ℕ
  pub request : Request W
  pub status : Status
  pub exchange_id : Option ℕ
  pub submitted_at : ℕ
  pub filled_at : Option ℕ
  pub fill_price : Option W
  pub fill_qty : W

pub record Config : Type 0 where
  pub market_timeout : ℕ
  pub limit_timeout : ℕ
  pub dry_run : Bool

-- A call of the callbacks with a record: those of `register_on_fill`, or of `register_on_close`.
pub data Notice : Type 0 where
  fill close : ℕ → Notice

-- The records are objects, numbered as they are made; the dict has the number of one for each id. The
-- venues are those with a router.
pub record Manager {ℓ} (W : Type ℓ) : Type ℓ where
  pub records : List (Order W)
  pub orders : Dict ℕ
  pub venues : List ℕ
  pub told : List Notice

abbrev pub is_open : Status → Bool
is_open submitted = true
is_open partially = true
is_open _ = false

abbrev pub is_terminal : Status → Bool
is_terminal pending = false
is_terminal submitted = false
is_terminal partially = false
is_terminal _ = true

-- A change of the record of a number.
unfoldable pub modify {ℓ} : {A : Type ℓ} → ℕ → (A → A) → List A → List A
modify i change [] = []
modify zero change (x ∷ xs) = change x ∷ xs
modify (suc i) change (x ∷ xs) = x ∷ modify i change xs
