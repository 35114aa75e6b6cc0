-- ===== src/Positions.antt =====
-- core/position_store.py: `PositionStore`, which keeps the open positions in a key-value store. The
-- store is any that keeps the promises of `AbstractStore`. A row is a dict of cells by the number of
-- their key; a text is its number.
pub mod Roundtrip
mod Tests
use quantluna.Prelude.{ℕ, Bool, true, false, Option, none, some, List, [], ◌∷◌}
use quantluna.Prelude.Dict.{Dict, lookup, insert}
use quantluna.Prelude.Float.{Float}
use quantluna.Store.Sqlite.{Value, plain, fields}
use quantluna.Store.Interface.{AbstractStore}

pub data Cell {ℓ} (W : Type ℓ) : Type ℓ where
  text : ℕ → Cell W
  number : W → Cell W

abbrev pub Row {ℓ} : Type ℓ → Type ℓ
Row W = Dict (Cell W)

-- The keys of a row: those of both forms, "entryPrice" and "unrealisedPnl" of the exchange, and those of
-- the store in their place.
abbrev pub symbol : ℕ
symbol = 0

abbrev pub side : ℕ
side = 1

abbrev pub size : ℕ
size = 2

abbrev pub leverage : ℕ
leverage = 3

abbrev pub exchange_entry_price : ℕ
exchange_entry_price = 4

abbrev pub exchange_unrealised_pnl : ℕ
exchange_unrealised_pnl = 5

abbrev pub entry_price : ℕ
entry_price = 6

abbrev pub unrealised_pnl : ℕ
unrealised_pnl = 7

infixl 10 ◌>>=◌
abbrev pub ◌>>=◌ {ℓ κ} : {A : Type ℓ} {B : Type κ} → Option A → (A → Option B) → Option B
none >>= g = none
some a >>= g = g a

-- The empty text.
abbrev pub empty : ℕ
empty = 0

-- The keys "open_positions" and "bybit_positions" of the store.
abbrev pub open_positions : ℕ
open_positions = 0

abbrev pub bybit_positions : ℕ
bybit_positions = 1

-- The values of a dict, in order.
abbrev pub values {ℓ} : {A : Type ℓ} → Dict A → List A
values [] = []
values (item ∷ items) = item.1 ∷ values items

module _ {ℓ} {W : Type ℓ} ⦃f : Float W⦄ (parse : ℕ → Option W) where
  -- `row.get(key, default)`
  abbrev pub get : ℕ → Cell W → Row W → Cell W
  get key default row = elim (lookup key row) [ some cell ↦ cell | none ↦ default ]

  -- `float`: a number is itself, and a text is parsed or raises.
  abbrev pub float : Cell W → Option W
  float (number x) = some x
  float (text t) = parse t

  -- `float(row.get(key, default))`
  abbrev pub get_float : ℕ → W → Row W → Option W
  get_float key default row = float (get key (number default) row)

  -- The row that `save_bybit_positions` builds of a row of the exchange.
  unfoldable pub saved_row : ℕ → Row W → Option (Row W)
  saved_row name pos = do
    size' ← get_float size f.nought pos
    entry' ← get_float exchange_entry_price f.nought pos
    pnl' ← get_float exchange_unrealised_pnl f.nought pos
    leverage' ← get_float leverage f.one pos
    some (
        (symbol, text name)
        ∷ ((side, get side (text empty) pos)
            ∷ ((size, number size')
                ∷ ((entry_price, number entry')
                    ∷ ((unrealised_pnl, number pnl') ∷ ((leverage, number leverage') ∷ []))))))

  -- The row that `load_bybit_positions` builds of a saved row.
  unfoldable pub loaded_row : ℕ → Row W → Option (Row W)
  loaded_row name pos_dict = do
    size' ← get_float size f.nought pos_dict
    entry' ← get_float entry_price f.nought pos_dict
    pnl' ← get_float unrealised_pnl f.nought pos_dict
    leverage' ← get_float leverage f.one pos_dict
    some (
        (symbol, text name)
        ∷ ((side, get side (text empty) pos_dict)
            ∷ ((size, number size')
                ∷ ((exchange_entry_price, number entry')
                    ∷ ((exchange_unrealised_pnl, number pnl')
                        ∷ ((leverage, number leverage') ∷ []))))))

  -- The dict that `save_bybit_positions` builds, from rows of the exchange with their symbols; a row
  -- whose symbol is missing or empty is skipped, and one with a text that is no number raises.
  unfoldable pub by_symbol : Dict (Row W) → List (Option ℕ × Row W) → Option (Dict (Row W))
  by_symbol d [] = some d
  by_symbol d ((none, pos) ∷ rows) = by_symbol d rows
  by_symbol d ((some name, pos) ∷ rows) = do
    row ← saved_row name pos
    by_symbol (insert name row d) rows

  -- The loop of `load_bybit_positions`.
  unfoldable pub loaded_rows : Dict (Row W) → Option (List (Row W))
  loaded_rows [] = some []
  loaded_rows (item ∷ items) = do
    row ← loaded_row item.0 item.1
    rest ← loaded_rows items
    some (row ∷ rest)

module _ {ℓ} {S P W : Type ℓ} ⦃f : Float W⦄ (parse : ℕ → Option W)
    (store : AbstractStore S (Value P (Row W))) where
  -- `save_positions`, of positions that are dicts or give one.
  unfoldable pub save_positions : ℕ → Dict (Row W) → S → S
  save_positions now positions s = store.set now open_positions (fields positions) none s

  -- `save_bybit_positions`, and whether it returns.
  unfoldable pub save_bybit_positions : ℕ → List (Option ℕ × Row W) → S → S × Bool
  save_bybit_positions now rows s = elim (by_symbol parse [] rows) [
    | some serializable ↦ (store.set now bybit_positions (fields serializable) none s, true)
    | none ↦ (s, false)
  ]

  -- What is found under a key: nothing is an empty dict, and what is no dict raises.
  abbrev pub items : Option (Value P (Row W)) → Option (Dict (Row W))
  items none = some []
  items (some (fields d)) = some d
  items (some (plain p)) = none

  unfoldable pub load_positions : ℕ → S → S × Option (Dict (Row W))
  load_positions now s = let (s', v) = store.get now open_positions s in (s', items v)

  abbrev pub rows_of : Option (Dict (Row W)) → Option (List (Row W))
  rows_of none = none
  rows_of (some d) = loaded_rows parse d

  unfoldable pub load_bybit_positions : ℕ → S → S × Option (List (Row W))
  load_bybit_positions now s =
      let (s', v) = store.get now bybit_positions s in (s', rows_of (items v))

  unfoldable pub clear : S → S
  clear s = store.delete bybit_positions (store.delete open_positions s)
