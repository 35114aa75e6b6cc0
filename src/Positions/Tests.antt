-- ===== src/Positions/Tests.antt =====
-- core/position_store.py: the theorem at an input, on the SQLite backend. A text is the number that it
-- shows, and 999 is no number.
use quantluna.Prelude.{
  ℕ, ◌*◌, ◌≡◌, refl, true, Option, none, some, List, [], ◌∷◌, ◌==◌, if◌then◌else◌,
}
use quantluna.Prelude.Dict.{Dict}
use quantluna.Prelude.Float.{Thousandths, thousandths_float}
use quantluna.Store.Sqlite
use quantluna.Store.Sqlite.{Json, SqliteStore}
use quantluna.Store.Implementations.{sqlite_store, sqlite_store-IsStore}
use quantluna.Positions.{
  Row, text, number, symbol, side, size, leverage, exchange_entry_price, exchange_unrealised_pnl,
  entry_price, unrealised_pnl, values, saved_row, by_symbol, save_bybit_positions,
  load_bybit_positions, load_positions, clear,
}
use quantluna.Positions.Roundtrip.{normal_row, normal_rows, save_then_load}

abbrev parse : ℕ → Option Thousandths
parse t = if t == 999 then none else some (t * 1000)

-- A row of the exchange that has texts and no leverage.
abbrev row : ℕ → Row Thousandths
row qty = (side, text 1) ∷ ((size, text qty) ∷ ((exchange_entry_price, text 65) ∷ []))

-- Every row is encoded, as itself.
abbrev json : Json ℕ (Row Thousandths)
json = record {
  null = [];
  encodes = λ v. true;
  recode = λ v. v;
  encodes_plain = λ v. true;
  recode_plain = λ v. v;
  error_fields = λ v. [];
}

abbrev rows : List (Option ℕ × Row Thousandths)
rows = (some 7, row 3) ∷ ((none, row 4) ∷ ((some 8, row 5) ∷ ((some 7, row 6) ∷ [])))

abbrev saved_form : ℕ → ℕ → Row Thousandths
saved_form name qty =
    (symbol, text name)
    ∷ ((side, text 1)
        ∷ ((size, number (qty * 1000))
            ∷ ((entry_price, number 65000)
                ∷ ((unrealised_pnl, number 0) ∷ ((leverage, number 1000) ∷ [])))))

abbrev disk : SqliteStore ℕ (Row Thousandths)
disk = Sqlite.new

all_numbers : by_symbol parse [] rows ≡ some ((7, saved_form 7 6) ∷ ((8, saved_form 8 5) ∷ []))
unfolding by_symbol saved_row
all_numbers = refl

refused : by_symbol parse [] ((some 7, row 999) ∷ []) ≡ none
unfolding by_symbol saved_row
refused = refl

normal :
    normal_row parse 7 (row 6)
    ≡ some (
        (symbol, text 7)
        ∷ ((side, text 1)
            ∷ ((size, number 6000)
                ∷ ((exchange_entry_price, number 65000)
                    ∷ ((exchange_unrealised_pnl, number 0) ∷ ((leverage, number 1000) ∷ []))))))
unfolding normal_row
normal = refl

save_then_load_example :
    let store = sqlite_store json in
    let (saved, ok) = save_bybit_positions parse store 5 rows disk in
    (ok ≡ true)
    × ((c : Dict (Row Thousandths)) × (normal_rows parse [] rows ≡ some c)
        × ((load_bybit_positions parse store 6 saved).1 ≡ some (values c)))
    × ((load_positions parse store 6 saved).1 ≡ (load_positions parse store 6 disk).1)
    × ((load_bybit_positions parse store 6 (clear parse store saved)).1 ≡ some [])
    × ((load_positions parse store 6 (clear parse store saved)).1 ≡ some [])
save_then_load_example =
    save_then_load parse (sqlite_store json) (sqlite_store-IsStore json) 5 6 rows disk
      ((7, saved_form 7 6) ∷ ((8, saved_form 8 5) ∷ [])) all_numbers
      ((refl, refl), ((refl, refl), tt)) refl
