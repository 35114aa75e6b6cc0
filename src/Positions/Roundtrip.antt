-- ===== src/Positions/Roundtrip.antt =====
-- core/position_store.py: loading after saving.
use quantluna.Prelude.{
  ℕ, ◌≡◌, refl, sym, ◌∙◌, true, Option, none, some, List, [], ◌∷◌, ◌==◌, ap, inl, inr, Bool-cases,
}
use mathlib.Core.Path.{subst}
use mathlib.Core.Option.{some-injective}
use quantluna.Prelude.Dict.{Dict, insert}
use quantluna.Prelude.Float.{Float}
use quantluna.Store.Sqlite.{Value, fields}
use quantluna.Store.Interface.{AbstractStore, IsStore}
use quantluna.Positions.{
  text, number, Row, symbol, side, size, leverage, exchange_entry_price, exchange_unrealised_pnl,
  empty, open_positions, bybit_positions, values, get, get_float, saved_row, loaded_row, by_symbol,
  loaded_rows, save_bybit_positions, items, rows_of, load_positions, load_bybit_positions, clear,
  ◌>>=◌,
}

-- A chain that gives a result has one at its first step.
bind-some {ℓ} :
    {A B : Type ℓ} (m : Option A) (g : A → Option B) {b : B}
    → (m >>= g) ≡ some b
    → (a : A) × (m ≡ some a) × (g a ≡ some b)
bind-some none g h = absurd cc
bind-some (some a) g h = (a, refl, h)

-- Four steps that may fail, and then a row.
abbrev in_turn {ℓ} :
    {W : Type ℓ}
    → (W → W → W → W → Row W)
    → Option W
    → Option W
    → Option W
    → Option W
    → Option (Row W)
in_turn row a b c d = do a' ← a; b' ← b; c' ← c; d' ← d; some (row a' b' c' d')

in_turn-some {ℓ} :
    {W : Type ℓ} (row row' : W → W → W → W → Row W) (load : Row W → Option (Row W))
    (a b c d : Option W) (r : Row W)
    → ((x y z u : W) → load (row x y z u) ≡ some (row' x y z u))
    → in_turn row a b c d ≡ some r
    → (r' : Row W) × (in_turn row' a b c d ≡ some r') × (load r ≡ some r')
in_turn-some row row' load none b c d r same h = absurd cc
in_turn-some row row' load (some x) none c d r same h = absurd cc
in_turn-some row row' load (some x) (some y) none d r same h = absurd cc
in_turn-some row row' load (some x) (some y) (some z) none r same h = absurd cc
in_turn-some row row' load (some x) (some y) (some z) (some u) r same h =
    (row' x y z u, refl, ap load (sym (some-injective _ _ h)) ∙ same x y z u)

module _ {ℓ} {W : Type ℓ} ⦃f : Float W⦄ (parse : ℕ → Option W) where
  -- A row of the exchange with the same meaning: under the keys of the exchange, its numbers as
  -- numbers and its defaults filled in.
  unfoldable pub normal_row : ℕ → Row W → Option (Row W)
  normal_row name pos = do
    size' ← get_float parse size f.nought pos
    entry' ← get_float parse exchange_entry_price f.nought pos
    pnl' ← get_float parse exchange_unrealised_pnl f.nought pos
    leverage' ← get_float parse leverage f.one pos
    some (
        (symbol, text name)
        ∷ ((side, get parse side (text empty) pos)
            ∷ ((size, number size')
                ∷ ((exchange_entry_price, number entry')
                    ∷ ((exchange_unrealised_pnl, number pnl')
                        ∷ ((leverage, number leverage') ∷ []))))))

  -- The last normal row of each symbol, at the place of its first.
  unfoldable pub normal_rows : Dict (Row W) → List (Option ℕ × Row W) → Option (Dict (Row W))
  normal_rows d [] = some d
  normal_rows d ((none, pos) ∷ rows) = normal_rows d rows
  normal_rows d ((some name, pos) ∷ rows) = do
    row ← normal_row name pos
    normal_rows (insert name row d) rows

  -- Loading the first dict row by row gives the second.
  data IsLoaded : Dict (Row W) → Dict (Row W) → Type ℓ where
    no_row : IsLoaded [] []
    row_more :
        (k : ℕ) (r r' : Row W) (d c : Dict (Row W))
        → loaded_row parse k r ≡ some r'
        → IsLoaded d c
        → IsLoaded ((k, r) ∷ d) ((k, r') ∷ c)

  saved-normal :
      (name : ℕ) (pos r : Row W)
      → saved_row parse name pos ≡ some r
      → (r' : Row W) × (normal_row name pos ≡ some r') × (loaded_row parse name r ≡ some r')
  unfolding saved_row normal_row loaded_row
  saved-normal name pos r h =
      in_turn-some _ _ (loaded_row parse name) (get_float parse size f.nought pos)
        (get_float parse exchange_entry_price f.nought pos)
        (get_float parse exchange_unrealised_pnl f.nought pos) (get_float parse leverage f.one pos)
        r (λ x y z u. refl) h

  insert-IsLoaded :
      (name : ℕ) (r r' : Row W) {d c : Dict (Row W)}
      → loaded_row parse name r ≡ some r'
      → IsLoaded d c
      → IsLoaded (insert name r d) (insert name r' c)
  insert-IsLoaded name r r' h no_row = row_more name r r' [] [] h no_row
  insert-IsLoaded name r r' h (row_more k s s' d c e v) = elim (Bool-cases (name == k)) [
    | inl same ↦ rw same (row_more name r r' d c h v)
    | inr other ↦
        rw other
          (row_more k s s' (insert name r d) (insert name r' c) e (insert-IsLoaded name r r' h v))
  ]

  loaded_rows-values : {d c : Dict (Row W)} → IsLoaded d c → loaded_rows parse d ≡ some (values c)
  unfolding loaded_rows
  loaded_rows-values no_row = refl
  loaded_rows-values (row_more k r r' d c e v) = rw (e, loaded_rows-values v) refl

  by_symbol-normal :
      (rows : List (Option ℕ × Row W)) (d c : Dict (Row W)) (final : Dict (Row W))
      → by_symbol parse d rows ≡ some final
      → IsLoaded d c
      → (c' : Dict (Row W)) × (normal_rows c rows ≡ some c') × IsLoaded final c'
  unfolding by_symbol normal_rows
  by_symbol-normal [] d c final h v = (c, refl, subst (λ x. IsLoaded x c) (some-injective _ _ h) v)
  by_symbol-normal ((none, pos) ∷ rows) d c final h v = by_symbol-normal rows d c final h v
  by_symbol-normal ((some name, pos) ∷ rows) d c final h v =
      let (row, saved, more) =
        bind-some (saved_row parse name pos) (λ row. by_symbol parse (insert name row d) rows) h in
      let (row', normal, loads) = saved-normal name pos row saved in
      let (c', rest, loaded) =
        by_symbol-normal rows (insert name row d) (insert name row' c) final more
          (insert-IsLoaded name row row' loads v) in
      (c', rw normal rest, loaded)

module _ {ℓ} {S P W : Type ℓ} ⦃f : Float W⦄ (parse : ℕ → Option W)
    (store : AbstractStore S (Value P (Row W))) {Keeps : Value P (Row W) → Type ℓ}
    {IsSound : S → Type ℓ} (laws : IsStore store Keeps IsSound) where
  saved_state :
      (now : ℕ) (rows : List (Option ℕ × Row W)) (s : S) (d : Dict (Row W))
      → by_symbol parse [] rows ≡ some d
      → save_bybit_positions parse store now rows s
        ≡ (store.set now bybit_positions (fields d) none s, true)
  unfolding save_bybit_positions
  saved_state now rows s d h = rw (h, save_bybit_positions) refl

  -- A store that keeps its promises gives the positions back: if every number of the rows of the
  -- exchange is one, then saving them in a sound state returns, and loading gives the last row of each
  -- symbol in the form of the exchange, with numbers for texts and the defaults filled in; the
  -- saved open positions are still what they were; and after `clear` both are empty.
  pub save_then_load :
      (now later : ℕ) (rows : List (Option ℕ × Row W)) (s : S) (d : Dict (Row W))
      → by_symbol parse [] rows ≡ some d
      → Keeps (fields d)
      → IsSound s
      → let (saved, ok) = save_bybit_positions parse store now rows s in
        (ok ≡ true)
        × ((c : Dict (Row W)) × (normal_rows parse [] rows ≡ some c)
            × ((load_bybit_positions parse store later saved).1 ≡ some (values c)))
        × ((load_positions parse store later saved).1 ≡ (load_positions parse store later s).1)
        × ((load_bybit_positions parse store later (clear parse store saved)).1 ≡ some [])
        × ((load_positions parse store later (clear parse store saved)).1 ≡ some [])
  unfolding load_bybit_positions load_positions clear loaded_rows
  save_then_load now later rows s d h keeps sound =
      let v = fields d in
      let saved = store.set now bybit_positions v none s in
      let saved_sound = laws.set-IsSound now bybit_positions v s keeps sound in
      let cleared = store.delete open_positions saved in
      let cleared_sound = laws.delete-IsSound open_positions saved saved_sound in
      let (c, normal, loaded) = by_symbol-normal parse rows [] [] d h no_row in
      rw (saved_state now rows s d h) (
        refl,
        (
          c,
          normal,
          ap (λ o. rows_of parse store (items parse store o))
                (laws.get-set now later bybit_positions v s keeps sound)
              ∙ loaded_rows-values parse loaded,
        ),
        ap (items parse store)
            (laws.get-set_other now later open_positions bybit_positions v s keeps sound refl),
        ap (λ o. rows_of parse store (items parse store o))
            (laws.get-delete later bybit_positions bybit_positions cleared cleared_sound),
        ap (items parse store) (
            laws.get-delete later open_positions bybit_positions cleared cleared_sound
            ∙ laws.get-delete later open_positions open_positions saved saved_sound),
      )
