-- ===== src/Prelude/Dict.antt =====
-- A Python dict as an association list. Keys are numbers: the code only compares its string keys
-- (symbols, proposal ids, cache keys) and so each is the number of a name.
use quantluna.Prelude.{
  ℕ, ◌≡◌, Bool, true, false, Option, none, some, List, [], ◌∷◌, arith, ◌==◌, if◌then◌else◌,
}

abbrev pub Entry {ℓ} : Type ℓ → Type ℓ
Entry A = ℕ × A

abbrev pub Dict {ℓ} : Type ℓ → Type ℓ
Dict A = List (Entry A)

-- `d.pop(k, None)`: every entry of the key, of which a dict has one at most
abbrev pub erase {ℓ} : {A : Type ℓ} → ℕ → Dict A → Dict A
erase key [] = []
erase key (item ∷ items) = let rest = erase key items in if key == item.0 then rest else item ∷ rest

-- `d.get(k)`
abbrev pub lookup {ℓ} : {A : Type ℓ} → ℕ → Dict A → Option A
lookup key [] = none
lookup key (item ∷ items) = if key == item.0 then some item.1 else lookup key items

pub lookup-erase {ℓ} :
    {A : Type ℓ} (j key : ℕ) (items : Dict A)
    → lookup j (erase key items) ≡ (if j == key then none else lookup j items)
lookup-erase j key [] = ground arith
lookup-erase j key (item ∷ items) = ground (arith, lookup-erase j key items)

-- `d[k] = v`
abbrev pub insert {ℓ} : {A : Type ℓ} → ℕ → A → Dict A → Dict A
insert key value [] = (key, value) ∷ []
insert key value (item ∷ items) =
    let rest = insert key value items in if key == item.0 then (key, value) ∷ items else item ∷ rest

pub lookup-insert {ℓ} :
    {A : Type ℓ} (j key : ℕ) (value : A) (items : Dict A)
    → lookup j (insert key value items) ≡ (if j == key then some value else lookup j items)
lookup-insert j key value [] = ground arith
lookup-insert j key value (item ∷ items) = ground (arith, lookup-insert j key value items)

-- `k in d`
abbrev pub contains {ℓ} : {A : Type ℓ} → ℕ → Dict A → Bool
contains key items = elim (lookup key items) [ some _ ↦ true | none ↦ false ]
