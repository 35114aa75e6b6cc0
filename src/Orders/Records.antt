-- ===== src/Orders/Records.antt =====
-- execution/order_manager.py: reading a record after one is changed or added, and the edges of the
-- life of an order.
use quantluna.Prelude.{
  ℕ, zero, suc, ◌+◌, ◌≡◌, refl, Bool, true, false, Option, none, some, List, [], ◌∷◌, ◌++◌, ◌==◌,
  length, arith, get_elem?, if◌then◌else◌,
}
use quantluna.Orders.State.{
  Status, pending, submitted, filled, cancelled, failed, timed_out, Notice, fill, close,
  is_terminal, is_open, modify,
}

abbrev pub mapped {ℓ} : {A : Type ℓ} → (A → A) → Option A → Option A
mapped change none = none
mapped change (some x) = some (change x)

pub get_elem?-modify {ℓ} :
    {A : Type ℓ} (i j : ℕ) (change : A → A) (xs : List A)
    → get_elem? (modify i change xs) j
      ≡ (if i == j then mapped change (get_elem? xs j) else get_elem? xs j)
unfolding modify
get_elem?-modify i j change [] = ground arith
get_elem?-modify zero zero change (x ∷ xs) = ground arith
get_elem?-modify zero (suc j) change (x ∷ xs) = ground arith
get_elem?-modify (suc i) zero change (x ∷ xs) = ground arith
get_elem?-modify (suc i) (suc j) change (x ∷ xs) = ground (arith, get_elem?-modify i j change xs)

pub get_elem?-add {ℓ} :
    {A : Type ℓ} (y : A) (j : ℕ) (xs : List A)
    → get_elem? (xs ++ (y ∷ [])) j ≡ (if length xs == j then some y else get_elem? xs j)
get_elem?-add y zero [] = ground arith
get_elem?-add y (suc j) [] = ground arith
get_elem?-add y zero (x ∷ xs) = ground arith
get_elem?-add y (suc j) (x ∷ xs) = ground (arith, get_elem?-add y j xs)

pub get_elem?-length {ℓ} : {A : Type ℓ} (xs : List A) → get_elem? xs (length xs) ≡ none
get_elem?-length [] = refl
get_elem?-length (x ∷ xs) = get_elem?-length xs

-- How often the callbacks were told of a record.
abbrev pub is_about : ℕ → Notice → Bool
is_about i (fill j) = j == i
is_about i (close j) = j == i

unfoldable pub times_told : ℕ → List Notice → ℕ
times_told i [] = 0
times_told i (n ∷ ns) = (if is_about i n then 1 else 0) + times_told i ns

pub times_told-add :
    (i : ℕ) (ns : List Notice) (n : Notice)
    → times_told i (ns ++ (n ∷ [])) ≡ times_told i ns + (if is_about i n then 1 else 0)
unfolding times_told
times_told-add i [] n = ground arith
times_told-add i (m ∷ ms) n = ground (arith, times_told-add i ms n)

infix 40 ◌⟶◌ ◌⟶*◌
pub data ◌⟶◌ : Status → Status → Type 0 where
  dry_run : pending ⟶ filled
  no_router : pending ⟶ failed
  go_out : pending ⟶ submitted
  refuse : submitted ⟶ failed
  come_back : submitted ⟶ filled
  withdraw : {s : Status} → is_open s ≡ true → s ⟶ cancelled
  expire : {s : Status} → is_open s ≡ true → s ⟶ timed_out

pub data ◌⟶*◌ : Status → Status → Type 0 where
  here : {s : Status} → s ⟶* s
  next : {s t u : Status} → s ⟶ t → t ⟶* u → s ⟶* u

pub ⟶*-join : {s t u : Status} → s ⟶* t → t ⟶* u → s ⟶* u
⟶*-join here w = w
⟶*-join (next e v) w = next e (⟶*-join v w)

pub is_open-not-terminal : (s : Status) → is_open s ≡ true → is_terminal s ≡ false
is_open-not-terminal s h = grind arith

⟶-not-terminal : {s t : Status} → s ⟶ t → is_terminal s ≡ false
⟶-not-terminal dry_run = refl
⟶-not-terminal no_router = refl
⟶-not-terminal go_out = refl
⟶-not-terminal refuse = refl
⟶-not-terminal come_back = refl
⟶-not-terminal (withdraw h) = is_open-not-terminal _ h
⟶-not-terminal (expire h) = is_open-not-terminal _ h

pub ⟶*-terminal : {s t : Status} → is_terminal s ≡ true → s ⟶* t → t ≡ s
⟶*-terminal h here = refl
⟶*-terminal h (next e v) = let alive = ⟶-not-terminal e in absurd cc
