-- ===== src/Store/Interface.antt =====
-- core/store.py: `AbstractStore`, as its clients use it.
use quantluna.Prelude.{ℕ, ◌≡◌, false, Option, none, some, ◌==◌, if◌then◌else◌}

-- The operations, each with the reading of the clock where it reads it.
pub record AbstractStore {ℓ} (S V : Type ℓ) : Type ℓ where
  pub get : ℕ → ℕ → S → S × Option V
  pub set : ℕ → ℕ → V → Option ℕ → S → S
  pub delete : ℕ → S → S

-- What a client may rely on, for the values that the backend keeps and in its sound states: a value
-- that is set without a time to live is found, other keys are not touched, and what is deleted is not
-- found.
pub record IsStore {ℓ} {S V : Type ℓ} (store : AbstractStore S V) (Keeps : V → Type ℓ)
    (IsSound : S → Type ℓ) : Type ℓ where
  pub set-IsSound :
      (now key : ℕ) (v : V) (s : S) → Keeps v → IsSound s → IsSound (store.set now key v none s)
  pub delete-IsSound : (key : ℕ) (s : S) → IsSound s → IsSound (store.delete key s)
  pub get-set :
      (now later key : ℕ) (v : V) (s : S)
      → Keeps v
      → IsSound s
      → (store.get later key (store.set now key v none s)).1 ≡ some v
  pub get-set_other :
      (now later j key : ℕ) (v : V) (s : S)
      → Keeps v
      → IsSound s
      → (j == key) ≡ false
      → (store.get later j (store.set now key v none s)).1 ≡ (store.get later j s).1
  pub get-delete :
      (later j key : ℕ) (s : S)
      → IsSound s
      → (store.get later j (store.delete key s)).1
        ≡ (if j == key then none else (store.get later j s).1)
