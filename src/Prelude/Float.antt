-- ===== src/Prelude/Float.antt =====
-- What the code does with a double: constants, some operations and two comparisons.
use quantluna.Prelude.{ℕ, ◌+◌, ◌-◌, ◌*◌, ◌/◌, ◌^◌, ◌≡◌, Bool, true, arith, ltb, leb, if◌then◌else◌}

pub record Float {ℓ} (W : Type ℓ) : Type ℓ where
  pub nought : W
  pub one : W
  pub infinity : W
  pub add : W → W → W
  pub sub : W → W → W
  pub mul : W → W → W
  pub div : W → W → W
  pub abs : W → W
  pub lt : W → W → Bool
  pub le : W → W → Bool

-- The comparisons of IEEE doubles. NaN is the value that is not `<=` itself.
pub record IsOrdered {ℓ} (W : Type ℓ) ⦃f : Float W⦄ : Type ℓ where
  pub refl_of_le : (x y : W) → f.le x y ≡ true → (f.le x x ≡ true) × (f.le y y ≡ true)
  pub le_trans : (x y z : W) → f.le x y ≡ true → f.le y z ≡ true → f.le x z ≡ true
  pub lt→le : (x y : W) → f.lt x y ≡ true → f.le x y ≡ true

-- Python's `max(x, y)` and `min(x, y)`, which keep the first unless the second is beyond it.
abbrev pub max_of {ℓ} : {W : Type ℓ} ⦃f : Float W⦄ → W → W → W
max_of ⦃f⦄ x y = if f.lt x y then y else x

abbrev pub min_of {ℓ} : {W : Type ℓ} ⦃f : Float W⦄ → W → W → W
min_of ⦃f⦄ x y = if f.lt y x then y else x

-- The laws can be met: thousandths, rounded down, with no negative numbers.
abbrev pub Thousandths : Type 0
Thousandths = ℕ

instance abbrev pub thousandths_float : Float Thousandths
thousandths_float = record {
  nought = 0;
  one = 1000;
  infinity = 10 ^ 12;
  add = λ x y. x + y;
  sub = λ x y. x - y;
  mul = λ x y. x * y / 1000;
  div = λ x y. x * 1000 / y;
  abs = λ x. x;
  lt = ltb;
  le = leb;
}

pub Thousandths-IsOrdered : IsOrdered Thousandths
Thousandths-IsOrdered = ground arith
