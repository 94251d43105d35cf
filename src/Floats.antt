-- ===== src/Floats.antt =====
-- Python's `float` as the conversions of the drivers use it: the numbers that an `int` or a decimal
-- literal stands for, the four operations, and `round` to a number of decimals. The values and the
-- rounding are those of the interpreter, so the type and its operations are a parameter here, and
-- the theorems hold whatever they are.
use kanfei.Prelude.{ℕ, ℤ, pos, Bool, List}

pub record Float {ℓ} (F : Type ℓ) : Type ℓ where
  pub of_int : ℤ → F
  -- `decimal n k` is the literal with the digits of `n`, the last `k` of them behind the point.
  pub decimal : ℕ → ℕ → F
  pub add : F → F → F
  pub sub : F → F → F
  pub mul : F → F → F
  pub div : F → F → F
  -- round(x, n), and round(x) of one argument, which gives an int
  pub round_to : F → ℕ → F
  pub round_int : F → ℤ

module _ {ℓ} {F : Type ℓ} ⦃fl : Float F⦄ where
  abbrev pub of_int : ℤ → F
  of_int = fl.of_int

  abbrev pub of_nat : ℕ → F
  of_nat n = fl.of_int (pos n)

  abbrev pub decimal : ℕ → ℕ → F
  decimal = fl.decimal

  infixl 65 ◌⊕◌ ◌⊖◌
  infixl 70 ◌⊗◌ ◌⊘◌
  abbrev pub ◌⊕◌ : F → F → F
  a ⊕ b = fl.add a b

  abbrev pub ◌⊖◌ : F → F → F
  a ⊖ b = fl.sub a b

  abbrev pub ◌⊗◌ : F → F → F
  a ⊗ b = fl.mul a b

  abbrev pub ◌⊘◌ : F → F → F
  a ⊘ b = fl.div a b

  abbrev pub round_to : F → ℕ → F
  round_to = fl.round_to

  abbrev pub round_int : F → ℤ
  round_int = fl.round_int

-- The comparisons of floats, `int(x)`, and the built-in `sum`, which compensates its rounding from
-- Python 3.12 on.
pub record Comparable {ℓ} (F : Type ℓ) : Type ℓ where
  pub lt : F → F → Bool
  pub le : F → F → Bool
  pub truncate : F → ℤ
  pub sum : List F → F

module _ {ℓ} {F : Type ℓ} ⦃c : Comparable F⦄ where
  infix 50 ◌⊏◌ ◌⊑◌
  abbrev pub ◌⊏◌ : F → F → Bool
  a ⊏ b = c.lt a b

  abbrev pub ◌⊑◌ : F → F → Bool
  a ⊑ b = c.le a b

  abbrev pub truncate : F → ℤ
  truncate = c.truncate
