-- ===== src/Common/Floats.antt =====
-- `f64`, as far as the program computes with it: the type and its operations are parameters. A law
-- is what IEEE 754 says of them.
use Prim.Native.Nat.{ℕ, zero, suc, ◌≤◌, ◌<◌, ◌*◌, ◌/◌}
use mathlib.Core.Path.{◌≡◌}

-- The exponent of `powi`, an `i32`: `negsuc n` is -(n + 1).
pub data ℤ : Type 0 where
  pos : ℕ → ℤ
  negsuc : ℕ → ℤ

-- `n - 1`
unfoldable pub minus_one : ℕ → ℤ
minus_one zero = negsuc 0
minus_one (suc n) = pos n

pub record Float : Type 1 where
  pub F64 : Type 0
  -- `as f64` of a number that is not negative, and `as u64`, which cuts off the fraction
  pub of_nat : ℕ → F64
  pub to_u64 : F64 → ℕ
  pub times : F64 → F64 → F64
  pub divided_by : F64 → F64 → F64
  pub powi : F64 → ℤ → F64
  -- 1.0 and 2.0
  pub one : F64
  pub two : F64

abbrev pub exact_limit : ℕ
exact_limit = 1125899906842624

-- Products are monotone and so is the conversion; below 2 ^ 50 the products with 0.75 and 1.25 are
-- exact, as they need no more than 53 bits.
pub record FloatLaws (float : Float) : Type 1 where
  pub Le : (a b : float.F64) → Type 0
  pub three_quarters : float.F64
  pub five_quarters : float.F64
  pub times-mono :
      (n : ℕ) (a b : float.F64)
      → Le a b
      → Le (float.times (float.of_nat n) a) (float.times (float.of_nat n) b)
  pub to_u64-mono : (a b : float.F64) → Le a b → float.to_u64 a ≤ float.to_u64 b
  pub times-three_quarters :
      (n : ℕ)
      → n < exact_limit
      → float.to_u64 (float.times (float.of_nat n) three_quarters) ≡ n * 3 / 4
  pub times-five_quarters :
      (n : ℕ)
      → n < exact_limit
      → float.to_u64 (float.times (float.of_nat n) five_quarters) ≡ n * 5 / 4
