-- ===== src/Floats.antt =====
-- includes/deployment/deployment_utilities.hpp, and the floating point of the program. A `float` is
-- its 32-bit pattern and a `double` its 64-bit pattern; the arithmetic on them is a parameter of
-- the definitions that compute with it.
use uscope_driver.Prelude.{ℕ, Bool}

abbrev pub Float : Type 0
Float = ℕ

abbrev pub Double : Type 0
Double = ℕ

-- Both copy the four bytes.
abbrev pub float_to_uint32 : Float → ℕ
float_to_uint32 f = f

abbrev pub uint32_to_float : ℕ → Float
uint32_to_float u = u

-- The operations of the compiler's floating point that the deployers use. `fits_uint32` tells
-- whether a number, without its fraction, is one of 32 bits without a sign.
pub record FloatingPoint : Type 0 where
  pub mul_float : Float → Float → Float
  pub float_to_uint64 : Float → ℕ
  pub one_float : Float
  pub div_float : Float → Float → Float
  pub fits_uint32 : Double → Bool
  pub double_to_uint32 : Double → ℕ
  pub double_to_float : Double → Float
  pub is_zero : Double → Bool
  pub float_to_double : Float → Double
  pub one_double : Double
  pub int_to_double : ℕ → Double
  pub uint_to_double : ℕ → Double
  pub add_double : Double → Double → Double
  pub mul_double : Double → Double → Double
  pub div_double : Double → Double → Double
  pub less_double : Double → Double → Bool
