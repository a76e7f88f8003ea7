-- ===== src/Double.antt =====
-- `double`: the operations of C++ that the controller applies to floating-point numbers, as an
-- interface over any type of numbers. No law of arithmetic is assumed here; the theorems that need one
-- state it.
pub mod Order
use xgc2_multirotor_controll.Prelude.{ℕ, Bool, if◌then◌else◌}
use xgc2_multirotor_controll.Prelude.Int.{ℤ}

pub record Double (F : Type 0) : Type 0 where
  -- the literal n / 10 ^ k
  pub lit : ℕ → ℕ → F
  pub neg : F → F
  pub add : F → F → F
  pub sub : F → F → F
  pub mul : F → F → F
  pub div : F → F → F
  pub lt : F → F → Bool
  pub le : F → F → Bool
  pub is_finite : F → Bool
  pub quiet_nan : F
  -- std::abs, std::sqrt, std::hypot of three, std::atan, std::atan2, and std::nextafter towards +infinity
  pub abs : F → F
  pub sqrt : F → F
  pub hypot : F → F → F → F
  pub atan : F → F
  pub atan2 : F → F → F
  pub next_up : F → F
  -- std::floor, std::round and std::llround as integers, and an integer as a double
  pub floor : F → ℤ
  pub round : F → ℤ
  pub llround : F → ℤ
  pub of_int : ℤ → F
  -- duration_cast between duration<double> and the nanoseconds of the steady clock
  pub to_clock : F → ℤ
  pub of_clock : ℤ → F

-- std::max and std::min, with the operand order of the standard.
module _ {F : Type 0} ⦃d : Double F⦄ where
  abbrev pub fmax : F → F → F
  fmax a b = if d.lt a b then b else a

  abbrev pub fmin : F → F → F
  fmin a b = if d.lt b a then b else a
