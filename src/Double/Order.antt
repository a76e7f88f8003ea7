-- ===== src/Double/Order.antt =====
-- What the comparisons of C++ doubles do, NaN included: a number is what is not above itself, and every
-- comparison with NaN is false.
use mathlib.Core.Bool.{true≢false}
use xgc2_multirotor_controll.Prelude.{◌≡◌, sym, ◌∙◌, true, false, Bool-cases, inl, inr}
use xgc2_multirotor_controll.Double.{Double}

-- These hold of all doubles: `total` is said of numbers alone.
pub record NumberLaws (F : Type 0) ⦃d : Double F⦄ : Type 0 where
  pub lt_le : (a b : F) → d.lt a b ≡ true → d.le a b ≡ true
  pub le_left : (a b : F) → d.le a b ≡ true → d.le a a ≡ true
  pub le_right : (a b : F) → d.le a b ≡ true → d.le b b ≡ true
  pub trans : (a b c : F) → d.le a b ≡ true → d.le b c ≡ true → d.le a c ≡ true
  pub lt_le_trans : (a b c : F) → d.lt a b ≡ true → d.le b c ≡ true → d.lt a c ≡ true
  pub le_lt_trans : (a b c : F) → d.le a b ≡ true → d.lt b c ≡ true → d.lt a c ≡ true
  pub total : (a b : F) → d.le a a ≡ true → d.le b b ≡ true → d.lt b a ≡ false → d.le a b ≡ true

-- zero and the negation of a number that is not negative
pub record ZeroLaws (F : Type 0) ⦃d : Double F⦄ : Type 0 where
  pub zero_number : d.le (d.lit 0 0) (d.lit 0 0) ≡ true
  pub neg_below : (a : F) → d.le (d.lit 0 0) a ≡ true → d.le (d.neg a) (d.lit 0 0) ≡ true

module _ {F : Type 0} ⦃d : Double F⦄ where
  -- a number that is not at most another is above it
  pub lt_of_not_le :
      (laws : NumberLaws F) (a b : F)
      → d.le a a ≡ true
      → d.le b b ≡ true
      → d.le b a ≡ false
      → d.lt a b ≡ true
  lt_of_not_le laws a b number number' h = elim (Bool-cases (d.lt a b)) [
    | inl above ↦ above
    | inr below ↦ absurd (true≢false (sym (laws.total b a number' number below) ∙ h))
  ]
