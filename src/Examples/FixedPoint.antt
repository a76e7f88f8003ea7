-- ===== src/Examples/FixedPoint.antt =====
-- Fixed-point numbers in thousandths: one type of numbers with the operations of `Double`
-- (the arctangents are those of small angles).
use xgc2_multirotor_controll.Prelude.{
  ℕ, zero, suc, ◌+◌, ◌-◌, ◌*◌, ◌/◌, ◌^◌, true, leb, if◌then◌else◌,
}
use xgc2_multirotor_controll.Prelude.Int.{
  ℤ, pos, negsuc, pos_part, neg_part, ◌+ℤ◌, ◌-ℤ◌, ◌*ℤ◌, quot, ltb_ℤ, leb_ℤ,
}
use xgc2_multirotor_controll.Double.{Double}

-- the largest number whose square is at most `n`
unfoldable pub root : ℕ → ℕ
root zero = zero
root (suc n) = let r = root n in if leb (suc r * suc r) (suc n) then suc r else r

unfoldable pub floor_milli : ℤ → ℤ
floor_milli (pos n) = pos (n / 1000)
floor_milli (negsuc n) = negsuc (n / 1000)

unfoldable pub round_milli : ℤ → ℤ
round_milli (pos n) = pos ((n + 500) / 1000)
round_milli (negsuc n) = pos 0 -ℤ pos ((n + 501) / 1000)

instance abbrev pub milli : Double ℤ
milli = record {
  lit = λ n k. pos (n * 10 ^ (3 - k));
  neg = λ a. pos 0 -ℤ a;
  add = λ a b. a +ℤ b;
  sub = λ a b. a -ℤ b;
  mul = λ a b. quot (a *ℤ b) 1000;
  div = λ a b. quot (a *ℤ pos 1000) (pos_part b);
  lt = λ a b. ltb_ℤ a b;
  le = λ a b. leb_ℤ a b;
  is_finite = λ a. true;
  quiet_nan = pos 0;
  abs = λ a. pos (pos_part a + neg_part a);
  sqrt = λ a. pos (root (pos_part a * 1000));
  hypot = λ a b c. pos (root (pos_part (a *ℤ a +ℤ b *ℤ b +ℤ c *ℤ c)));
  atan = λ a. a;
  atan2 = λ a b. quot (a *ℤ pos 1000) (pos_part b);
  next_up = λ a. a +ℤ pos 1;
  floor = floor_milli;
  round = round_milli;
  llround = round_milli;
  of_int = λ t. t *ℤ pos 1000;
  to_clock = λ a. a *ℤ pos 1_000_000;
  of_clock = λ t. quot t 1_000_000;
}
