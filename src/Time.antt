-- ===== src/Time.antt =====
-- px4_multirotor_controller/include/px4_multirotor_controller/common/time.h: the integer arithmetic of
-- `Duration` and `Time`. A thrown std::runtime_error is `none`. The casts
-- between signed and unsigned 64-bit values are written out.
pub mod Bounds
pub mod Order
pub mod Sums
pub mod Search
use xgc2_multirotor_controll.Prelude.{
  ℕ, ◌+◌, ◌-◌, ◌*◌, ◌/◌, ◌%◌, ◌^◌, ◌<◌, Bool, not, Option, none, some, ltb, leb, ◌==◌, ◌&&◌, ◌||◌,
  if◌then◌else◌,
}
use xgc2_multirotor_controll.Prelude.Int.{
  ℤ, pos, negsuc, pos_part, ◌+ℤ◌, ◌-ℤ◌, ◌*ℤ◌, quot, rem, sub_ℕ, ltb_ℤ,
}
use xgc2_multirotor_controll.Double.{Double}

abbrev pub giga : ℕ
giga = 1_000_000_000

-- numeric_limits<uint32_t>::max() + 1, and numeric_limits<int32_t>::max() and ::min()
abbrev pub u32_mod : ℕ
u32_mod = 4_294_967_296

abbrev pub i32_max : ℤ
i32_max = pos 2_147_483_647

abbrev pub i32_min : ℤ
i32_min = negsuc 2_147_483_647

pub record Duration : Type 0 where
  pub sec : ℤ
  pub nsec : ℤ

pub record Stamp : Type 0 where
  pub sec : ℕ
  pub nsec : ℕ

-- a 64-bit pattern read as a signed integer, and back
unfoldable pub signed64 : ℕ → ℤ
signed64 w = if ltb w (2 ^ 63) then pos w else negsuc (2 ^ 64 - w - 1)

unfoldable pub unsigned64 : ℤ → ℕ
unsigned64 (pos n) = n % 2 ^ 64
unsigned64 (negsuc n) = 2 ^ 64 - 1 - n % 2 ^ 64

abbrev pub out_of_i32 : ℤ → Bool
out_of_i32 s = ltb_ℤ s i32_min || ltb_ℤ i32_max s

-- Duration::normalize
unfoldable pub normalize_signed : ℤ → ℤ → Option Duration
normalize_signed s ns =
    let part = rem ns giga in
    let whole = s +ℤ quot ns giga in
    let borrow = ltb_ℤ part (pos 0) in
    let nsec_part = if borrow then part +ℤ pos giga else part in
    let sec_part = if borrow then whole -ℤ pos 1 else whole in
    if out_of_i32 sec_part then none else some (record { sec = sec_part; nsec = nsec_part })

-- Duration::fromNSec and toNSec
unfoldable pub duration_of_ns : ℤ → Option Duration
duration_of_ns t =
    let sec64 = quot t giga in
    if out_of_i32 sec64 then none else normalize_signed sec64 (rem t giga)

unfoldable pub duration_ns : Duration → ℤ
duration_ns r = r.sec *ℤ pos giga +ℤ r.nsec

-- Time::normalize64
unfoldable pub normalize64 : ℕ → ℕ → Option Stamp
normalize64 s ns =
    let nsec_part = ns % giga in
    let sec_part = ns / giga in
    if ltb (u32_mod - 1) (s + sec_part)
    then none
    else some (record { sec = s + sec_part; nsec = nsec_part })

-- Time::fromNSec and toNSec
unfoldable pub stamp_of_ns : ℕ → Option Stamp
unfolding normalize64
stamp_of_ns t = normalize64 0 t

unfoldable pub stamp_ns : Stamp → ℕ
stamp_ns t = t.sec * giga + t.nsec

unfoldable pub is_zero : Stamp → Bool
is_zero t = t.sec == 0 && t.nsec == 0

-- Time::normalizeUnsigned
unfoldable pub normalize_unsigned : ℤ → ℤ → Option Stamp
normalize_unsigned s ns =
    let part = rem ns giga in
    let whole = s +ℤ quot ns giga in
    let borrow = ltb_ℤ part (pos 0) in
    let nsec_part = if borrow then part +ℤ pos giga else part in
    let sec_part = if borrow then whole -ℤ pos 1 else whole in
    if ltb_ℤ sec_part (pos 0) || ltb_ℤ (pos (u32_mod - 1)) sec_part
    then none
    else some (record { sec = pos_part sec_part; nsec = pos_part nsec_part })

-- Time::operator-(const Time&): the unsigned difference, read as a signed one
unfoldable pub stamp_sub : Stamp → Stamp → Option Duration
stamp_sub a b = duration_of_ns (signed64 ((stamp_ns a + 2 ^ 64 - stamp_ns b) % 2 ^ 64))

-- Time::operator+(const Duration&): unsigned sums, read as signed ones
unfoldable pub stamp_add : Stamp → Duration → Option Stamp
stamp_add t r =
    let sec_sum = signed64 ((t.sec + unsigned64 r.sec) % 2 ^ 64) in
    let nsec_sum = signed64 ((t.nsec + unsigned64 r.nsec) % 2 ^ 64) in
    normalize_unsigned sec_sum nsec_sum

-- operator<, operator<= of Time
unfoldable pub stamp_lt : Stamp → Stamp → Bool
stamp_lt a b = ltb a.sec b.sec || (a.sec == b.sec && ltb a.nsec b.nsec)

unfoldable pub stamp_le : Stamp → Stamp → Bool
stamp_le a b = ltb a.sec b.sec || (a.sec == b.sec && leb a.nsec b.nsec)

-- The state that the public constructors leave: nanoseconds below a second, 32-bit seconds.
pub record IsCanonical (t : Stamp) : Type 0 where
  pub nsec_lt : t.nsec < giga
  pub sec_lt : t.sec < u32_mod

module _ {F : Type 0} ⦃d : Double F⦄ where
  open d use {lit, add, sub, mul, lt, le, is_finite, floor, round, of_int}

  -- Duration::toSec and Time::toSec
  unfoldable pub duration_sec : Duration → F
  duration_sec r = add (of_int r.sec) (mul (lit 1 9) (of_int r.nsec))

  unfoldable pub stamp_sec : Stamp → F
  stamp_sec t = add (of_int (pos t.sec)) (mul (lit 1 9) (of_int (pos t.nsec)))

  -- Duration::fromSec; `nsec` is not negative, so the unsigned division is that of the number
  unfoldable pub duration_of_sec : F → Option Duration
  duration_of_sec x =
      let whole = floor x in
      let part = pos_part (round (mul (sub x (of_int whole)) (lit 1_000_000_000 0))) in
      if not (is_finite x)
      then none
      else (if le x (of_int (negsuc (2 ^ 63 - 1))) || le (of_int (pos (2 ^ 63 - 1))) x
          then none
          else (if out_of_i32 whole
              then none
              else some (record { sec = whole +ℤ pos (part / giga); nsec = pos (part % giga) })))

  -- Time::fromSec
  unfoldable pub stamp_of_sec : F → Option Stamp
  stamp_of_sec x =
      let whole = floor x in
      let part =
        pos_part (round (mul (sub x (of_int (pos (pos_part whole)))) (lit 1_000_000_000 0))) in
      if lt x (lit 0 0)
      then none
      else (if not (is_finite x)
          then none
          else (if le (of_int (pos (2 ^ 63 - 1))) x
              then none
              else (if ltb_ℤ (pos (u32_mod - 1)) whole
                  then none
                  else some (record {
                    sec = (pos_part whole + part / giga) % u32_mod;
                    nsec = part % giga;
                  }))))
