-- ===== src/Examples/Ticks.antt =====
-- The search for a tick, with numbers that count nanoseconds.
use mathlib.Core.Option.{none-ne-some, some-injective}
use xgc2_multirotor_controll.Prelude.{
  Option, ℕ, ◌+◌, ◌/◌, ◌-◌, ◌*◌, ◌^◌, ◌<◌, ◌≡◌, refl, sym, ap, ◌∙◌, true, inl, inr, some, ltb,
  arith, Option-cases,
}
use xgc2_multirotor_controll.Prelude.Int.{ℤ, pos, negsuc, quot, ◌*ℤ◌, ◌+ℤ◌, ◌-ℤ◌}
use xgc2_multirotor_controll.Double.{Double}
use xgc2_multirotor_controll.Time.{Stamp, giga, stamp_ns, stamp_sec, stamp_of_ns, stamp_of_sec}
use xgc2_multirotor_controll.Time.Bounds.{stamp_of_ns_exact, stamp_of_ns_refused}
use xgc2_multirotor_controll.Time.Search.{
  before_on_clock, controller_clock_wake_ns, IsThreshold, IsFirst, Bracketed, ticks,
  clock_wake-IsFirst,
}
use xgc2_multirotor_controll.Leaves.Init.{new_takeoff_init}
use xgc2_multirotor_controll.Flight.Turn.{takeoff_init}
use xgc2_multirotor_controll.Flight.Runtime.{Runtime}
use xgc2_multirotor_controll.Examples.Values.{machine, runtime, FlightLeaf}
use xgc2_multirotor_controll.Examples.FixedPoint.{milli}

nano_floor : ℤ → ℤ
nano_floor (pos n) = pos (n / giga)
nano_floor (negsuc n) = negsuc (n / giga)

nano_round : ℤ → ℤ
nano_round (pos n) = pos ((n + 500_000_000) / giga)
nano_round (negsuc n) = negsuc ((n + 500_000_000) / giga)

abbrev nano : Double ℤ
nano = record milli {
  lit = λ n k. pos (n * 10 ^ (9 - k));
  mul = λ a b. quot (a *ℤ b) giga;
  next_up = λ a. a +ℤ pos 1;
  floor = nano_floor;
  round = nano_round;
  of_int = λ t. t *ℤ pos giga;
  to_clock = λ a. a;
  of_clock = λ t. t;
}

nano_stamp : (t : Stamp) → stamp_sec ⦃d = nano⦄ t ≡ pos (stamp_ns t)
unfolding stamp_sec stamp_ns quot ◌*ℤ◌ ◌+ℤ◌
nano_stamp t = ground arith

nano_early :
    (s n : ℕ) (t : Stamp)
    → stamp_of_ns n ≡ some t
    → before_on_clock ⦃d = nano⦄ (pos s) n ≡ some (ltb n s)
unfolding before_on_clock
nano_early s n t e =
    let count = (stamp_of_ns_exact n e).1 in rw e (ground (arith, nano_stamp t, count))

-- three seconds
abbrev due : ℤ
due = pos 3_000_000_000

converts : (n : ℕ) → n < ticks → (t : Stamp) × (stamp_of_ns n ≡ some t)
converts n h = elim (Option-cases (stamp_of_ns n)) [
  | inl refused ↦ absurd (omega (arith, (stamp_of_ns_refused n).0 refused))
  | inr found ↦ found
]

early_below : (n : ℕ) → n < ticks → before_on_clock ⦃d = nano⦄ due n ≡ some (ltb n 3_000_000_000)
early_below n h = let (t, e) = converts n h in nano_early 3_000_000_000 n t e

tested_below : (n : ℕ) → before_on_clock ⦃d = nano⦄ due n ≡ some true → n < 3_000_000_000
unfolding before_on_clock
tested_below n h = elim (Option-cases (stamp_of_ns n)) [
  | inl refused ↦ absurd (none-ne-some true (rw refused at h))
  | inr (t, found) ↦
      let same = some-injective _ true (sym (nano_early 3_000_000_000 n t found) ∙ h) in
      ground (arith, same)
]

due-IsThreshold : IsThreshold (before_on_clock ⦃d = nano⦄ due)
due-IsThreshold = record {
  tested = λ n h. (ltb n 3_000_000_000, early_below n h);
  falling = λ m n h e.
      let below = tested_below n e in early_below m (omega arith) ∙ ap some (ground arith);
}

abbrev just_before : Stamp
just_before = record { sec = 2; nsec = 999_999_999 }

abbrev just_after : Stamp
just_after = record { sec = 3; nsec = 1 }

before_count : stamp_ns just_before ≡ 2_999_999_999
unfolding stamp_ns
before_count = refl

after_count : stamp_ns just_after + 1 ≡ 3_000_000_002
unfolding stamp_ns
after_count = refl

due-Bracketed : Bracketed ⦃d = nano⦄ (before_on_clock ⦃d = nano⦄ due) due
unfolding stamp_of_sec ◌-ℤ◌ ◌+ℤ◌ ◌*ℤ◌ nano_floor nano_round quot
due-Bracketed = record {
  lower = just_before;
  lower_converted = refl;
  upper = just_after;
  upper_converted = refl;
  ordered = omega (arith, before_count, after_count);
  in_range = omega (arith, after_count);
  early_below = λ n h.
      let below : n < 3_000_000_000 = omega (arith, h, before_count) in
      early_below n (omega arith) ∙ ap some (ground arith);
  late_above =
      early_below (stamp_ns just_after + 1) (omega (arith, after_count))
      ∙ ap some (ground (arith, after_count));
}

clock_wake-IsFirst_example :
    (r : ℕ) × (controller_clock_wake_ns ⦃d = nano⦄ due ≡ some r)
    × IsFirst (before_on_clock ⦃d = nano⦄ due) r
clock_wake-IsFirst_example = clock_wake-IsFirst ⦃d = nano⦄ due refl due-IsThreshold due-Bracketed

-- ten seconds
abbrev ten : ℤ
ten = pos 10_000_000_000

abbrev initializing : Runtime ℤ (FlightLeaf × ℤ)
initializing = record runtime { machine = (takeoff_init new_takeoff_init, pos 5_000_000_000) }
