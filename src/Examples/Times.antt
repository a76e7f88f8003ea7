-- ===== src/Examples/Times.antt =====
-- Stamps and durations, and the window of a sample, on small values.
use xgc2_multirotor_controll.Prelude.{
  ◌≡◌, ◌≤◌, ◌<◌, ◌+◌, ◌*◌, ◌^◌, ◌↔◌, inr, refl, true, false, Option, some, arith,
}
use xgc2_multirotor_controll.Prelude.Int.{ℤ, pos, negsuc, ◌+ℤ◌, ◌-ℤ◌, ◌*ℤ◌, quot, rem}
use xgc2_multirotor_controll.Time.{
  giga, Duration, Stamp, IsCanonical, stamp_ns, stamp_sub, stamp_add, stamp_le, stamp_lt, is_zero,
  signed64, duration_sec, duration_of_ns, duration_ns, normalize_signed,
}
use xgc2_multirotor_controll.Time.Bounds.{IsNormal}
use xgc2_multirotor_controll.Time.Order.{stamp_order}
use xgc2_multirotor_controll.Time.Sums.{stamp_sub_total, stamp_add-stamp_sub}
use xgc2_multirotor_controll.Types.{
  MpcTrajectoryState, Setpoint, default_setpoint, default_trajectory, dfbc, legacy, px4_local,
  zero_order_hold,
}
use xgc2_multirotor_controll.Lifter.{
  stage_window_open, segment_period_ns, pass_through_reference_ready, smc_world_pva_available,
  lift_for_backend, lift_staged, lift_held, lift_world_local, lift_tau, lift_axis, lifted_mask,
  position_target_ignored, smc_mask_supplies_world_pva, smc_coordinate_frame_is_world, all_finite,
}
use xgc2_multirotor_controll.Lifter.Window.{
  stage_window_exact, InWindow, staged_success, staged_total, zero_order_hold_constant,
}
use xgc2_multirotor_controll.Examples.FixedPoint.{milli, round_milli}

abbrev earlier : Stamp
earlier = record { sec = 10; nsec = 900_000_000 }

abbrev later : Stamp
later = record { sec = 12; nsec = 100_000_000 }

-- 1.2 s, and -1.2 s with its fraction counted up
abbrev between : Duration
between = record { sec = pos 1; nsec = pos 200_000_000 }

abbrev back : Duration
back = record { sec = negsuc 1; nsec = pos 800_000_000 }

earlier-IsCanonical : IsCanonical earlier
earlier-IsCanonical = record { nsec_lt = omega arith; sec_lt = omega arith }

later-IsCanonical : IsCanonical later
later-IsCanonical = record { nsec_lt = omega arith; sec_lt = omega arith }

between-IsNormal : IsNormal between
between-IsNormal = record {
  nsec_ge = omega arith;
  nsec_lt = omega arith;
  sec_ge = omega arith;
  sec_le = omega arith;
}

stamp_order_example :
    ((stamp_lt earlier later ≡ true) ↔ (stamp_ns earlier < stamp_ns later))
    × ((stamp_le earlier later ≡ true) ↔ (stamp_ns earlier ≤ stamp_ns later))
stamp_order_example = stamp_order earlier later earlier-IsCanonical later-IsCanonical

stamp_add-stamp_sub_example : stamp_add later back ≡ some earlier
unfolding stamp_sub stamp_ns signed64 duration_of_ns normalize_signed quot rem ◌+ℤ◌ ◌-ℤ◌
stamp_add-stamp_sub_example =
    stamp_add-stamp_sub earlier later earlier-IsCanonical later-IsCanonical refl

stamp_sub_total_example : (r : Duration) × (stamp_sub earlier later ≡ some r)
unfolding stamp_ns
stamp_sub_total_example =
    stamp_sub_total earlier later earlier-IsCanonical later-IsCanonical (omega arith) (omega arith)

-- a stage of one second that supplies every component, and a time inside it
abbrev stage : MpcTrajectoryState ℤ
stage = record default_trajectory {
  planning_time = earlier;
  is_valid = true;
  type_mask = 3072;
  velocity_k = record { x = pos 1000; y = pos 0; z = pos 0 };
}

abbrev inside : Stamp
inside = record { sec = 11; nsec = 400_000_000 }

inside-IsCanonical : IsCanonical inside
inside-IsCanonical = record { nsec_lt = omega arith; sec_lt = omega arith }

stage_open : stage_window_open stage inside (pos 1000) ≡ some true
unfolding stage_window_open pass_through_reference_ready is_zero stamp_lt stamp_sub duration_of_ns
    quot signed64 stamp_ns normalize_signed rem ◌+ℤ◌ segment_period_ns round_milli ◌*ℤ◌ duration_ns
stage_open = refl

stage_window_exact_example :
    (stage_window_open stage inside (pos 1000) ≡ some true → InWindow stage inside (pos 1000))
    × (stamp_ns inside < stamp_ns stage.planning_time + 2 ^ 31 * giga
        → InWindow stage inside (pos 1000)
        → stage_window_open stage inside (pos 1000) ≡ some true)
stage_window_exact_example =
    stage_window_exact stage inside (pos 1000) earlier-IsCanonical inside-IsCanonical

-- the setpoint of a lift that succeeds
abbrev lifted : Option (Option (Setpoint ℤ)) → Setpoint ℤ
lifted (some (some sp)) = sp
lifted _ = default_setpoint

abbrev staged : Option (Option (Setpoint ℤ))
staged = lift_for_backend stage inside (pos 1000) 3072 false dfbc legacy

staged_lifts : staged ≡ some (some (lifted staged))
unfolding lift_for_backend stage_window_open pass_through_reference_ready is_zero stamp_lt stamp_sub
    duration_of_ns quot signed64 stamp_ns normalize_signed rem ◌+ℤ◌ segment_period_ns round_milli
    ◌*ℤ◌ duration_ns smc_world_pva_available lift_world_local all_finite lift_axis lift_held
    lift_staged lift_tau lifted_mask position_target_ignored smc_coordinate_frame_is_world
    smc_mask_supplies_world_pva ◌-ℤ◌ duration_sec
staged_lifts = refl

staged_success_example :
    (stage_window_open stage inside (pos 1000) ≡ some true)
    × (smc_world_pva_available stage.type_mask stage.coordinate_frame ≡ true)
staged_success_example =
    staged_success stage inside (pos 1000) 3072 false legacy (lifted staged) dfbc (inr refl)
      staged_lifts

abbrev held : Stamp → Option (Option (Setpoint ℤ))
held now = lift_for_backend stage now (pos 2000) 3072 false px4_local zero_order_hold

held_lifts :
    (held inside ≡ some (some (lifted (held inside))))
    × (held later ≡ some (some (lifted (held later))))
unfolding lift_for_backend stage_window_open pass_through_reference_ready is_zero stamp_lt stamp_sub
    duration_of_ns quot signed64 stamp_ns normalize_signed rem ◌+ℤ◌ segment_period_ns round_milli
    ◌*ℤ◌ duration_ns smc_world_pva_available lift_world_local all_finite lift_axis lift_held
    lift_staged lift_tau lifted_mask position_target_ignored smc_coordinate_frame_is_world
    smc_mask_supplies_world_pva ◌-ℤ◌ duration_sec
held_lifts = (refl, refl)

zero_order_hold_constant_example : lifted (held inside) ≡ lifted (held later)
zero_order_hold_constant_example =
    zero_order_hold_constant stage inside later (pos 2000) 3072 false (lifted (held inside))
      (lifted (held later)) held_lifts.0 held_lifts.1

staged_total_example :
    (sp : Setpoint ℤ) × (lift_for_backend stage inside (pos 1000) 3072 false dfbc legacy
      ≡ some (some sp))
unfolding smc_world_pva_available smc_mask_supplies_world_pva smc_coordinate_frame_is_world
staged_total_example =
    staged_total stage inside (pos 1000) 3072 false legacy dfbc (inr refl) stage_open refl
