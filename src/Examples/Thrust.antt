-- ===== src/Examples/Thrust.antt =====
-- DFBC on the vehicle of Examples.Values, with a law whose output exceeds every limit.
use xgc2_multirotor_controll.Lifter.{all_finite}
use xgc2_multirotor_controll.SensorChecks.{is_control_state_usable_for_control}
use xgc2_multirotor_controll.Prelude.{◌≡◌, refl, Bool, true, false, some, arith}
use xgc2_multirotor_controll.Prelude.Int.{ℤ, -ℤ_parts, pos, ◌+ℤ◌, ◌*ℤ◌, ◌-ℤ◌, quot}
use xgc2_multirotor_controll.Time.{stamp_sec}
use xgc2_multirotor_controll.Double.Order.{ZeroLaws}
use xgc2_multirotor_controll.Types.{zero_vector, default_setpoint}
use xgc2_multirotor_controll.Tracking.{TrackingStrategyInput, TrackingStrategyResult}
use xgc2_multirotor_controll.Strategies.Dfbc.{
  DfbcLaw, DfbcState, dfbc_strategy_update, hover_thrust_ready,
}
use xgc2_multirotor_controll.Strategies.Limits.{Limited, dfbc_update-Limited}
use xgc2_multirotor_controll.Examples.FixedPoint.{milli}
use xgc2_multirotor_controll.Examples.Values.{milli-NumberLaws, config, sensor}

abbrev overshooting : DfbcLaw ℤ Bool
overshooting = record {
  initial = false;
  configure = λ config s. s;
  reset = λ s. false;
  compute = λ current reference dt measured s. (
    true,
    some (record {
      body_rate_command = record { x = pos 9000; y = pos 0; z = pos 9000 };
      specific_thrust = pos 90_000;
    }),
  );
  norm = λ q. pos 1000;
  normalized = λ q. q;
}

abbrev flying_dfbc : DfbcState ℤ Bool
flying_dfbc = record { config = config; controller = false; entered = true }

abbrev input : TrackingStrategyInput ℤ
input = record {
  sensor = sensor;
  reference = record {
    position = zero_vector;
    velocity = zero_vector;
    acceleration = zero_vector;
    jerk = zero_vector;
    snap = zero_vector;
    yaw = pos 0;
    yaw_rate = pos 0;
    yaw_accel = pos 0;
    flags = 0;
  };
  now = record { sec = 1; nsec = 0 };
  stamp = record { sec = 1; nsec = 0 };
  type_mask = 0;
}

-- the greatest thrust, the greatest roll rate and, with yaw control disabled, no yaw rate
abbrev saturated : TrackingStrategyResult ℤ
saturated = record {
  is_local = false;
  attitude_rate_target = record {
    body_rate = record { x = pos 3491; y = pos 0; z = pos 0 };
    thrust = pos 900;
  };
  local_setpoint = default_setpoint;
}

saturated_update : (dfbc_strategy_update overshooting input flying_dfbc).1 ≡ some saturated
unfolding dfbc_strategy_update hover_thrust_ready ◌-ℤ◌ stamp_sec ◌+ℤ◌ ◌*ℤ◌ quot
    is_control_state_usable_for_control all_finite
saturated_update = refl

milli-ZeroLaws : ZeroLaws ℤ
milli-ZeroLaws = record {
  zero_number = refl;
  neg_below = λ a h. ground (arith, -ℤ_parts (pos 0) a);
}

dfbc_update-Limited_example : Limited config saturated.attitude_rate_target
dfbc_update-Limited_example =
    dfbc_update-Limited overshooting input flying_dfbc saturated milli-NumberLaws milli-ZeroLaws
      refl saturated_update
