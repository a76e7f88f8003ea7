-- ===== src/Strategies.antt =====
-- px4_multirotor_controller/src/tracking/smc_acceleration_strategy.cpp and px4_local_raw_strategy.cpp:
-- the guards around two control laws, as implementations of the interface of Custom1's strategies. The
-- sliding-mode law of xgc2_math is a parameter; log lines and their times are left out.
pub mod Dfbc
pub mod Limits
use xgc2_multirotor_controll.Prelude.{
  ℕ, Bool, true, false, not, Option, none, some, ◌&&◌, ◌||◌, if◌then◌else◌, ◌>>=◌,
}
use xgc2_multirotor_controll.Double.{Double}
use xgc2_multirotor_controll.Time.{Stamp, is_zero}
use xgc2_multirotor_controll.Types.{
  px4_local, Vector3, Config, SensorData, Setpoint, AttitudeRateTarget, MpcTrajectoryState,
  zero_vector, default_setpoint, default_trajectory,
}
use xgc2_multirotor_controll.SensorChecks.{are_pass_through_sensors_active}
use xgc2_multirotor_controll.Lifter.{
  all_finite, lift_for_backend, ignore_px, ignore_py, ignore_pz, ignore_vx, ignore_vy, ignore_vz,
  ignore_yaw, ignore_yaw_rate,
}
use xgc2_multirotor_controll.Controller.{publish_interval}
use xgc2_multirotor_controll.Tracking.{TrackingStrategyInput, TrackingStrategyResult, Strategy}

-- xgc2_math::control::computeSmcTracking: the gains k1 and k2, the boundary layer, the measured position
-- and velocity, and the reference; `none` is `success == false`.
pub record SmcLaw (F : Type 0) : Type 0 where
  pub compute :
      F → F → F → Vector3 F → Vector3 F → Vector3 F → Vector3 F → Vector3 F → Option (Vector3 F)

-- The data of SmcAccelerationStrategy and of Px4LocalRawStrategy. `config` is at first the default
-- configuration, an argument of the strategies; Custom1 configures a strategy before it updates it.
pub record StrategyState (F : Type 0) : Type 0 where
  pub config : Config F
  pub entered : Bool

-- kSmcAccelerationTypeMask
abbrev pub smc_acceleration_type_mask : ℕ
smc_acceleration_type_mask = 3135

module _ {F : Type 0} ⦃d : Double F⦄ where
  open d use {lit}

  -- the default member initializers
  abbrev pub default_target : AttitudeRateTarget F
  default_target = record { body_rate = zero_vector; thrust = lit 0 0 }

  abbrev pub local_result : Setpoint F → TrackingStrategyResult F
  local_result setpoint = record {
    is_local = true;
    attitude_rate_target = default_target;
    local_setpoint = setpoint;
  }

  unfoldable pub measured_motion : SensorData F → Option (Vector3 F × Vector3 F)
  measured_motion sensor =
      if not (are_pass_through_sensors_active sensor)
        || not (all_finite sensor.local.position && all_finite sensor.local.velocity)
      then none
      else some (sensor.local.position, sensor.local.velocity)

  module _ ⦃law : SmcLaw F⦄ where
    -- the law at a measured motion
    unfoldable pub smc_command :
        Config F → TrackingStrategyInput F → Option (TrackingStrategyResult F)
    unfolding measured_motion
    smc_command config input = do
      motion ← measured_motion input.sensor
      let r = input.reference
      let finite = all_finite r.position && all_finite r.velocity && all_finite r.acceleration
      acceleration ←
          if finite
          then law.compute config.smc_k1 config.smc_k2 config.smc_boundary_layer motion.0 motion.1
              r.position r.velocity r.acceleration
          else none
      some (
          local_result (record default_setpoint {
            acceleration = acceleration;
            type_mask = smc_acceleration_type_mask;
            coordinate_frame = 1;
          }))

    unfoldable pub smc_strategy_update :
        TrackingStrategyInput F
        → StrategyState F
        → StrategyState F × Option (TrackingStrategyResult F)
    unfolding smc_command
    smc_strategy_update input s = (s, if not s.entered then none else smc_command s.config input)

    -- SmcAccelerationStrategy
    unfoldable pub smc_acceleration_strategy : Config F → Strategy F (StrategyState F)
    unfolding smc_strategy_update
    smc_acceleration_strategy default_config = record {
      create = record { config = default_config; entered = false };
      configure = λ config s. record s { config = config };
      enter = λ sensor now s.
          if not (are_pass_through_sensors_active sensor)
          then (s, false)
          else (record s { entered = true }, true);
      exit = λ s. record s { entered = false };
      update = smc_strategy_update;
      period = λ s. s.config.control_period;
    }

  -- Px4LocalRawStrategy::update; the outer `none` is a throw of the lift
  unfoldable pub raw_strategy_update :
      TrackingStrategyInput F → StrategyState F → Option (Option (TrackingStrategyResult F))
  raw_strategy_update input s =
      let r = input.reference in
      let point = record default_trajectory {
        position_k = r.position;
        velocity_k = r.velocity;
        acceleration_k = r.acceleration;
        planning_time = if is_zero input.stamp then input.now else input.stamp;
        type_mask = input.type_mask;
        coordinate_frame = 1;
        is_valid = true;
      } in
      let finite = all_finite r.position && all_finite r.velocity && all_finite r.acceleration in
      if not s.entered || not finite
      then some none
      else (lift_for_backend point input.now s.config.planning_period s.config.local_type_mask
            s.config.enable_yaw_control px4_local s.config.px4_local_lift
          >>= λ lifted. some (lifted >>= λ setpoint. some (local_result setpoint)))

  -- Px4LocalRawStrategy. Custom1 never updates it: an update that throws is given as one that fails.
  unfoldable pub px4_local_raw_strategy : Config F → Strategy F (StrategyState F)
  unfolding raw_strategy_update
  px4_local_raw_strategy default_config = record {
    create = record { config = default_config; entered = false };
    configure = λ config s. record s { config = config };
    enter = λ sensor now s. (record s { entered = true }, true);
    exit = λ s. record s { entered = false };
    update = λ input s. (s, raw_strategy_update input s >>= λ result. result);
    period = λ s. publish_interval;
  }
