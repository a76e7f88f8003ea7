-- ===== src/Strategies/Dfbc.antt =====
-- px4_multirotor_controller/src/tracking/dfbc_attitude_rate_strategy.cpp and common/control_feedback.h:
-- the guards and the limits around the geometric control law. The law of xgc2_math, with its state `G`,
-- and the quaternions of Eigen are parameters; the copy of the gains is part of the law's `configure`.
-- Log lines are left out.
use xgc2_multirotor_controll.Prelude.{
  Bool, true, false, not, Option, none, some, ◌&&◌, ◌||◌, if◌then◌else◌, ◌>>=◌,
}
use xgc2_multirotor_controll.Double.{Double, fmax, fmin}
use xgc2_multirotor_controll.Time.{Stamp, stamp_sec}
use xgc2_multirotor_controll.Types.{
  dfbc, TrackingBackend, Vector3, Config, SensorData, AttitudeRateTarget, default_setpoint,
}
use xgc2_multirotor_controll.SensorChecks.{is_rigid, world, is_control_state_usable_for_control}
use xgc2_multirotor_controll.Lifter.{all_finite}
use xgc2_multirotor_controll.Tracking.{
  TrackingReference, TrackingStrategyInput, TrackingStrategyResult, Strategy,
}

pub record Quaternion (F : Type 0) : Type 0 where
  pub w : F
  pub x : F
  pub y : F
  pub z : F

-- xgc2_math::control::Se3State
pub record Se3State (F : Type 0) : Type 0 where
  pub position : Vector3 F
  pub velocity : Vector3 F
  pub attitude : Quaternion F
  pub body_rate : Vector3 F

-- A DfbcGeometricOutput: body_rate_command and specific_thrust.
pub record DfbcOutput (F : Type 0) : Type 0 where
  pub body_rate_command : Vector3 F
  pub specific_thrust : F

-- xgc2_math::control::DfbcGeometricController, and norm and normalized of Eigen::Quaterniond
pub record DfbcLaw (F G : Type 0) : Type 0 where
  pub initial : G
  pub configure : Config F → G → G
  pub reset : G → G
  pub compute :
      Se3State F → TrackingReference F → F → Option (Vector3 F) → G → G × Option (DfbcOutput F)
  pub norm : Quaternion F → F
  pub normalized : Quaternion F → Quaternion F

-- DfbcAttitudeRateStrategy
pub record DfbcState (F G : Type 0) : Type 0 where
  pub config : Config F
  pub controller : G
  pub entered : Bool

module _ {F : Type 0} ⦃d : Double F⦄ where
  open d use {lit, neg, sub, mul, div, lt, le, is_finite}

  unfoldable pub clamp_scalar : F → F → F → F
  clamp_scalar value min_value max_value = fmax min_value (fmin value max_value)

  unfoldable pub hover_thrust_ready : Config F → SensorData F → Stamp → Bool
  hover_thrust_ready config sensor now =
      let age = sub (stamp_sec now) sensor.hover_thrust_estimate_stamp in
      config.hover_thrust_enabled
      && sensor.hover_thrust_estimate_available
      && is_finite sensor.hover_thrust_estimate
      && not (lt sensor.hover_thrust_estimate config.min_hover_thrust)
      && not (lt config.max_hover_thrust sensor.hover_thrust_estimate)
      && is_finite sensor.hover_thrust_estimate_stamp
      && is_finite age
      && le (neg (lit 5 2)) age
      && le age config.hover_thrust_timeout

  -- the estimate's or the IMU's acceleration, where it is enabled and recent
  unfoldable pub measured_acceleration : Config F → SensorData F → Stamp → Option (Vector3 F)
  measured_acceleration config sensor now =
      let rigid = is_rigid sensor.feedback_source in
      let stamp = if rigid then sensor.uav_state_estimate_stamp else sensor.mavros_imu_stamp in
      let age = sub (stamp_sec now) stamp in
      let acceleration = if rigid then sensor.acceleration else sensor.mavros_world_acceleration in
      if not config.acceleration_correction_enabled
        || not (is_finite stamp)
        || not (is_finite age)
        || lt age (neg (lit 5 2))
        || lt config.acceleration_measurement_timeout age
        || not rigid && not sensor.mavros_inertial_valid
        || not (all_finite acceleration)
      then none
      else some acceleration

  unfoldable pub map_specific_thrust : Config F → F → F → F
  unfolding clamp_scalar
  map_specific_thrust config specific_thrust hover_thrust =
      if not (is_finite specific_thrust)
        || le config.gravity (lit 1 6)
        || not (is_finite hover_thrust)
        || lt hover_thrust config.min_hover_thrust
        || lt config.max_hover_thrust hover_thrust
      then lit 0 0
      else clamp_scalar (mul hover_thrust (div specific_thrust config.gravity))
          config.normalized_thrust_min config.normalized_thrust_max

  unfoldable pub clamp_body_rate : Config F → Vector3 F → Vector3 F
  unfolding clamp_scalar
  clamp_body_rate config rate =
      let rp_limit = fmax (lit 0 0) config.max_roll_pitch_body_rate in
      let yaw_limit = fmax (lit 0 0) config.max_yaw_body_rate in
      record {
        x = clamp_scalar rate.x (neg rp_limit) rp_limit;
        y = clamp_scalar rate.y (neg rp_limit) rp_limit;
        z = clamp_scalar rate.z (neg yaw_limit) yaw_limit;
      }

  -- the target of an output of the law: `none` is a thrust that is not positive
  unfoldable pub target_of : Config F → SensorData F → DfbcOutput F → Option (AttitudeRateTarget F)
  unfolding map_specific_thrust clamp_body_rate
  target_of config sensor output =
      let rate = clamp_body_rate config output.body_rate_command in
      let thrust = map_specific_thrust config output.specific_thrust sensor.hover_thrust_estimate in
      if not (is_finite thrust) || le thrust (lit 0 0)
      then none
      else some (record {
        body_rate = record rate { z = if config.enable_yaw_control then rate.z else lit 0 0 };
        thrust = thrust;
      })

  module _ {G : Type 0} (law : DfbcLaw F G) where
    unfoldable pub read_control_feedback : SensorData F → TrackingBackend → Option (Se3State F)
    read_control_feedback sensor backend =
        let k = world sensor backend in
        let attitude : Quaternion F = record { w = k.qw; x = k.qx; y = k.qy; z = k.qz } in
        let norm = law.norm attitude in
        let rate =
          if is_rigid sensor.feedback_source then sensor.body_rate else sensor.mavros_body_rate in
        if not (is_control_state_usable_for_control sensor)
          || not (is_finite norm)
          || lt norm (lit 1 9)
          || not (all_finite k.position && all_finite k.velocity && all_finite rate)
        then none
        else some (record {
          position = k.position;
          velocity = k.velocity;
          attitude = law.normalized attitude;
          body_rate = rate;
        })

    -- the law is computed, and its output limited
    unfoldable pub dfbc_compute :
        Se3State F
        → TrackingStrategyInput F
        → DfbcState F G
        → DfbcState F G × Option (TrackingStrategyResult F)
    unfolding target_of
    dfbc_compute current input s =
        let measured = measured_acceleration s.config input.sensor input.now in
        let computed =
          law.compute current input.reference s.config.control_period measured s.controller in
        (
          record s { controller = computed.0 },
          do
            output ← computed.1
            target ← target_of s.config input.sensor output
            some (record {
              is_local = false;
              attitude_rate_target = target;
              local_setpoint = default_setpoint;
            }),
        )

    unfoldable pub dfbc_strategy_update :
        TrackingStrategyInput F → DfbcState F G → DfbcState F G × Option (TrackingStrategyResult F)
    unfolding read_control_feedback dfbc_compute
    dfbc_strategy_update input s =
        if not s.entered || not (hover_thrust_ready s.config input.sensor input.now)
        then (s, none)
        else (elim (read_control_feedback input.sensor dfbc) [
          | none ↦ (s, none)
          | some current ↦ dfbc_compute current input s
        ])

    unfoldable pub dfbc_strategy_enter : SensorData F → Stamp → DfbcState F G → DfbcState F G × Bool
    dfbc_strategy_enter sensor now s =
        if not (hover_thrust_ready s.config sensor now)
        then (s, false)
        else (record s { entered = true; controller = law.reset s.controller }, true)

    -- DfbcAttitudeRateStrategy, with the default configuration
    unfoldable pub dfbc_attitude_rate_strategy : Config F → Strategy F (DfbcState F G)
    unfolding dfbc_strategy_enter dfbc_strategy_update
    dfbc_attitude_rate_strategy default_config = record {
      create = record { config = default_config; controller = law.initial; entered = false };
      configure =
          λ config s. record s { config = config; controller = law.configure config s.controller };
      enter = dfbc_strategy_enter;
      exit = λ s. record s { entered = false; controller = law.reset s.controller };
      update = dfbc_strategy_update;
      period = λ s. s.config.control_period;
    }
