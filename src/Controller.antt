-- ===== src/Controller.antt =====
-- px4_multirotor_controller/include/px4_multirotor_controller/drone_controller.h and
-- src/drone_controller.cpp: the data that the flight states share. `signals` and `diagnostic_events`
-- belong to FlightRuntime in the source; they stand here because the states reach them through
-- DroneController::emitFlightSignal. Logging is left out. The controller clock is `current_time`, to
-- which DroneController::update sets it before the flight runs.
use xgc2_multirotor_controll.Prelude.{
  ℕ, Bool, true, false, ◌&&◌, ◌||◌, List, [], ◌∷◌, ◌++◌, if◌then◌else◌,
}
use xgc2_multirotor_controll.Double.{Double}
use xgc2_multirotor_controll.Types.{
  TrackingBackend, px4_local, Config, SensorData, Setpoint, AttitudeRateTarget, MpcTrajectoryState,
  FlightSignal, altctl_ready, offboard_ready, arm_ready, altitude_reached, takeoff_timeout,
  reference_finished, touchdown, timeout_local_position, timeout_local_velocity, timeout_imu,
  timeout_fcu_state, timeout_estimate, estimate_unusable, geofence, velocity_xy, velocity_z,
  saturation_xy, saturation_z, FlightEffect,
}
use xgc2_multirotor_controll.SensorChecks.{world}
use xgc2_multirotor_controll.ResultBuffer.{NmpcResultBuffer}
use xgc2_multirotor_controll.Clock.{Timer}
use xgc2_multirotor_controll.Cache.{ActiveTrajectoryCache}
use xgc2_multirotor_controll.Lifter.{
  MpcTrajectoryBuffer, pass_through_reference_ready, pass_through_plan_matches_hover,
}

pub record Controller (F : Type 0) : Type 0 where
  pub config : Config F
  pub sensor : SensorData F
  pub setpoint : Setpoint F
  pub attitude_rate_target : AttitudeRateTarget F
  pub mpc_trajectory_buffer : MpcTrajectoryBuffer F
  pub nmpc_result_buffer : NmpcResultBuffer F
  pub current_time : F
  pub active_trajectory_cache : ActiveTrajectoryCache F
  pub nmpc_stale_output_log_timer : Timer F
  pub custom1_publish_period : F
  pub custom1_requested : Bool
  pub effects : List (FlightEffect F)
  pub signals : List FlightSignal
  pub diagnostic_events : List ℕ

-- the event numbers of common/types.h that FlightSignal takes over
unfoldable pub signal_id : FlightSignal → ℕ
signal_id altitude_reached = 10
signal_id touchdown = 13
signal_id takeoff_timeout = 15
signal_id altctl_ready = 16
signal_id offboard_ready = 17
signal_id arm_ready = 18
signal_id reference_finished = 19
signal_id timeout_local_position = 20
signal_id timeout_local_velocity = 21
signal_id timeout_imu = 22
signal_id timeout_fcu_state = 23
signal_id timeout_estimate = 27
signal_id estimate_unusable = 28
signal_id geofence = 40
signal_id velocity_xy = 41
signal_id velocity_z = 42
signal_id saturation_xy = 43
signal_id saturation_z = 44

abbrev pub is_px4_local : TrackingBackend → Bool
is_px4_local px4_local = true
is_px4_local _ = false

module _ {F : Type 0} where
  unfoldable pub emit_flight_effect : FlightEffect F → Controller F → Controller F
  emit_flight_effect effect c = record c { effects = c.effects ++ (effect ∷ []) }

  -- DroneController::emitFlightSignal, which is FlightRuntime::emitSignal
  unfoldable pub emit_flight_signal : FlightSignal → Controller F → Controller F
  emit_flight_signal signal c = record c {
    signals = c.signals ++ (signal ∷ []);
    diagnostic_events = c.diagnostic_events ++ (signal_id signal ∷ []);
  }

  unfoldable pub request_custom1_tracking : Controller F → Controller F
  request_custom1_tracking c = record c { custom1_requested = true }

  unfoldable pub clear_custom1_request : Controller F → Controller F
  clear_custom1_request c = record c { custom1_requested = false }

module _ {F : Type 0} ⦃d : Double F⦄ where
  -- kLocalSetpointPublishInterval
  abbrev pub publish_interval : F
  publish_interval = d.div (d.lit 1 0) (d.lit 30 0)

  unfoldable pub custom1_reference_ready : Controller F → Bool
  custom1_reference_ready c =
      let hover = (world c.sensor c.config.tracking_backend).position in
      let ready = λ (sample : MpcTrajectoryState F).
        pass_through_reference_ready sample
        && pass_through_plan_matches_hover sample hover c.config.plan_hover_xy_tol
            c.config.plan_hover_z_tol in
      if is_px4_local c.config.tracking_backend
      then ready c.mpc_trajectory_buffer.active
        || c.mpc_trajectory_buffer.pending.is_valid && ready c.mpc_trajectory_buffer.pending
      else true
