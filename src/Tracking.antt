-- ===== src/Tracking.antt =====
-- px4_multirotor_controller/include/px4_multirotor_controller/uav/state_machine/custom1_state.h,
-- tracking/tracking_strategy.h and src/uav/state_machine/custom1_state.cpp: the state of Custom1, the
-- interface of its tracking strategies, and what it publishes. `current_time`, an argument of every
-- handler, is the controller clock. A result `none` is a std::runtime_error thrown by `Time`. Log lines
-- are left out, the timers that throttle them are kept.
pub mod Local
pub mod Smc
pub mod Nmpc
pub mod Dfbc
pub mod Session
pub mod Wake
pub mod Emitted
pub mod Modes
pub mod Synchronous
pub mod Consumed
pub mod Turned
pub mod Run
pub mod Steady
pub mod Answers
pub mod Deadline
pub mod Leaf
pub mod Awake
use xgc2_multirotor_controll.Prelude.{
  ℕ, suc, ◌%◌, Bool, true, false, not, Option, none, some, ◌&&◌, ◌||◌, if◌then◌else◌, ◌>>=◌,
}
use xgc2_multirotor_controll.Double.{Double, fmax}
use xgc2_multirotor_controll.Clock.{Timer, fresh_timer, should_run_every}
use xgc2_multirotor_controll.Time.{Stamp, u32_mod, stamp_of_sec}
use xgc2_multirotor_controll.Types.{
  Vector3, Config, SensorData, Setpoint, AttitudeRateTarget, MpcTrajectoryState, zero_vector,
  default_setpoint, flight_setpoint, flight_attitude, reference_finished,
}
use xgc2_multirotor_controll.SensorChecks.{world}
use xgc2_multirotor_controll.Lifter.{pass_through_may_take_setpoint}
use xgc2_multirotor_controll.Cache.{UavReferencePoint, FlagBits, sample}
use xgc2_multirotor_controll.Controller.{Controller, emit_flight_effect, emit_flight_signal}
use xgc2_multirotor_controll.Leaves.Hover.{hover_position_velocity_type_mask}

-- The reference of TrackingStrategyInput, as far as a strategy is given one.
pub record TrackingReference (F : Type 0) : Type 0 where
  pub position : Vector3 F
  pub velocity : Vector3 F
  pub acceleration : Vector3 F
  pub jerk : Vector3 F
  pub snap : Vector3 F
  pub yaw : F
  pub yaw_rate : F
  pub yaw_accel : F
  pub flags : ℕ

pub record TrackingStrategyInput (F : Type 0) : Type 0 where
  pub sensor : SensorData F
  pub reference : TrackingReference F
  pub now : Stamp
  pub stamp : Stamp
  pub type_mask : ℕ

-- A TrackingStrategyResult of a successful update; `is_local` is OutputKind::LocalSetpoint.
pub record TrackingStrategyResult (F : Type 0) : Type 0 where
  pub is_local : Bool
  pub attitude_rate_target : AttitudeRateTarget F
  pub local_setpoint : Setpoint F

-- TrackingStrategy, over the data `S` of an implementation. An update fails with `none`.
pub record Strategy (F S : Type 0) : Type 0 where
  pub create : S
  pub configure : Config F → S → S
  pub enter : SensorData F → Stamp → S → S × Bool
  pub exit : S → S
  pub update : TrackingStrategyInput F → S → S × Option (TrackingStrategyResult F)
  pub period : S → F

-- Custom1State, over the data of its DFBC, SMC and PX4 local strategies
pub record Custom1State (F A B L : Type 0) : Type 0 where
  pub last_publish_time : F
  pub command_time : F
  pub hover : Vector3 F
  pub tracking_armed : Bool
  pub request_sequence : ℕ
  pub control_generation : ℕ
  pub in_flight_sequence : ℕ
  pub consumed_result_sequence : ℕ
  pub request_in_flight : Bool
  pub last_request_time : F
  pub request_deadline : F
  pub last_success_time : F
  pub consecutive_failures : ℕ
  pub reference_finish_event_posted : Bool
  pub nmpc_wait_log_timer : Timer F
  pub trajectory_wait_log_timer : Timer F
  pub dfbc_strategy : A
  pub smc_strategy : B
  pub px4_local_raw_strategy : L
  pub sync_strategy_entered : Bool
  pub tracking_position_held : Bool
  pub tracking_frozen_hover : Setpoint F

-- The state and the controller that a handler leaves.
abbrev pub Tracked : Type 0 → Type 0 → Type 0 → Type 0 → Type 0
Tracked F A B L = Custom1State F A B L × Controller F

module _ {F A B L : Type 0} where
  -- consecutive_failures_ is 32 bits wide
  unfoldable pub count_failure : Custom1State F A B L → Custom1State F A B L
  count_failure s = record s { consecutive_failures = suc s.consecutive_failures % u32_mod }

module _ {F : Type 0} ⦃d : Double F⦄ where
  unfoldable pub measurement_hover_setpoint : Controller F → Setpoint F
  measurement_hover_setpoint c =
      let k = world c.sensor c.config.tracking_backend in
      record {
        position = k.position;
        velocity = zero_vector;
        acceleration = zero_vector;
        qx = k.qx;
        qy = k.qy;
        qz = k.qz;
        qw = k.qw;
        yaw_rate = d.lit 0 0;
        type_mask = hover_position_velocity_type_mask;
        coordinate_frame = 1;
      }

module _ {F A B L : Type 0} ⦃d : Double F⦄ where
  open d use {lit, sub, le}

  -- the default member initializers
  abbrev pub new_custom1_state : A → B → L → Custom1State F A B L
  new_custom1_state dfbc smc raw = record {
    last_publish_time = lit 0 0;
    command_time = lit 0 0;
    hover = zero_vector;
    tracking_armed = false;
    request_sequence = 0;
    control_generation = 0;
    in_flight_sequence = 0;
    consumed_result_sequence = 0;
    request_in_flight = false;
    last_request_time = lit 0 0;
    request_deadline = lit 0 0;
    last_success_time = lit 0 0;
    consecutive_failures = 0;
    reference_finish_event_posted = false;
    nmpc_wait_log_timer = fresh_timer;
    trajectory_wait_log_timer = fresh_timer;
    dfbc_strategy = dfbc;
    smc_strategy = smc;
    px4_local_raw_strategy = raw;
    sync_strategy_entered = false;
    tracking_position_held = false;
    tracking_frozen_hover = default_setpoint;
  }

  unfoldable pub should_publish : F → Custom1State F A B L → Controller F → Bool
  should_publish current_time s c =
      le c.custom1_publish_period (sub current_time s.last_publish_time)

  -- Store a setpoint, emit its effect and take the time of the publication: the last three lines of
  -- every handler that publishes. The attitude-rate effect likewise.
  unfoldable pub publish_local :
      Setpoint F → F → Custom1State F A B L → Controller F → Tracked F A B L
  publish_local setpoint current_time s c = (
    record s { last_publish_time = current_time },
    emit_flight_effect (flight_setpoint current_time) (record c { setpoint = setpoint }),
  )

  unfoldable pub publish_attitude : F → Custom1State F A B L → Controller F → Tracked F A B L
  publish_attitude current_time s c = (
    record s { last_publish_time = current_time },
    emit_flight_effect (flight_attitude current_time) c,
  )

  unfoldable pub publish_current_hover : F → Custom1State F A B L → Controller F → Tracked F A B L
  publish_current_hover current_time s c =
      publish_local (measurement_hover_setpoint c) current_time s c

  -- `if (shouldPublish(current_time)) publishCurrentHoverSetpoint(current_time);`
  unfoldable pub publish_hover_if_due : F → Custom1State F A B L → Controller F → Tracked F A B L
  publish_hover_if_due current_time s c =
      if should_publish current_time s c then publish_current_hover current_time s c else (s, c)

  unfoldable pub hold_tracking_position : F → Custom1State F A B L → Controller F → Tracked F A B L
  hold_tracking_position current_time s c =
      let held = if s.tracking_position_held then s else record s {
        tracking_frozen_hover = measurement_hover_setpoint c;
        tracking_position_held = true;
      } in
      publish_local held.tracking_frozen_hover current_time held c

  unfoldable pub post_reference_finished : F → Custom1State F A B L → Controller F → Tracked F A B L
  post_reference_finished current_time s c =
      if s.reference_finish_event_posted
      then publish_hover_if_due current_time s c
      else (let (s', c') =
            publish_current_hover current_time
              (record s {
                reference_finish_event_posted = true;
                request_in_flight = false;
                tracking_armed = false;
              })
              c in
          (s', emit_flight_signal reference_finished c'))

  -- `shouldRunEvery(trajectory_wait_log_timer_, 1.0, true)`, and the other throttle of a log line
  unfoldable pub wait_for_trajectory : Controller F → Custom1State F A B L → Custom1State F A B L
  wait_for_trajectory c s = record s {
    trajectory_wait_log_timer =
        (should_run_every c.current_time s.trajectory_wait_log_timer (lit 1 0) true).0;
  }

  unfoldable pub wait_for_nmpc : Controller F → Custom1State F A B L → Custom1State F A B L
  wait_for_nmpc c s = record s {
    nmpc_wait_log_timer = (should_run_every c.current_time s.nmpc_wait_log_timer (lit 1 0) true).0;
  }

  -- passThroughMayTakeSetpoint, with the arguments that every handler gives it
  unfoldable pub may_take_setpoint :
      MpcTrajectoryState F → Custom1State F A B L → Controller F → Bool
  may_take_setpoint point s c =
      pass_through_may_take_setpoint point s.hover c.config.plan_hover_xy_tol
        c.config.plan_hover_z_tol s.tracking_armed

  unfoldable pub should_run_synchronous : F → F → Custom1State F A B L → Bool
  should_run_synchronous current_time period s =
      le s.last_publish_time (lit 0 0)
      || le (fmax (lit 1 3) period) (sub current_time s.last_publish_time)

  -- The backup at a reference point, or the measured hover.
  unfoldable pub publish_backup_at :
      Option (UavReferencePoint F) → F → Custom1State F A B L → Controller F → Tracked F A B L
  publish_backup_at none current_time s c = publish_current_hover current_time s c
  publish_backup_at (some point) current_time s c =
      publish_local
        (record default_setpoint {
          position = point.flat.position;
          velocity = point.flat.velocity;
          type_mask = hover_position_velocity_type_mask;
          coordinate_frame = 1;
        })
        current_time s c

  unfoldable pub publish_backup_setpoint :
      ⦃b : FlagBits⦄ → F → Custom1State F A B L → Controller F → Option (Tracked F A B L)
  publish_backup_setpoint current_time s c = do
    stamp ← stamp_of_sec current_time
    point ← sample c.active_trajectory_cache stamp
    some (publish_backup_at point current_time s c)
