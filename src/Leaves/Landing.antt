-- ===== src/Leaves/Landing.antt =====
-- landing_state.cpp of px4_multirotor_controller/src/uav/state_machine. `elapsed` is the time since the
-- state was entered, in seconds.
use xgc2_multirotor_controll.Prelude.{
  ℕ, ◌+◌, Bool, true, false, not, Option, none, some, ltb, ◌&&◌, ◌||◌, if◌then◌else◌,
}
use xgc2_multirotor_controll.Double.{Double, fmax, fmin}
use xgc2_multirotor_controll.Clock.{
  Timer, fresh_timer, timer_start, timer_reset, timer_stop, timer_elapsed, timer_due_at,
  should_run_every, earlier_deadline,
}
use xgc2_multirotor_controll.Types.{
  Setpoint, default_setpoint, zero_vector, touchdown, flight_arm_request,
  tracking_uses_fused_estimate,
}
use xgc2_multirotor_controll.SensorChecks.{world, is_world_pose_new, is_control_state_active}
use xgc2_multirotor_controll.Controller.{
  Controller, emit_flight_effect, emit_flight_signal, publish_interval, clear_custom1_request,
}
use xgc2_multirotor_controll.Leaves.Common.{publish_setpoint}

abbrev pub settled_frames : ℕ
settled_frames = 5

abbrev pub landing_velocity_type_mask : ℕ
landing_velocity_type_mask = 0b110111000111

-- LandingState; the exit reason only chooses a log line
pub record Landing (F : Type 0) : Type 0 where
  pub landing_setpoint : Setpoint F
  pub initial_altitude : F
  pub log_timer : Timer F
  pub setpoint_publish_timer : Timer F
  pub max_landing_duration : F
  pub touchdown_event_posted : Bool
  pub timeout_reported : Bool
  pub disarm_requested : Bool
  pub confirmed_landed_frames : ℕ

module _ {F : Type 0} ⦃d : Double F⦄ where
  open d use {lit, neg, add, div, lt, le, abs, is_finite}

  abbrev pub landing_vz_high_altitude : F
  landing_vz_high_altitude = neg (lit 2 1)

  abbrev pub landing_vz_low_altitude : F
  landing_vz_low_altitude = neg (lit 9 1)

  abbrev pub landing_timeout : F
  landing_timeout = lit 60 0

  abbrev pub new_landing : Landing F
  new_landing = record {
    landing_setpoint = default_setpoint;
    initial_altitude = lit 0 0;
    log_timer = fresh_timer;
    setpoint_publish_timer = fresh_timer;
    max_landing_duration = landing_timeout;
    touchdown_event_posted = false;
    timeout_reported = false;
    disarm_requested = false;
    confirmed_landed_frames = 0;
  }

  unfoldable pub get_descent_velocity : F → F
  get_descent_velocity altitude =
      if lt (lit 3 1) altitude then landing_vz_high_altitude else landing_vz_low_altitude

  unfoldable pub landing_setpoint_at : F → Setpoint F → Setpoint F
  unfolding get_descent_velocity
  landing_setpoint_at altitude sp = record sp {
    position = zero_vector;
    velocity = record { x = lit 0 0; y = lit 0 0; z = get_descent_velocity altitude };
    acceleration = zero_vector;
    qx = lit 0 0;
    qy = lit 0 0;
    qz = lit 0 0;
    qw = lit 1 0;
    yaw_rate = lit 0 0;
    type_mask = landing_velocity_type_mask;
  }

  unfoldable pub emit_landing_setpoint : Landing F → Controller F → Controller F
  unfolding publish_setpoint
  emit_landing_setpoint s c = publish_setpoint (record c { setpoint = s.landing_setpoint })

  -- the duration of the descent from an altitude, with its margin and limit
  unfoldable pub landing_duration : F → F
  landing_duration altitude =
      let slowest =
        fmax (fmin (abs landing_vz_high_altitude) (abs landing_vz_low_altitude)) (lit 1 3) in
      let duration = add (div (fmax altitude (lit 0 0)) slowest) (lit 5 0) in
      fmin duration landing_timeout

  unfoldable pub landing_on_enter : Landing F → Controller F → Landing F × Controller F
  landing_on_enter s c =
      let c1 = clear_custom1_request c in
      let altitude = (world c.sensor c.config.tracking_backend).position.z in
      let s1 = record s {
        initial_altitude = altitude;
        max_landing_duration = landing_duration altitude;
        landing_setpoint = landing_setpoint_at altitude s.landing_setpoint;
        setpoint_publish_timer = timer_start c.current_time s.setpoint_publish_timer;
        log_timer = timer_start c.current_time s.log_timer;
        touchdown_event_posted = false;
        timeout_reported = false;
        disarm_requested = false;
        confirmed_landed_frames = 0;
      } in
      (s1, emit_landing_setpoint s1 c1)

  unfoldable pub update_descent_velocity : Landing F → Controller F → Landing F
  update_descent_velocity s c =
      let vz = get_descent_velocity (world c.sensor c.config.tracking_backend).position.z in
      let sp = s.landing_setpoint in
      if is_world_pose_new c.sensor c.config.tracking_backend
      then record s {
        landing_setpoint = record sp {
          velocity = record { x = sp.velocity.x; y = sp.velocity.y; z = vz };
        };
      }
      else s

  unfoldable pub landing_publish_if_due : Landing F → Controller F → Landing F × Controller F
  landing_publish_if_due s c =
      let (timer, run) =
        should_run_every c.current_time s.setpoint_publish_timer publish_interval true in
      let s1 = record s { setpoint_publish_timer = timer } in
      (s1, if run then emit_landing_setpoint s1 c else c)

  unfoldable pub landing_log_status : Landing F → Controller F → Landing F
  landing_log_status s c =
      if lt (timer_elapsed c.current_time s.log_timer) (lit 1 0)
      then s
      else record s { log_timer = timer_reset c.current_time s.log_timer }

  unfoldable pub report_timeout_if_needed : F → Landing F → Landing F
  report_timeout_if_needed elapsed s =
      if s.timeout_reported || lt elapsed s.max_landing_duration
      then s
      else record s { timeout_reported = true }

  unfoldable pub landing_feedback_active : Controller F → Bool
  landing_feedback_active c =
      let k = world c.sensor c.config.tracking_backend in
      let active =
        if tracking_uses_fused_estimate c.config.tracking_backend
        then is_control_state_active c.sensor
        else c.sensor.local_pos_stats.is_active && c.sensor.local_velocity_stats.is_active in
      active && is_finite k.position.z && is_finite k.velocity.z

  -- the pose is on the ground and does not move vertically
  unfoldable pub is_landed : Controller F → Bool
  is_landed c =
      let k = world c.sensor c.config.tracking_backend in
      le (abs k.velocity.z) (lit 1 1) && le k.position.z (lit 1 1)

  unfoldable pub update_touchdown_confirmation : Landing F → Controller F → Landing F
  update_touchdown_confirmation s c =
      if s.touchdown_event_posted
      then s
      else (if not (landing_feedback_active c)
          then record s { confirmed_landed_frames = 0 }
          else (if not (is_world_pose_new c.sensor c.config.tracking_backend)
              then s
              else (if not (is_landed c)
                  then record s { confirmed_landed_frames = 0 }
                  else (if ltb s.confirmed_landed_frames settled_frames
                      then record s { confirmed_landed_frames = s.confirmed_landed_frames + 1 }
                      else s))))

  unfoldable pub post_touchdown_once : Landing F → Controller F → Landing F × Controller F
  post_touchdown_once s c =
      if s.touchdown_event_posted
        || ltb s.confirmed_landed_frames settled_frames
        || not (landing_feedback_active c)
        || not c.sensor.state_stats.is_active
        || not c.sensor.fcu_connected
      then (s, c)
      else (if not c.sensor.fcu_armed
          then (if not c.sensor.state_stats.is_new
              then (s, c)
              else (record s { touchdown_event_posted = true }, emit_flight_signal touchdown c))
          else (if s.disarm_requested then (s, c) else (
            record s { disarm_requested = true },
            emit_flight_effect (flight_arm_request c.current_time false) c,
          )))

  unfoldable pub landing_on_tick : F → Landing F → Controller F → Landing F × Controller F
  landing_on_tick elapsed s c =
      let (s1, c1) = landing_publish_if_due (update_descent_velocity s c) c in
      let s2 = report_timeout_if_needed elapsed (landing_log_status s1 c1) in
      post_touchdown_once (update_touchdown_confirmation s2 c1) c1

  unfoldable pub landing_on_exit : Landing F → Landing F
  landing_on_exit s = record s {
    log_timer = timer_stop s.log_timer;
    setpoint_publish_timer = timer_stop s.setpoint_publish_timer;
  }

  unfoldable pub landing_next_wake : Landing F → Option F
  landing_next_wake s =
      earlier_deadline (timer_due_at s.setpoint_publish_timer publish_interval)
        (timer_due_at s.log_timer (lit 1 0))

  unfoldable pub landing_timeout_after_entry : Landing F → Option F
  landing_timeout_after_entry s = if s.timeout_reported then none else some s.max_landing_duration
