-- ===== src/Leaves/Ascending.antt =====
-- takeoff_ascending_state.cpp of px4_multirotor_controller/src/uav/state_machine. `elapsed` is the time
-- since the state was entered, in seconds.
use xgc2_multirotor_controll.Prelude.{
  ℕ, ◌+◌, Bool, true, false, not, Option, none, some, ltb, ◌&&◌, ◌||◌, if◌then◌else◌,
}
use xgc2_multirotor_controll.Double.{Double}
use xgc2_multirotor_controll.Clock.{
  Timer, fresh_timer, timer_start, timer_reset, timer_stop, timer_elapsed, timer_due_at,
  earlier_deadline,
}
use xgc2_multirotor_controll.Types.{FlightCommand, track, altitude_reached, takeoff_timeout}
use xgc2_multirotor_controll.SensorChecks.{world, is_world_pose_new}
use xgc2_multirotor_controll.Controller.{
  Controller, emit_flight_signal, publish_interval, request_custom1_tracking,
}
use xgc2_multirotor_controll.Leaves.Common.{publish_setpoint, publish_setpoint_if_due}

abbrev pub consecutive_settled_frames : ℕ
consecutive_settled_frames = 5

pub record Ascending (F : Type 0) : Type 0 where
  pub status_log_timer : Timer F
  pub setpoint_publish_timer : Timer F
  pub altitude_reached_event_posted : Bool
  pub timeout_event_posted : Bool
  pub confirmed_settled_frames : ℕ

module _ {F : Type 0} ⦃d : Double F⦄ where
  open d use {lit, sub, lt, le, abs}

  abbrev pub ascending_timeout : F
  ascending_timeout = lit 30 0

  abbrev pub new_ascending : Ascending F
  new_ascending = record {
    status_log_timer = fresh_timer;
    setpoint_publish_timer = fresh_timer;
    altitude_reached_event_posted = false;
    timeout_event_posted = false;
    confirmed_settled_frames = 0;
  }

  unfoldable pub ascending_on_enter : Ascending F → Controller F → Ascending F × Controller F
  unfolding publish_setpoint
  ascending_on_enter s c = (
    record {
      status_log_timer = timer_start c.current_time s.status_log_timer;
      setpoint_publish_timer = timer_start c.current_time s.setpoint_publish_timer;
      altitude_reached_event_posted = false;
      timeout_event_posted = false;
      confirmed_settled_frames = 0;
    },
    publish_setpoint c,
  )

  -- the new state, the controller, and whether the ascent has timed out
  unfoldable pub post_timeout_if_needed :
      F → Ascending F → Controller F → Ascending F × Controller F × Bool
  post_timeout_if_needed elapsed s c =
      if s.timeout_event_posted
      then (s, c, true)
      else (if le elapsed ascending_timeout then (s, c, false) else (
        record s { timeout_event_posted = true },
        emit_flight_signal takeoff_timeout c,
        true,
      ))

  -- the pose is at the target altitude, from either side, and the climb has stopped
  unfoldable pub is_settled : Controller F → Bool
  is_settled c =
      let k = world c.sensor c.config.tracking_backend in
      le (abs (sub k.position.z c.setpoint.position.z)) (lit 1 1) && lt (abs k.velocity.z) (lit 5 2)

  unfoldable pub update_altitude_confirmation : Ascending F → Controller F → Ascending F
  update_altitude_confirmation s c =
      if s.altitude_reached_event_posted
        || s.timeout_event_posted
        || not (is_world_pose_new c.sensor c.config.tracking_backend)
      then s
      else (if not (is_settled c)
          then record s { confirmed_settled_frames = 0 }
          else (if ltb s.confirmed_settled_frames consecutive_settled_frames
              then record s { confirmed_settled_frames = s.confirmed_settled_frames + 1 }
              else s))

  unfoldable pub post_altitude_reached_once :
      Ascending F → Controller F → Ascending F × Controller F
  post_altitude_reached_once s c =
      if s.altitude_reached_event_posted
        || ltb s.confirmed_settled_frames consecutive_settled_frames
      then (s, c)
      else (
        record s { altitude_reached_event_posted = true },
        emit_flight_signal altitude_reached c,
      )

  unfoldable pub ascending_log_status : Ascending F → Controller F → Ascending F
  ascending_log_status s c =
      if lt (timer_elapsed c.current_time s.status_log_timer) (lit 1 0)
      then s
      else record s { status_log_timer = timer_reset c.current_time s.status_log_timer }

  unfoldable pub ascending_on_tick : F → Ascending F → Controller F → Ascending F × Controller F
  ascending_on_tick elapsed s c =
      let (timer, c1) = publish_setpoint_if_due s.setpoint_publish_timer c in
      let s1 = ascending_log_status (record s { setpoint_publish_timer = timer }) c1 in
      let (s2, c2, timed_out) = post_timeout_if_needed elapsed s1 c1 in
      if timed_out
      then (s2, c2)
      else post_altitude_reached_once (update_altitude_confirmation s2 c2) c2

  unfoldable pub ascending_on_event : FlightCommand → Controller F → Controller F
  ascending_on_event track c = request_custom1_tracking c
  ascending_on_event _ c = c

  unfoldable pub ascending_on_exit : Ascending F → Ascending F
  ascending_on_exit s = record s {
    status_log_timer = timer_stop s.status_log_timer;
    setpoint_publish_timer = timer_stop s.setpoint_publish_timer;
  }

  unfoldable pub ascending_next_wake : Ascending F → Option F
  ascending_next_wake s =
      earlier_deadline (timer_due_at s.setpoint_publish_timer publish_interval)
        (timer_due_at s.status_log_timer (lit 1 0))

  unfoldable pub ascending_timeout_after_entry : Ascending F → Option F
  ascending_timeout_after_entry s = if s.timeout_event_posted then none else some ascending_timeout
