-- ===== src/Leaves/Request.antt =====
-- takeoff_offboard_request_state.cpp and takeoff_arm_request_state.cpp of
-- px4_multirotor_controller/src/uav/state_machine: the two states ask the FCU for the OFFBOARD mode
-- and for arming, and wait for a confirming frame. They hold the same data.
use text.Mathlib.Text.{◌==◌ as str_eq}
use xgc2_multirotor_controll.Prelude.{
  ℕ, ◌+◌, Bool, true, false, not, Option, ltb, ◌||◌, if◌then◌else◌,
}
use xgc2_multirotor_controll.Double.{Double}
use xgc2_multirotor_controll.Clock.{
  Timer, fresh_timer, timer_start, timer_reset, timer_stop, timer_elapsed, timer_due_at,
  earlier_deadline,
}
use xgc2_multirotor_controll.Types.{
  FlightSignal, offboard_ready, arm_ready, flight_arm_request, flight_mode_request, FlightEffect,
}
use xgc2_multirotor_controll.Controller.{
  Controller, emit_flight_effect, emit_flight_signal, publish_interval,
}
use xgc2_multirotor_controll.Leaves.Common.{publish_setpoint, publish_setpoint_if_due}

-- REQUIRED_OFFBOARD_FRAMES and REQUIRED_ARM_FRAMES
abbrev pub required_frames : ℕ
required_frames = 1

-- mode_request_timer_ or arm_request_timer_, confirmed_…_frames_ and …_ready_event_posted_
pub record Request (F : Type 0) : Type 0 where
  pub request_timer : Timer F
  pub setpoint_publish_timer : Timer F
  pub confirmed_frames : ℕ
  pub ready_event_posted : Bool

module _ {F : Type 0} ⦃d : Double F⦄ where
  open d use {lit, lt}

  abbrev pub request_interval : F
  request_interval = lit 3 0

  abbrev pub new_request : Request F
  new_request = record {
    request_timer = fresh_timer;
    setpoint_publish_timer = fresh_timer;
    confirmed_frames = 0;
    ready_event_posted = false;
  }

  unfoldable pub request_on_enter : Request F → Controller F → Request F × Controller F
  unfolding publish_setpoint
  request_on_enter s c = (
    record {
      request_timer = timer_start c.current_time s.request_timer;
      setpoint_publish_timer = timer_start c.current_time s.setpoint_publish_timer;
      confirmed_frames = 0;
      ready_event_posted = false;
    },
    publish_setpoint c,
  )

  -- requestOffboardModeIfDue, requestArmIfDue
  unfoldable pub request_if_due :
      FlightEffect F → Request F → Controller F → Request F × Controller F
  request_if_due effect s c =
      if lt (timer_elapsed c.current_time s.request_timer) request_interval then (s, c) else (
        record s { request_timer = timer_reset c.current_time s.request_timer },
        emit_flight_effect effect c,
      )

  -- updateOffboardConfirmation, updateArmConfirmation: `confirmed` is the FCU's fact
  unfoldable pub update_confirmation : Bool → Request F → Controller F → Request F
  update_confirmation confirmed s c =
      if not c.sensor.state_stats.is_new
      then s
      else (if confirmed
          then (if ltb s.confirmed_frames required_frames
              then record s { confirmed_frames = s.confirmed_frames + 1 }
              else s)
          else record s { confirmed_frames = 0 })

  -- postOffboardReadyOnce, postArmReadyOnce
  unfoldable pub post_ready_once :
      FlightSignal → Request F → Controller F → Request F × Controller F
  post_ready_once signal s c =
      if s.ready_event_posted || ltb s.confirmed_frames required_frames
      then (s, c)
      else (record s { ready_event_posted = true }, emit_flight_signal signal c)

  unfoldable pub offboard_on_tick : Request F → Controller F → Request F × Controller F
  offboard_on_tick s c =
      let (timer, c1) = publish_setpoint_if_due s.setpoint_publish_timer c in
      let s1 = record s { setpoint_publish_timer = timer } in
      let (s2, c2) = request_if_due (flight_mode_request c.current_time "OFFBOARD") s1 c1 in
      let s3 = update_confirmation (str_eq c.sensor.fcu_mode "OFFBOARD") s2 c2 in
      post_ready_once offboard_ready s3 c2

  unfoldable pub arm_on_tick : Request F → Controller F → Request F × Controller F
  arm_on_tick s c =
      let (timer, c1) = publish_setpoint_if_due s.setpoint_publish_timer c in
      let s1 = record s { setpoint_publish_timer = timer } in
      let (s2, c2) = request_if_due (flight_arm_request c.current_time true) s1 c1 in
      let s3 = update_confirmation c.sensor.fcu_armed s2 c2 in post_ready_once arm_ready s3 c2

  unfoldable pub request_on_exit : Request F → Request F
  request_on_exit s = record s {
    request_timer = timer_stop s.request_timer;
    setpoint_publish_timer = timer_stop s.setpoint_publish_timer;
  }

  unfoldable pub request_next_wake : Request F → Option F
  request_next_wake s =
      earlier_deadline (timer_due_at s.setpoint_publish_timer publish_interval)
        (timer_due_at s.request_timer request_interval)
