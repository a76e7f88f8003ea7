-- ===== src/Leaves/Init.antt =====
-- takeoff_init_state.cpp of px4_multirotor_controller/src/uav/state_machine.
use Prim.Native.Nat.{min}
use text.Mathlib.Text.{◌==◌ as str_eq}
use xgc2_multirotor_controll.Prelude.{
  ℕ, ◌+◌, Bool, true, false, not, Option, ltb, ◌||◌, if◌then◌else◌,
}
use xgc2_multirotor_controll.Double.{Double, fmax}
use xgc2_multirotor_controll.Clock.{
  Timer, fresh_timer, timer_start, timer_reset, timer_stop, timer_elapsed, timer_due_at,
  earlier_deadline,
}
use xgc2_multirotor_controll.Types.{
  altctl_ready, flight_arm_request, flight_mode_request, zero_vector,
}
use xgc2_multirotor_controll.SensorChecks.{world}
use xgc2_multirotor_controll.Controller.{
  Controller, emit_flight_effect, emit_flight_signal, publish_interval,
}
use xgc2_multirotor_controll.Leaves.Common.{publish_setpoint, publish_setpoint_if_due}

abbrev pub required_altctl_frames : ℕ
required_altctl_frames = 2

abbrev pub takeoff_position_type_mask : ℕ
takeoff_position_type_mask = 0b111111111000

pub record TakeoffInit (F : Type 0) : Type 0 where
  pub initial_altitude : F
  pub target_altitude : F
  pub skip_altctl_gate : Bool
  pub altctl_ready_event_posted : Bool
  pub altctl_frame_count : ℕ
  pub altctl_request_timer : Timer F
  pub setpoint_publish_timer : Timer F

module _ {F : Type 0} ⦃d : Double F⦄ where
  open d use {lit, lt}

  abbrev pub altctl_request_interval : F
  altctl_request_interval = lit 3 0

  abbrev pub new_takeoff_init : TakeoffInit F
  new_takeoff_init = record {
    initial_altitude = lit 0 0;
    target_altitude = lit 0 0;
    skip_altctl_gate = false;
    altctl_ready_event_posted = false;
    altctl_frame_count = 0;
    altctl_request_timer = fresh_timer;
    setpoint_publish_timer = fresh_timer;
  }

  unfoldable pub configure_takeoff_setpoint :
      TakeoffInit F → Controller F → TakeoffInit F × Controller F
  configure_takeoff_setpoint s c =
      let here = (world c.sensor c.config.tracking_backend).position in
      let target = fmax c.config.takeoff_altitude here.z in
      (
        record s { initial_altitude = here.z; target_altitude = target },
        record c {
          setpoint = record c.setpoint {
            position = record { x = here.x; y = here.y; z = target };
            velocity = zero_vector;
            acceleration = zero_vector;
            qx = lit 0 0;
            qy = lit 0 0;
            qz = lit 0 0;
            qw = lit 1 0;
            yaw_rate = lit 0 0;
            type_mask = takeoff_position_type_mask;
          };
        },
      )

  unfoldable pub request_disarm_if_required : TakeoffInit F → Controller F → Controller F
  request_disarm_if_required s c =
      if s.skip_altctl_gate
      then c
      else emit_flight_effect (flight_arm_request c.current_time false) c

  unfoldable pub init_on_enter : TakeoffInit F → Controller F → TakeoffInit F × Controller F
  unfolding configure_takeoff_setpoint request_disarm_if_required publish_setpoint
  init_on_enter s c =
      let skip = c.config.skip_takeoff_init_disarm in
      let s0 = record s {
        skip_altctl_gate = skip;
        altctl_frame_count = if skip then required_altctl_frames else 0;
        altctl_ready_event_posted = false;
      } in
      let (s1, c1) = configure_takeoff_setpoint s0 c in
      let c2 = publish_setpoint c1 in
      let s2 = record s1 {
        setpoint_publish_timer = timer_start c.current_time s1.setpoint_publish_timer;
      } in
      let c3 = request_disarm_if_required s2 c2 in
      (
        if skip then s2 else record s2 {
          altctl_request_timer = timer_start c.current_time s2.altctl_request_timer;
        },
        c3,
      )

  unfoldable pub request_altctl_mode_if_due :
      TakeoffInit F → Controller F → TakeoffInit F × Controller F
  request_altctl_mode_if_due s c =
      if lt (timer_elapsed c.current_time s.altctl_request_timer) altctl_request_interval
      then (s, c)
      else (
        record s { altctl_request_timer = timer_reset c.current_time s.altctl_request_timer },
        emit_flight_effect (flight_mode_request c.current_time "ALTCTL") c,
      )

  unfoldable pub update_altctl_confirmation : TakeoffInit F → Controller F → TakeoffInit F
  update_altctl_confirmation s c =
      if not c.sensor.state_stats.is_new
      then s
      else (if str_eq c.sensor.fcu_mode "ALTCTL"
          then record s {
            altctl_frame_count = min (s.altctl_frame_count + 1) required_altctl_frames;
          }
          else record s { altctl_frame_count = 0 })

  unfoldable pub post_altctl_ready_once :
      TakeoffInit F → Controller F → TakeoffInit F × Controller F
  post_altctl_ready_once s c =
      if s.altctl_ready_event_posted || ltb s.altctl_frame_count required_altctl_frames
      then (s, c)
      else (record s { altctl_ready_event_posted = true }, emit_flight_signal altctl_ready c)

  unfoldable pub init_on_tick : TakeoffInit F → Controller F → TakeoffInit F × Controller F
  init_on_tick s c =
      let (timer, c1) = publish_setpoint_if_due s.setpoint_publish_timer c in
      let s1 = record s { setpoint_publish_timer = timer } in
      let (s2, c2) = request_altctl_mode_if_due s1 c1 in
      let s3 = update_altctl_confirmation s2 c2 in
      if s.skip_altctl_gate then post_altctl_ready_once s1 c1 else post_altctl_ready_once s3 c2

  unfoldable pub init_on_exit : TakeoffInit F → TakeoffInit F
  init_on_exit s = record s {
    altctl_request_timer = timer_stop s.altctl_request_timer;
    setpoint_publish_timer = timer_stop s.setpoint_publish_timer;
  }

  unfoldable pub init_next_wake : TakeoffInit F → Option F
  init_next_wake s =
      let due = timer_due_at s.setpoint_publish_timer publish_interval in
      if s.skip_altctl_gate
      then due
      else earlier_deadline due (timer_due_at s.altctl_request_timer altctl_request_interval)
