-- ===== src/Leaves/Hover.antt =====
-- hover_state.cpp of px4_multirotor_controller/src/uav/state_machine.
use Prim.Native.Nat.{bit_and}
use xgc2_multirotor_controll.Prelude.{ℕ, ◌-◌, Option, if◌then◌else◌}
use xgc2_multirotor_controll.Double.{Double}
use xgc2_multirotor_controll.Clock.{Timer, fresh_timer, timer_start, timer_stop, timer_due_at}
use xgc2_multirotor_controll.Types.{FlightCommand, track, zero_vector}
use xgc2_multirotor_controll.SensorChecks.{world}
use xgc2_multirotor_controll.Controller.{Controller, publish_interval, request_custom1_tracking}
use xgc2_multirotor_controll.Leaves.Common.{publish_setpoint, publish_setpoint_if_due}

abbrev pub hover_position_velocity_type_mask : ℕ
hover_position_velocity_type_mask = 0b110111000000

pub record Hover (F : Type 0) : Type 0 where
  pub setpoint_publish_timer : Timer F

module _ {F : Type 0} ⦃d : Double F⦄ where
  open d use {lit}

  abbrev pub new_hover : Hover F
  new_hover = record { setpoint_publish_timer = fresh_timer }

  unfoldable pub configure_hover_setpoint : Controller F → Controller F
  configure_hover_setpoint c =
      let k = world c.sensor c.config.tracking_backend in
      let yaw = c.config.enable_yaw_control in
      record c {
        setpoint = record c.setpoint {
          position = k.position;
          velocity = zero_vector;
          acceleration = zero_vector;
          qx = if yaw then k.qx else lit 0 0;
          qy = if yaw then k.qy else lit 0 0;
          qz = if yaw then k.qz else lit 0 0;
          qw = if yaw then k.qw else lit 1 0;
          yaw_rate = lit 0 0;
          type_mask =
              if yaw
              then bit_and hover_position_velocity_type_mask (0xffff - 1024)
              else hover_position_velocity_type_mask;
        };
      }

  unfoldable pub hover_on_enter : Hover F → Controller F → Hover F × Controller F
  unfolding configure_hover_setpoint publish_setpoint
  hover_on_enter s c = (
    record { setpoint_publish_timer = timer_start c.current_time s.setpoint_publish_timer },
    publish_setpoint (configure_hover_setpoint c),
  )

  unfoldable pub hover_on_tick : Hover F → Controller F → Hover F × Controller F
  hover_on_tick s c =
      let (timer, c') = publish_setpoint_if_due s.setpoint_publish_timer c in
      (record { setpoint_publish_timer = timer }, c')

  unfoldable pub hover_on_event : FlightCommand → Controller F → Controller F
  hover_on_event track c = request_custom1_tracking c
  hover_on_event _ c = c

  unfoldable pub hover_on_exit : Hover F → Hover F
  hover_on_exit s = record { setpoint_publish_timer = timer_stop s.setpoint_publish_timer }

  unfoldable pub hover_next_wake : Hover F → Option F
  hover_next_wake s = timer_due_at s.setpoint_publish_timer publish_interval
