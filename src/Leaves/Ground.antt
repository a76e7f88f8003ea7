-- ===== src/Leaves/Ground.antt =====
-- self_check_state.cpp and ready_state.cpp of px4_multirotor_controller/src/uav/state_machine.
use xgc2_multirotor_controll.Prelude.{false, Option, if◌then◌else◌}
use xgc2_multirotor_controll.Double.{Double}
use xgc2_multirotor_controll.Clock.{
  Timer, fresh_timer, timer_start, timer_reset, timer_stop, timer_elapsed, timer_due_at,
}
use xgc2_multirotor_controll.Types.{flight_arm_request}
use xgc2_multirotor_controll.SensorChecks.{is_airborne}
use xgc2_multirotor_controll.Controller.{Controller, emit_flight_effect}

pub record SelfCheck (F : Type 0) : Type 0 where
  pub status_log_timer : Timer F

module _ {F : Type 0} ⦃d : Double F⦄ where
  abbrev pub new_self_check : SelfCheck F
  new_self_check = record { status_log_timer = fresh_timer }

  unfoldable pub self_check_on_enter : SelfCheck F → Controller F → SelfCheck F
  self_check_on_enter s c = record {
    status_log_timer = timer_start c.current_time s.status_log_timer;
  }

  unfoldable pub self_check_on_tick : SelfCheck F → Controller F → SelfCheck F
  self_check_on_tick s c =
      if d.le (d.lit 2 0) (timer_elapsed c.current_time s.status_log_timer)
      then record { status_log_timer = timer_reset c.current_time s.status_log_timer }
      else s

  unfoldable pub self_check_on_exit : SelfCheck F → SelfCheck F
  self_check_on_exit s = record { status_log_timer = timer_stop s.status_log_timer }

  unfoldable pub self_check_next_wake : SelfCheck F → Option F
  self_check_next_wake s = timer_due_at s.status_log_timer (d.lit 2 0)

  -- ReadyState has no data, and nothing on a tick or an exit
  unfoldable pub ready_on_enter : Controller F → Controller F
  ready_on_enter c =
      if is_airborne c.sensor c.config.tracking_backend
      then c
      else emit_flight_effect (flight_arm_request c.current_time false) c
