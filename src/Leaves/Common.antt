-- ===== src/Leaves/Common.antt =====
-- px4_multirotor_controller/src/uav/state_machine: publishSetpointIfDue, which most flight states have.
use xgc2_multirotor_controll.Prelude.{true, if◌then◌else◌}
use xgc2_multirotor_controll.Double.{Double}
use xgc2_multirotor_controll.Clock.{Timer, should_run_every}
use xgc2_multirotor_controll.Types.{flight_setpoint}
use xgc2_multirotor_controll.Controller.{Controller, emit_flight_effect, publish_interval}

module _ {F : Type 0} ⦃d : Double F⦄ where
  unfoldable pub publish_setpoint : Controller F → Controller F
  publish_setpoint c = emit_flight_effect (flight_setpoint c.current_time) c

  unfoldable pub publish_setpoint_if_due : Timer F → Controller F → Timer F × Controller F
  unfolding publish_setpoint
  publish_setpoint_if_due timer c =
      let (timer', run) = should_run_every c.current_time timer publish_interval true in
      (timer', if run then publish_setpoint c else c)
