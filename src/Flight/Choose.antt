-- ===== src/Flight/Choose.antt =====
-- src/uav/flight_state.cpp: the handlers of FlightChoose, which decide the transition of a turn.
use xgc2_multirotor_controll.Prelude.{
  Bool, true, false, not, Option, none, some, ◌&&◌, List, [], ◌∷◌, if◌then◌else◌,
}
use xgc2_multirotor_controll.Double.{Double}
use xgc2_multirotor_controll.Types.{
  takeoff, land, hover, track, FlightSignal, altctl_ready, offboard_ready, arm_ready,
  altitude_reached, takeoff_timeout, reference_finished, touchdown, timeout_local_position,
  timeout_local_velocity, timeout_imu, timeout_fcu_state, timeout_estimate, estimate_unusable,
  geofence, velocity_xy, velocity_z, saturation_xy, saturation_z,
}
use xgc2_multirotor_controll.SensorChecks.{are_sensors_ready, is_airborne}
use xgc2_multirotor_controll.Controller.{custom1_reference_ready}
use xgc2_multirotor_controll.Leaves.Ground.{new_self_check}
use xgc2_multirotor_controll.Leaves.Init.{new_takeoff_init}
use xgc2_multirotor_controll.Leaves.Request.{new_request}
use xgc2_multirotor_controll.Leaves.Ascending.{new_ascending}
use xgc2_multirotor_controll.Leaves.Hover.{new_hover}
use xgc2_multirotor_controll.Leaves.Landing.{new_landing}
use xgc2_multirotor_controll.Flight.Turn.{
  Leaf, self_check, ready, takeoff_init, takeoff_offboard_request, takeoff_arm_request,
  takeoff_ascending, hovering, custom1, landing, Custom1, stay, enter, Turn, Choice, has_command,
  has_signal, signal_index,
}

-- the order of normalPreemption
abbrev pub safety_order : List FlightSignal
safety_order =
    geofence ∷ velocity_xy ∷ velocity_z ∷ saturation_xy ∷ saturation_z ∷ estimate_unusable
    ∷ timeout_estimate ∷ timeout_local_position ∷ timeout_local_velocity ∷ timeout_imu
    ∷ timeout_fcu_state ∷ []

-- the first signal of an order that is present
unfoldable pub first_present : List FlightSignal → List FlightSignal → Option FlightSignal
first_present signals [] = none
first_present signals (s ∷ order) =
    if has_signal signals s then some s else first_present signals order

-- the takeoff states' limit of ten seconds
abbrev pub has_timed_out : {F : Type 0} ⦃d : Double F⦄ → Turn F → Bool
has_timed_out ⦃d⦄ t = d.lt (d.lit 10 0) t.elapsed

module _ {F C : Type 0} ⦃d : Double F⦄ where
  abbrev pub staying : Choice F C
  staying = record { outcome = stay; selected_signal = none; selected_command = false }

  -- Enter, with nothing selected, with a signal, or with a command
  abbrev pub entering : Leaf F C → Choice F C
  entering leaf = record { outcome = enter leaf; selected_signal = none; selected_command = false }

  abbrev pub entering_by_signal : Turn F → FlightSignal → Leaf F C → Choice F C
  entering_by_signal t signal leaf = record {
    outcome = enter leaf;
    selected_signal = some (signal_index t.controller.signals signal);
    selected_command = false;
  }

  abbrev pub entering_by_command : Leaf F C → Choice F C
  entering_by_command leaf = record {
    outcome = enter leaf;
    selected_signal = none;
    selected_command = true;
  }

  unfoldable pub normal_preemption : Turn F → Option (Choice F C)
  normal_preemption t = elim (first_present t.controller.signals safety_order) [
    | some signal ↦ some (entering_by_signal t signal (landing new_landing))
    | none ↦
        if has_command t.commands land
        then some (entering_by_command (landing new_landing))
        else none
  ]

  unfoldable pub takeoff_preemption : Turn F → Option (Choice F C)
  takeoff_preemption t = elim (normal_preemption t) [
    | some normal ↦ some normal
    | none ↦ if t.distance.exceeded then some (entering (landing new_landing)) else none
  ]

  abbrev pub unless_preempted : Option (Choice F C) → Choice F C → Choice F C
  unless_preempted (some preemption) otherwise = preemption
  unless_preempted none otherwise = otherwise

  unfoldable pub choose_self_check : Turn F → Choice F C
  choose_self_check t =
      let c = t.controller in
      if are_sensors_ready c.sensor c.config.tracking_backend then entering ready else staying

  unfoldable pub choose_ready : Turn F → Choice F C
  choose_ready t =
      let c = t.controller in
      let backend = c.config.tracking_backend in
      unless_preempted (normal_preemption t) (
        if is_airborne c.sensor backend
        then entering (landing new_landing)
        else (if has_command t.commands takeoff && t.distance.available && not t.distance.exceeded
            then entering_by_command (takeoff_init new_takeoff_init)
            else (if not (are_sensors_ready c.sensor backend)
                then entering (self_check new_self_check)
                else staying)))

  unfoldable pub choose_takeoff_init : Turn F → Choice F C
  choose_takeoff_init t = unless_preempted (takeoff_preemption t) (
      if t.controller.sensor.fcu_armed
      then entering ready
      else (if has_signal t.controller.signals altctl_ready
          then entering_by_signal t altctl_ready (takeoff_offboard_request new_request)
          else (if has_timed_out t then entering (landing new_landing) else staying)))

  unfoldable pub choose_takeoff_offboard_request : Turn F → Choice F C
  choose_takeoff_offboard_request t = unless_preempted (takeoff_preemption t) (
      if t.controller.sensor.fcu_armed
      then entering ready
      else (if has_signal t.controller.signals offboard_ready
          then entering_by_signal t offboard_ready (takeoff_arm_request new_request)
          else (if has_timed_out t then entering (landing new_landing) else staying)))

  unfoldable pub choose_takeoff_arm_request : Turn F → Choice F C
  choose_takeoff_arm_request t = unless_preempted (takeoff_preemption t) (
      if has_signal t.controller.signals arm_ready
      then entering_by_signal t arm_ready (takeoff_ascending new_ascending)
      else (if has_timed_out t then entering (landing new_landing) else staying))

  unfoldable pub choose_landing : Turn F → Choice F C
  choose_landing t =
      if has_signal t.controller.signals touchdown
      then entering_by_signal t touchdown (self_check new_self_check)
      else staying

module _ {F C : Type 0} ⦃d : Double F⦄ (ops : Custom1 F C) where
  abbrev pub new_custom1 : Leaf F C
  new_custom1 = custom1 ops.create

  unfoldable pub choose_takeoff_ascending : Turn F → Choice F C
  choose_takeoff_ascending t =
      let c = t.controller in
      let trackable = custom1_reference_ready c in
      unless_preempted (takeoff_preemption t) (
        if has_command t.commands hover
        then entering_by_command (hovering new_hover)
        else (if has_command t.commands track && trackable
            then entering_by_command new_custom1
            else (if has_signal c.signals altitude_reached
                then entering_by_signal t altitude_reached (hovering new_hover)
                else (if has_signal c.signals takeoff_timeout
                    then entering_by_signal t takeoff_timeout (landing new_landing)
                    else (if c.custom1_requested && trackable
                        then entering new_custom1
                        else staying)))))

  unfoldable pub choose_hover : Turn F → Choice F C
  choose_hover t =
      let c = t.controller in
      let trackable = custom1_reference_ready c in
      unless_preempted (normal_preemption t) (
        if t.distance.exceeded
        then entering (landing new_landing)
        else (if has_command t.commands track && trackable
            then entering_by_command new_custom1
            else (if c.custom1_requested && trackable then entering new_custom1 else staying)))

  unfoldable pub choose_custom1 : Turn F → Choice F C
  choose_custom1 t = unless_preempted (normal_preemption t) (
      if t.distance.exceeded
      then entering (landing new_landing)
      else (if has_command t.commands hover
          then entering_by_command (hovering new_hover)
          else (if has_signal t.controller.signals reference_finished
              then entering_by_signal t reference_finished (hovering new_hover)
              else staying)))

  -- dispatch of FlightChoose on the active leaf
  unfoldable pub choose : Leaf F C → Turn F → Choice F C
  choose (self_check s) t = choose_self_check t
  choose ready t = choose_ready t
  choose (takeoff_init s) t = choose_takeoff_init t
  choose (takeoff_offboard_request s) t = choose_takeoff_offboard_request t
  choose (takeoff_arm_request s) t = choose_takeoff_arm_request t
  choose (takeoff_ascending s) t = choose_takeoff_ascending t
  choose (hovering s) t = choose_hover t
  choose (custom1 s) t = choose_custom1 t
  choose (landing s) t = choose_landing t
