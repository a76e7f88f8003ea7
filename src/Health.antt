-- ===== src/Health.antt =====
-- px4_multirotor_controller/src/uav/state_machine/health_monitor_state.cpp and its header: the safety
-- checks of every turn, which emit a signal when a condition begins.
pub mod Around
pub mod Trip
use xgc2_multirotor_controll.Prelude.{
  Bool, true, false, not, Option, none, some, ◌&&◌, ◌||◌, if◌then◌else◌, List, [], ◌∷◌, ◌++◌,
}
use xgc2_multirotor_controll.Double.{Double}
use xgc2_multirotor_controll.Clock.{controller_due_at}
use xgc2_multirotor_controll.Types.{
  Config, SensorData, TopicStats, ControlBounds, WorldBoundary, outside,
  tracking_uses_fused_estimate, FlightSignal, timeout_local_position, timeout_local_velocity,
  timeout_imu, timeout_fcu_state, timeout_estimate, estimate_unusable, geofence, velocity_xy,
  velocity_z, saturation_xy, saturation_z,
}
use xgc2_multirotor_controll.SensorChecks.{
  is_rigid, is_control_state_active, is_control_state_usable_for_control, is_world_pose_new, world,
}
use xgc2_multirotor_controll.Controller.{Controller, emit_flight_signal, is_px4_local}

pub record PositionDistance (F : Type 0) : Type 0 where
  pub metres : F
  pub available : Bool
  pub exceeded : Bool

-- HealthMonitorState with its SafetyState
pub record Health (F : Type 0) : Type 0 where
  pub was_estimate_active : Bool
  pub was_local_pos_active : Bool
  pub was_local_velocity_active : Bool
  pub was_imu_active : Bool
  pub was_state_active : Bool
  pub geofence_violated : Bool
  pub velocity_xy_exceeded : Bool
  pub velocity_z_exceeded : Bool
  pub state_estimate_unusable : Bool
  pub state_estimate_unusable_since : F
  pub position_distance : PositionDistance F
  pub received_canonical_pose : Bool
  pub received_local_pose : Bool

-- checkSensorActiveEdge: the signal is emitted when a stream that was active is not
unfoldable pub check_sensor_active_edge :
    {F : Type 0} → TopicStats → Bool → FlightSignal → Controller F → Controller F
unfolding emit_flight_signal
check_sensor_active_edge stats was_active signal c =
    if was_active && not stats.is_active then emit_flight_signal signal c else c

module _ {F : Type 0} ⦃d : Double F⦄ where
  open d use {lit, neg, add, sub, mul, lt, le, is_finite, quiet_nan, abs, sqrt, hypot}

  abbrev pub initial_health : Health F
  initial_health = record {
    was_estimate_active = false;
    was_local_pos_active = false;
    was_local_velocity_active = false;
    was_imu_active = false;
    was_state_active = false;
    geofence_violated = false;
    velocity_xy_exceeded = false;
    velocity_z_exceeded = false;
    state_estimate_unusable = false;
    state_estimate_unusable_since = neg (lit 1 0);
    position_distance = record { metres = quiet_nan; available = false; exceeded = false };
    received_canonical_pose = false;
    received_local_pose = false;
  }

  unfoldable pub health_next_wake : Health F → Config F → Option F
  health_next_wake h config =
      if h.state_estimate_unusable || lt h.state_estimate_unusable_since (lit 0 0)
      then none
      else some (
          controller_due_at h.state_estimate_unusable_since
            config.state_estimate_unusable_trip_delay)

  -- the comparison of the two poses; kPositionDistanceLimitMetres is 1.0
  unfoldable pub update_position_distance : SensorData F → Health F → Health F
  update_position_distance sd h =
      let canonical = h.received_canonical_pose || sd.vrpn_pose_stats.is_new in
      let locally = h.received_local_pose || sd.local_pos_stats.is_new in
      let metres =
        hypot (sub sd.vrpn.x sd.local.position.x) (sub sd.vrpn.y sd.local.position.y)
          (sub sd.vrpn.z sd.local.position.z) in
      if sd.vrpn_pose_stats.is_new || sd.local_pos_stats.is_new
      then record h {
        received_canonical_pose = canonical;
        received_local_pose = locally;
        position_distance =
            if canonical && locally
            then record {
              metres = metres;
              available = is_finite metres;
              exceeded = is_finite metres && lt (lit 1 0) metres;
            }
            else h.position_distance;
      }
      else h

  -- the active edges of the streams that the backend and the feedback source use
  unfoldable pub check_streams : Health F → Controller F → Health F × Controller F
  check_streams h c =
      let sd = c.sensor in
      let fused = tracking_uses_fused_estimate c.config.tracking_backend in
      let rigid = fused && is_rigid sd.feedback_source in
      let locally = fused && not (is_rigid sd.feedback_source) in
      let c1 =
        if rigid
        then check_sensor_active_edge sd.estimate_stats h.was_estimate_active timeout_estimate c
        else c in
      let c2 =
        if locally
        then check_sensor_active_edge sd.imu_stats h.was_imu_active timeout_imu (
            check_sensor_active_edge sd.local_velocity_stats h.was_local_velocity_active
              timeout_local_velocity
              (check_sensor_active_edge sd.local_pos_stats h.was_local_pos_active
                timeout_local_position c1))
        else c1 in
      (
        record h {
          was_estimate_active =
              if rigid then sd.estimate_stats.is_active else h.was_estimate_active;
          was_local_pos_active =
              if locally then sd.local_pos_stats.is_active else h.was_local_pos_active;
          was_local_velocity_active =
              if locally then sd.local_velocity_stats.is_active else h.was_local_velocity_active;
          was_imu_active = if locally then sd.imu_stats.is_active else h.was_imu_active;
          was_state_active = sd.state_stats.is_active;
        },
        check_sensor_active_edge sd.state_stats h.was_state_active timeout_fcu_state c2,
      )

  -- the trip of an estimate that stays active and unusable
  unfoldable pub check_estimate : Health F → Controller F → Health F × Controller F
  check_estimate h c =
      let sd = c.sensor in
      let now = c.current_time in
      let unusable =
        tracking_uses_fused_estimate c.config.tracking_backend
        && is_control_state_active sd
        && not (is_control_state_usable_for_control sd) in
      let since =
        if unusable && lt h.state_estimate_unusable_since (lit 0 0)
        then now
        else (if not unusable then neg (lit 1 0) else h.state_estimate_unusable_since) in
      let duration = if le (lit 0 0) since then sub now since else lit 0 0 in
      let trip = unusable && le c.config.state_estimate_unusable_trip_delay duration in
      (
        record h { state_estimate_unusable_since = since; state_estimate_unusable = trip },
        if not h.state_estimate_unusable && trip then emit_flight_signal estimate_unusable c else c,
      )

  abbrev outside_boundary : Option (WorldBoundary F) → F → F → F → Bool
  outside_boundary none x y z = false
  outside_boundary (some b) x y z = elim b.control_bounds [
    | none ↦ false
    | some bounds ↦ outside bounds x y z
  ]

  -- the geofence and the two speed limits, on a new world pose
  unfoldable pub check_limits : Health F → Controller F → Health F × Controller F
  unfolding outside
  check_limits h c =
      let cfg = c.config in
      let k = world c.sensor cfg.tracking_backend in
      let violated = outside_boundary cfg.world_boundary k.position.x k.position.y k.position.z in
      let speed = sqrt (add (mul k.velocity.x k.velocity.x) (mul k.velocity.y k.velocity.y)) in
      let xy_exceeded = lt cfg.max_velocity_xy speed in
      let z_exceeded = lt cfg.max_velocity_z (abs k.velocity.z) in
      let c1 = if not h.geofence_violated && violated then emit_flight_signal geofence c else c in
      let c2 =
        if not h.velocity_xy_exceeded && xy_exceeded
        then emit_flight_signal velocity_xy c1
        else c1 in
      let c3 =
        if not h.velocity_z_exceeded && z_exceeded then emit_flight_signal velocity_z c2 else c2 in
      if is_world_pose_new c.sensor cfg.tracking_backend
      then (
        record h {
          geofence_violated = violated;
          velocity_xy_exceeded = xy_exceeded;
          velocity_z_exceeded = z_exceeded;
        },
        c3,
      )
      else (h, c)

  unfoldable pub health_on_tick : Health F → Controller F → Health F × Controller F
  health_on_tick h c =
      let (h1, c1) = check_streams (update_position_distance c.sensor h) c in
      let (h2, c2) = check_estimate h1 c1 in check_limits h2 c2

  -- onFreshImu pushes into the signals alone: the diagnostic events follow in the turn
  unfoldable pub on_fresh_imu : Controller F → Controller F
  on_fresh_imu c =
      let a = c.setpoint.acceleration in
      let xy = lt c.config.acc_saturation_xy (sqrt (add (mul a.x a.x) (mul a.y a.y))) in
      let z = lt c.config.acc_saturation_z (abs a.z) in
      let s1 = if xy then c.signals ++ (saturation_xy ∷ []) else c.signals in
      let s2 = if z then s1 ++ (saturation_z ∷ []) else s1 in
      if is_px4_local c.config.tracking_backend then record c { signals = s2 } else c
