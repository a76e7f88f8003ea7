-- ===== src/SensorChecks.antt =====
-- px4_multirotor_controller/include/px4_multirotor_controller/common/sensor_checks.h: readiness of the
-- sensors, and the source of the world pose. The quaternion's squared norm and the finiteness tests are
-- those of the source, over the abstract doubles.
use Prim.Native.Nat.{bit_and}
use text.Mathlib.Text.{◌==◌ as str_eq}
use xgc2_multirotor_controll.Prelude.{
  ℕ, ◌+◌, Bool, true, false, not, ◌&&◌, ◌||◌, ◌==◌, if◌then◌else◌,
}
use xgc2_multirotor_controll.Double.{Double}
use xgc2_multirotor_controll.Types.{
  TrackingBackend, FeedbackSource, rigid_estimate, mavros_local, tracking_uses_fused_estimate,
  SensorData, Kinematics,
}

-- the states and flags of common/state_estimate_status.h
abbrev pub state_running : ℕ
state_running = 3

abbrev pub state_coasting : ℕ
state_coasting = 4

-- IMU_MISSING, VRPN_MISSING, IMU_STALE, VRPN_STALE, IMU_RATE_LOW, VRPN_RATE_LOW, TIME_JUMP (bits 0 to
-- 6), FAULT (8), EXTRINSIC_UNVERIFIED (10), INVALID_IMU (12), INVALID_VRPN (13), VRPN_FAULT (16) and
-- FILTER_IMU_ONLY (19)
abbrev pub blocking_flags : ℕ
blocking_flags = 0x7f + 0x100 + 0x400 + 0x1000 + 0x2000 + 0x1_0000 + 0x8_0000

abbrev pub is_rigid : FeedbackSource → Bool
is_rigid rigid_estimate = true
is_rigid mavros_local = false

module _ {F : Type 0} where
  unfoldable pub is_control_state_active : SensorData F → Bool
  is_control_state_active s =
      if is_rigid s.feedback_source
      then s.estimate_stats.is_active
      else s.local_pos_stats.is_active && s.local_velocity_stats.is_active && s.imu_stats.is_active

  unfoldable pub is_control_state_new : SensorData F → Bool
  is_control_state_new s =
      if is_rigid s.feedback_source
      then s.estimate_stats.is_new
      else s.local_pos_stats.is_new || s.local_velocity_stats.is_new || s.imu_stats.is_new

  unfoldable pub is_world_pose_new : SensorData F → TrackingBackend → Bool
  unfolding is_control_state_new
  is_world_pose_new s backend =
      if tracking_uses_fused_estimate backend
      then is_control_state_new s
      else s.local_pos_stats.is_new

  unfoldable pub are_base_sensors_active : SensorData F → Bool
  unfolding is_control_state_active
  are_base_sensors_active s = is_control_state_active s && s.state_stats.is_active

  unfoldable pub are_pass_through_sensors_active : SensorData F → Bool
  are_pass_through_sensors_active s =
      s.local_pos_stats.is_active && s.local_velocity_stats.is_active && s.imu_stats.is_active
      && s.state_stats.is_active

  unfoldable pub is_state_estimate_usable_for_control : SensorData F → Bool
  is_state_estimate_usable_for_control s =
      let state_ok = s.estimator_state == state_running || s.estimator_state == state_coasting in
      s.estimate_stats.is_active && state_ok && bit_and s.estimator_flags blocking_flags == 0

  -- worldX … worldZ, worldVx … worldVz and worldQx … worldQw read the fields of this source
  unfoldable pub world : SensorData F → TrackingBackend → Kinematics F
  world s backend =
      if tracking_uses_fused_estimate backend && is_rigid s.feedback_source
      then s.estimate
      else s.local

  unfoldable pub is_offboard_mode : SensorData F → Bool
  is_offboard_mode s = str_eq s.fcu_mode "OFFBOARD"

module _ {F : Type 0} ⦃d : Double F⦄ where
  open d use {lit, add, mul, lt, is_finite}

  unfoldable pub is_control_state_usable_for_control : SensorData F → Bool
  unfolding is_state_estimate_usable_for_control is_control_state_active
  is_control_state_usable_for_control s =
      let k = s.local in
      let norm2 = add (add (add (mul k.qx k.qx) (mul k.qy k.qy)) (mul k.qz k.qz)) (mul k.qw k.qw) in
      if is_rigid s.feedback_source
      then is_state_estimate_usable_for_control s
      else is_control_state_active s
        && s.mavros_inertial_valid
        && is_finite k.position.x
        && is_finite k.position.y
        && is_finite k.position.z
        && is_finite k.velocity.x
        && is_finite k.velocity.y
        && is_finite k.velocity.z
        && is_finite norm2
        && lt (lit 1 18) norm2

  unfoldable pub are_sensors_all_active : SensorData F → Bool
  unfolding are_base_sensors_active is_control_state_usable_for_control
  are_sensors_all_active s = are_base_sensors_active s && is_control_state_usable_for_control s

  unfoldable pub are_sensors_ready : SensorData F → TrackingBackend → Bool
  unfolding are_pass_through_sensors_active are_sensors_all_active
  are_sensors_ready s backend =
      if not (tracking_uses_fused_estimate backend)
      then are_pass_through_sensors_active s
      else are_sensors_all_active s

  unfoldable pub is_airborne : SensorData F → TrackingBackend → Bool
  unfolding world
  is_airborne s backend = s.fcu_armed && lt (lit 3 1) (world s backend).position.z
