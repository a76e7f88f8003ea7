-- ===== src/Lifter.antt =====
-- px4_multirotor_controller/include/px4_multirotor_controller/uav/mpc_trajectory_buffer.h and
-- control/trajectory_lifter.h: the active and pending planner samples, when a sample becomes active,
-- and the setpoint that a sample gives at a time. A result `none` is a std::runtime_error thrown by
-- the arithmetic of `Time`.
pub mod Promotion
pub mod Masks
pub mod Window
use Prim.Native.Nat.{bit_and, bit_or}
use xgc2_multirotor_controll.Prelude.{
  ℕ, ◌+◌, ◌-◌, Bool, true, false, not, Option, none, some, ltb, ◌==◌, ◌&&◌, ◌||◌, if◌then◌else◌,
  ◌>>=◌,
}
use xgc2_multirotor_controll.Prelude.Int.{ℤ, pos, negsuc, ltb_ℤ, leb_ℤ}
use xgc2_multirotor_controll.Double.{Double, fmax}
use xgc2_multirotor_controll.Time.{Stamp, is_zero, stamp_lt, stamp_sub, duration_ns, duration_sec}
use xgc2_multirotor_controll.Types.{
  TrackingBackend, px4_local, smc, dfbc, pva_smc, Px4LocalLiftMode, legacy, zero_order_hold,
  Vector3, Setpoint, default_setpoint, MpcTrajectoryState, default_trajectory, Config,
}

-- MpcTrajectoryBuffer
pub record MpcTrajectoryBuffer (F : Type 0) : Type 0 where
  pub active : MpcTrajectoryState F
  pub pending : MpcTrajectoryState F

-- the kIgnore… bits
abbrev pub ignore_px : ℕ
ignore_px = 1

abbrev pub ignore_py : ℕ
ignore_py = 2

abbrev pub ignore_pz : ℕ
ignore_pz = 4

abbrev pub ignore_vx : ℕ
ignore_vx = 8

abbrev pub ignore_vy : ℕ
ignore_vy = 16

abbrev pub ignore_vz : ℕ
ignore_vz = 32

abbrev pub ignore_afx : ℕ
ignore_afx = 64

abbrev pub ignore_afy : ℕ
ignore_afy = 128

abbrev pub ignore_afz : ℕ
ignore_afz = 256

abbrev pub force_bit : ℕ
force_bit = 512

abbrev pub ignore_yaw : ℕ
ignore_yaw = 1024

abbrev pub ignore_yaw_rate : ℕ
ignore_yaw_rate = 2048

unfoldable pub position_target_ignored : ℕ → ℕ → Bool
position_target_ignored mask bit = not (bit_and mask bit == 0)

unfoldable pub smc_coordinate_frame_is_world : ℕ → Bool
smc_coordinate_frame_is_world coordinate_frame = coordinate_frame == 1

-- kPvaIgnoreBits is the sum of the nine position, velocity and acceleration bits
unfoldable pub smc_mask_supplies_world_pva : ℕ → Bool
smc_mask_supplies_world_pva type_mask =
    bit_and type_mask force_bit == 0 && bit_and type_mask 0x1ff == 0

unfoldable pub smc_world_pva_available : ℕ → ℕ → Bool
unfolding smc_coordinate_frame_is_world smc_mask_supplies_world_pva
smc_world_pva_available type_mask coordinate_frame =
    smc_coordinate_frame_is_world coordinate_frame && smc_mask_supplies_world_pva type_mask

unfoldable pub uses_stage_effective_time : TrackingBackend → Px4LocalLiftMode → Bool
uses_stage_effective_time smc lift_mode = true
uses_stage_effective_time dfbc lift_mode = true
uses_stage_effective_time px4_local zero_order_hold = true
uses_stage_effective_time pva_smc zero_order_hold = true
uses_stage_effective_time _ _ = false

-- The mask that liftWorldLocal leaves in the setpoint, over 16 bits.
unfoldable pub lifted_mask : ℕ → ℕ → Bool → ℕ
lifted_mask type_mask default_mask enable_yaw =
    let mask = if type_mask == 0 then default_mask else type_mask in
    if enable_yaw
    then bit_and mask (0xffff - ignore_yaw)
    else bit_or mask (ignore_yaw + ignore_yaw_rate)

module _ {F : Type 0} ⦃d : Double F⦄ where
  open d use {lit, add, sub, mul, lt, is_finite, abs, llround}

  unfoldable pub cache_pending :
      MpcTrajectoryState F → MpcTrajectoryBuffer F → MpcTrajectoryBuffer F
  cache_pending trajectory b = record b {
    pending = record trajectory { is_valid = true; new_data_received = false };
  }

  unfoldable pub promote_pending : Stamp → MpcTrajectoryBuffer F → MpcTrajectoryBuffer F × Bool
  promote_pending activation_time b = if not b.pending.is_valid then (b, false) else (
    record {
      active = record b.pending { planning_time = activation_time; new_data_received = false };
      pending = default_trajectory;
    },
    true,
  )

  unfoldable pub promote_trajectory_sample :
      MpcTrajectoryBuffer F
      → Stamp
      → TrackingBackend
      → Px4LocalLiftMode
      → MpcTrajectoryBuffer F × Bool
  unfolding promote_pending
  promote_trajectory_sample b now backend lift_mode =
      if not b.pending.is_valid
      then (b, false)
      else (if uses_stage_effective_time backend lift_mode
            && (not b.pending.is_valid
                || is_zero b.pending.planning_time
                || stamp_lt now b.pending.planning_time)
          then (b, false)
          else promote_pending b.pending.planning_time b)

  unfoldable pub cache_trajectory_sample :
      MpcTrajectoryBuffer F → MpcTrajectoryState F → Stamp → Config F → MpcTrajectoryBuffer F
  unfolding cache_pending
  cache_trajectory_sample b sample receipt config =
      let due = uses_stage_effective_time config.tracking_backend config.px4_local_lift in
      let promoted =
        promote_trajectory_sample b receipt config.tracking_backend config.px4_local_lift in
      cache_pending sample (if due then promoted.0 else b)

  unfoldable pub all_finite : Vector3 F → Bool
  all_finite v = is_finite v.x && is_finite v.y && is_finite v.z

  unfoldable pub pass_through_reference_ready : MpcTrajectoryState F → Bool
  unfolding all_finite
  pass_through_reference_ready s =
      s.is_valid
      && all_finite s.position_k
      && all_finite s.velocity_k
      && all_finite s.acceleration_k

  unfoldable pub pass_through_plan_matches_hover : MpcTrajectoryState F → Vector3 F → F → F → Bool
  unfolding position_target_ignored
  pass_through_plan_matches_hover s hover xy_tol z_tol =
      let use_x = not (position_target_ignored s.type_mask ignore_px) in
      let use_y = not (position_target_ignored s.type_mask ignore_py) in
      let use_z = not (position_target_ignored s.type_mask ignore_pz) in
      let dx = sub s.position_k.x hover.x in
      let dy = sub s.position_k.y hover.y in
      let dz = sub s.position_k.z hover.z in
      let xy_off =
        if use_x && use_y
        then lt (mul xy_tol xy_tol) (add (mul dx dx) (mul dy dy))
        else (if use_x && lt xy_tol (abs dx) then true else use_y && lt xy_tol (abs dy)) in
      s.is_valid
      && (not use_x && not use_y && not use_z || not xy_off && not (use_z && lt z_tol (abs dz)))

  unfoldable pub pass_through_may_take_setpoint :
      MpcTrajectoryState F → Vector3 F → F → F → Bool → Bool
  unfolding pass_through_reference_ready pass_through_plan_matches_hover
  pass_through_may_take_setpoint s hover xy_tol z_tol tracking_armed =
      pass_through_reference_ready s
      && (tracking_armed || pass_through_plan_matches_hover s hover xy_tol z_tol)

  -- -1 stands for a period that is no positive finite number
  unfoldable pub segment_period_ns : F → ℤ
  segment_period_ns planning_period =
      if not (is_finite planning_period) || d.le planning_period (lit 0 0)
      then negsuc 0
      else llround (mul planning_period (lit 1_000_000_000 0))

  unfoldable pub stage_window_open : MpcTrajectoryState F → Stamp → F → Option Bool
  stage_window_open s now planning_period =
      if not (pass_through_reference_ready s)
        || is_zero s.planning_time
        || is_zero now
        || stamp_lt now s.planning_time
      then some false
      else (do
        elapsed ← stamp_sub now s.planning_time
        let period_ns = segment_period_ns planning_period
        let tau_ns = duration_ns elapsed
        some (leb_ℤ (pos 0) period_ns && leb_ℤ (pos 0) tau_ns && leb_ℤ tau_ns period_ns))

  -- `tau` of liftWorldLocal
  unfoldable pub lift_tau : Stamp → Stamp → Option F
  lift_tau planning_time now =
      if not (is_zero planning_time) && not (is_zero now)
      then (do
        elapsed ← stamp_sub now planning_time
        let tau = duration_sec elapsed
        some (if lt tau (lit 0 0) then lit 0 0 else tau))
      else some (lit 0 0)

  -- One axis: the bits that ignore its position, velocity and acceleration, and the sample's three
  -- values. The results are the position, velocity and acceleration of the setpoint.
  unfoldable pub lift_axis : ℕ → ℕ → ℕ → ℕ → F → F → F → F → F × F × F
  unfolding position_target_ignored
  lift_axis mask ignore_p ignore_v ignore_a tau p v a =
      let no_v = position_target_ignored mask ignore_v in
      let no_a = position_target_ignored mask ignore_a in
      let v0 = if no_v then lit 0 0 else v in
      let a0 = if no_a then lit 0 0 else a in
      (
        if position_target_ignored mask ignore_p
            then lit 0 0
            else add (add p (mul v0 tau)) (mul (mul (mul (lit 5 1) a0) tau) tau),
        if no_v then lit 0 0 else add v0 (mul a0 tau),
        if no_a then lit 0 0 else a0,
      )

  unfoldable pub lift_world_local : MpcTrajectoryState F → Stamp → ℕ → Bool → Option (Setpoint F)
  unfolding lift_axis
  lift_world_local s now default_mask enable_yaw =
      if not s.is_valid then some default_setpoint else (do
        tau ← lift_tau s.planning_time now
        let mask = lifted_mask s.type_mask default_mask enable_yaw
        let p = s.position_k
        let v = s.velocity_k
        let a = s.acceleration_k
        let x = lift_axis mask ignore_px ignore_vx ignore_afx tau p.x v.x a.x
        let y = lift_axis mask ignore_py ignore_vy ignore_afy tau p.y v.y a.y
        let z = lift_axis mask ignore_pz ignore_vz ignore_afz tau p.z v.z a.z
        some (record {
          position = record { x = x.0; y = y.0; z = z.0 };
          velocity = record { x = x.1; y = y.1; z = z.1 };
          acceleration = record { x = x.2; y = y.2; z = z.2 };
          qx = s.qx;
          qy = s.qy;
          qz = s.qz;
          qw = s.qw;
          yaw_rate = s.yaw_rate;
          type_mask = mask;
          coordinate_frame = if s.coordinate_frame == 0 then 1 else s.coordinate_frame;
        }))

  -- EffectiveSegmentLift of liftForBackend, one function for each of its branches: `none` inside is
  -- `success == false`.
  unfoldable pub lift_staged :
      MpcTrajectoryState F → Stamp → F → Bool → Option (Option (Setpoint F))
  lift_staged s now period enable_yaw = do
    is_open ← stage_window_open s now period
    if not is_open || not (smc_world_pva_available s.type_mask s.coordinate_frame)
        then some none
        else (lift_world_local s now 0 enable_yaw >>= λ lifted. some (some lifted))

  unfoldable pub lift_held :
      MpcTrajectoryState F → Stamp → F → ℕ → Bool → Option (Option (Setpoint F))
  lift_held s now period default_mask enable_yaw = do
    is_open ← stage_window_open s now period
    if not is_open
        then some none
        else (lift_world_local s s.planning_time default_mask enable_yaw >>= λ lifted.
            some (some lifted))

  unfoldable pub lift_direct :
      MpcTrajectoryState F → Stamp → ℕ → Bool → Option (Option (Setpoint F))
  lift_direct s now default_mask enable_yaw =
      if not s.is_valid
      then some none
      else (lift_world_local s now default_mask enable_yaw >>= λ lifted. some (some lifted))

  unfoldable pub lift_for_backend :
      MpcTrajectoryState F
      → Stamp
      → F
      → ℕ
      → Bool
      → TrackingBackend
      → Px4LocalLiftMode
      → Option (Option (Setpoint F))
  unfolding lift_staged lift_held lift_direct
  lift_for_backend s now period default_mask enable_yaw smc lift_mode =
      lift_staged s now period false
  lift_for_backend s now period default_mask enable_yaw dfbc lift_mode =
      lift_staged s now period enable_yaw
  lift_for_backend s now period default_mask enable_yaw _ zero_order_hold =
      lift_held s now period default_mask enable_yaw
  lift_for_backend s now period default_mask enable_yaw _ legacy =
      lift_direct s now default_mask enable_yaw
