-- ===== src/Tracking/Local.antt =====
-- Custom1State::handlePx4LocalPassThrough and handlePvaSmcMode of
-- src/uav/state_machine/custom1_state.cpp, and tracking/pva_smc.h.
use Prim.Native.Nat.{bit_and}
use xgc2_multirotor_controll.Prelude.{
  ℕ, ◌-◌, Bool, true, false, not, Option, none, some, ◌&&◌, ◌||◌, if◌then◌else◌, ◌>>=◌,
}
use xgc2_multirotor_controll.Double.{Double}
use xgc2_multirotor_controll.Time.{Stamp, stamp_of_sec}
use xgc2_multirotor_controll.Types.{px4_local, pva_smc, Config, Setpoint, LocalPv}
use xgc2_multirotor_controll.Lifter.{
  ignore_yaw, lift_world_local, lift_for_backend, promote_trajectory_sample,
}
use xgc2_multirotor_controll.Controller.{Controller}
use xgc2_multirotor_controll.Tracking.{
  Custom1State, Tracked, should_publish, publish_local, publish_hover_if_due, wait_for_trajectory,
  may_take_setpoint,
}

-- kDefaultPvaLocalTypeMask
abbrev pub default_pva_local_type_mask : ℕ
default_pva_local_type_mask = 0b110000000000

-- sign and signBeta of xgc2_math::math_helpers
pub record Sign (F : Type 0) : Type 0 where
  pub sign : F → F
  pub sign_beta : F → F → F

module _ {F : Type 0} ⦃d : Double F⦄ ⦃g : Sign F⦄ where
  open d use {lit, neg, add, sub, mul, div, lt, abs, atan}
  open g use {sign, sign_beta}

  -- the feedback of one axis, from its position and velocity errors
  unfoldable pub pva_feedback : Config F → F → F → F
  pva_feedback config ep ev =
      let slide =
        add ev (sign_beta (add (sign_beta ev (lit 2 0)) (mul config.smc_k2 (atan ep))) (lit 5 1)) in
      let saturation =
        if lt config.smc_boundary_layer (abs slide)
        then sign slide
        else div slide config.smc_boundary_layer in
      mul (neg config.smc_k1) saturation

  unfoldable pub pva_smc_setpoint : Setpoint F → LocalPv F → Config F → Setpoint F
  pva_smc_setpoint reference measured config =
      let p = reference.position in
      let v = reference.velocity in
      let a = reference.acceleration in
      let mp = measured.position in
      let mv = measured.velocity in
      record reference {
        acceleration = record {
          x = add a.x (pva_feedback config (sub mp.x p.x) (sub mv.x v.x));
          y = add a.y (pva_feedback config (sub mp.y p.y) (sub mv.y v.y));
          z = add a.z (pva_feedback config (sub mp.z p.z) (sub mv.z v.z));
        };
        coordinate_frame = 1;
        type_mask =
            if config.enable_yaw_control
            then bit_and default_pva_local_type_mask (0xffff - ignore_yaw)
            else default_pva_local_type_mask;
      }

module _ {F A B L : Type 0} ⦃d : Double F⦄ where
  -- after the promotion; `switched` is `frame_switched`, `paired` the sensor's pair
  unfoldable pub pva_smc_publish :
      ⦃g : Sign F⦄
      → F
      → Stamp
      → Bool
      → Option (LocalPv F)
      → Custom1State F A B L
      → Controller F
      → Option (Tracked F A B L)
  pva_smc_publish current_time now switched none s c = some (s, c)
  pva_smc_publish current_time now switched (some paired) s c =
      let reference = c.mpc_trajectory_buffer.active in
      if not reference.is_valid || not switched && not (should_publish current_time s c)
      then some (s, c)
      else (lift_world_local reference now c.config.local_type_mask c.config.enable_yaw_control
          >>= λ lifted.
              some (publish_local (pva_smc_setpoint lifted paired c.config) current_time s c))

  unfoldable pub handle_pva_smc_mode :
      ⦃g : Sign F⦄ → F → Custom1State F A B L → Controller F → Option (Tracked F A B L)
  handle_pva_smc_mode current_time s c = do
    now ← stamp_of_sec current_time
    let promoted =
        promote_trajectory_sample c.mpc_trajectory_buffer now pva_smc c.config.px4_local_lift
    pva_smc_publish current_time now promoted.1 c.sensor.paired_local_pv s
        (record c { mpc_trajectory_buffer = promoted.0 })

  -- after the lift: `none` is a lift without success
  unfoldable pub local_publish :
      F → Option (Setpoint F) → Custom1State F A B L → Controller F → Tracked F A B L
  local_publish current_time lifted s c =
      if not (may_take_setpoint c.mpc_trajectory_buffer.active s c)
      then publish_hover_if_due current_time
          (wait_for_trajectory c (record s { tracking_armed = false })) c
      else (elim lifted [
        | none ↦ publish_hover_if_due current_time s c
        | some setpoint ↦
            let armed = record s { tracking_armed = true } in
            if should_publish current_time armed c
            then publish_local setpoint current_time armed c
            else (armed, c)
      ])

  unfoldable pub handle_px4_local_pass_through :
      F → Custom1State F A B L → Controller F → Option (Tracked F A B L)
  handle_px4_local_pass_through current_time s c = do
    now ← stamp_of_sec current_time
    let promoted =
        promote_trajectory_sample c.mpc_trajectory_buffer now px4_local c.config.px4_local_lift
    lifted ←
        lift_for_backend promoted.0.active now c.config.planning_period c.config.local_type_mask
          c.config.enable_yaw_control px4_local c.config.px4_local_lift
    some (local_publish current_time lifted s (record c { mpc_trajectory_buffer = promoted.0 }))
