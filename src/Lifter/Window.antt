-- ===== src/Lifter/Window.antt =====
-- control/trajectory_lifter.h: the window in which a sample is effective, and what it gives there.
use xgc2_multirotor_controll.Prelude.{
  refl, false, not, ◌&&◌, Bool-cases, ℕ, ◌+◌, ◌-◌, ◌*◌, ◌^◌, ◌<◌, ◌≤◌, ◌≡◌, ◌⊎◌, Bool, true, some,
  arith, Option-cases, inl, inr,
}
use xgc2_multirotor_controll.Prelude.Int.{pos, ◌≤ℤ◌}
use xgc2_multirotor_controll.Double.{Double}
use xgc2_multirotor_controll.Time.{giga, Stamp, is_zero, stamp_ns, IsCanonical, stamp_sub}
use xgc2_multirotor_controll.Time.Order.{stamp_order}
use xgc2_multirotor_controll.Time.Sums.{stamp_sub_exact, stamp_sub_total}
use xgc2_multirotor_controll.Types.{
  TrackingBackend, smc, dfbc, px4_local, Px4LocalLiftMode, zero_order_hold, MpcTrajectoryState,
  Setpoint,
}
use xgc2_multirotor_controll.Lifter.{
  lift_world_local, lift_tau, pass_through_reference_ready, stage_window_open, segment_period_ns,
  lift_for_backend, smc_world_pva_available,
}

module _ {F : Type 0} ⦃d : Double F⦄ where
  -- the sample is ready, and the time in the period that starts at its header time
  abbrev pub InWindow : MpcTrajectoryState F → Stamp → F → Type 0
  InWindow s now period =
      (pass_through_reference_ready s ≡ true)
      × (is_zero s.planning_time ≡ false)
      × (is_zero now ≡ false)
      × (stamp_ns s.planning_time ≤ stamp_ns now)
      × (pos (stamp_ns now - stamp_ns s.planning_time) ≤ℤ segment_period_ns period)

  -- The stage window is open at a canonical time exactly when the sample is ready, neither its header
  -- time nor the given one is zero, and the given time lies from the header time on, for the planning
  -- period in nanoseconds, both ends included. The converse is stated for a time less than 2^31 seconds
  -- after the header time, where the difference of the two does not throw.
  pub stage_window_exact :
      (s : MpcTrajectoryState F) (now : Stamp) (period : F)
      → IsCanonical s.planning_time
      → IsCanonical now
      → (stage_window_open s now period ≡ some true → InWindow s now period)
        × (stamp_ns now < stamp_ns s.planning_time + 2 ^ 31 * giga
            → InWindow s now period
            → stage_window_open s now period ≡ some true)
  unfolding stage_window_open
  stage_window_exact s now period cs cn = (
    (λ h. elim (Option-cases (stamp_sub now s.planning_time)) [
      | inl thrown ↦ ground (arith, thrown)
      | inr (elapsed, e) ↦ ground (
        arith,
        e,
        stamp_sub_exact now s.planning_time cn cs e,
        stamp_order now s.planning_time cn cs,
      )
    ]),
    (λ near (is_ready, header, clock, after, within).
        let (elapsed, e) = stamp_sub_total now s.planning_time cn cs near (omega arith) in
        rw e (
          ground (
            arith,
            is_ready,
            header,
            clock,
            after,
            within,
            stamp_sub_exact now s.planning_time cn cs e,
            stamp_order now s.planning_time cn cs,
          ))),
  )

  -- SMC and DFBC give a setpoint only inside the stage window and only for a sample that supplies every
  -- world position, velocity and acceleration component.
  pub staged_success :
      (s : MpcTrajectoryState F) (now : Stamp) (period : F) (mask : ℕ) (yaw : Bool)
      (mode : Px4LocalLiftMode) (sp : Setpoint F) (backend : TrackingBackend)
      → (backend ≡ smc) ⊎ (backend ≡ dfbc)
      → lift_for_backend s now period mask yaw backend mode ≡ some (some sp)
      → (stage_window_open s now period ≡ some true)
        × (smc_world_pva_available s.type_mask s.coordinate_frame ≡ true)
  unfolding lift_for_backend
  staged_success s now period mask yaw mode sp backend b h = ground arith

  -- Zero-order hold: at any two times at which PX4_LOCAL gives a setpoint for a sample, it is the same.
  pub zero_order_hold_constant :
      (s : MpcTrajectoryState F) (now later : Stamp) (period : F) (mask : ℕ) (yaw : Bool)
      (sp sq : Setpoint F)
      → lift_for_backend s now period mask yaw px4_local zero_order_hold ≡ some (some sp)
      → lift_for_backend s later period mask yaw px4_local zero_order_hold ≡ some (some sq)
      → sp ≡ sq
  unfolding lift_for_backend
  zero_order_hold_constant s now later period mask yaw sp sq h k = ground arith

  lift_world_local-total :
      (s : MpcTrajectoryState F) (now : Stamp) (period : F) (mask : ℕ) (yaw : Bool)
      → stage_window_open s now period ≡ some true
      → (sp : Setpoint F) × (lift_world_local s now mask yaw ≡ some sp)
  unfolding stage_window_open lift_world_local lift_tau
  lift_world_local-total s now period mask yaw h =
      elim (Option-cases (stamp_sub now s.planning_time)) [
        | inl thrown ↦ absurd (ground (arith, thrown))
        | inr (elapsed, e) ↦ elim (Bool-cases s.is_valid) [
          | inl valid ↦ elim (Bool-cases (not (is_zero s.planning_time) && not (is_zero now))) [
            | inl timed ↦ rw (valid, timed, e) (_, refl)
            | inr untimed ↦ rw (valid, untimed) (_, refl)
          ]
          | inr invalid ↦ rw invalid (_, refl)
        ]
      ]

  -- SMC and DFBC do give a setpoint inside the stage window for a sample that supplies every world
  -- position, velocity and acceleration component: nothing is thrown there.
  pub staged_total :
      (s : MpcTrajectoryState F) (now : Stamp) (period : F) (mask : ℕ) (yaw : Bool)
      (mode : Px4LocalLiftMode) (backend : TrackingBackend)
      → (backend ≡ smc) ⊎ (backend ≡ dfbc)
      → stage_window_open s now period ≡ some true
      → smc_world_pva_available s.type_mask s.coordinate_frame ≡ true
      → (sp : Setpoint F) × (lift_for_backend s now period mask yaw backend mode ≡ some (some sp))
  unfolding lift_for_backend
  staged_total s now period mask yaw mode backend (inl h) w pva =
      let (sp, e) = lift_world_local-total s now period 0 false w in (sp, rw (h, w, pva, e) refl)
  staged_total s now period mask yaw mode backend (inr h) w pva =
      let (sp, e) = lift_world_local-total s now period 0 yaw w in (sp, rw (h, w, pva, e) refl)
