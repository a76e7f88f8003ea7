-- ===== src/Lifter/Promotion.antt =====
-- control/trajectory_lifter.h: when a planner sample becomes active, and which sample is kept.
use mathlib.Core.Bool.{true≢false}
use xgc2_multirotor_controll.Prelude.{
  ◌≡◌, refl, Bool, true, false, not, ◌&&◌, Bool-cases, inl, inr, arith,
}
use xgc2_multirotor_controll.Double.{Double}
use xgc2_multirotor_controll.Time.{Stamp, stamp_lt, is_zero}
use xgc2_multirotor_controll.Types.{
  TrackingBackend, Px4LocalLiftMode, MpcTrajectoryState, default_trajectory, Config,
}
use xgc2_multirotor_controll.Lifter.{
  MpcTrajectoryBuffer, uses_stage_effective_time, promote_trajectory_sample,
  cache_trajectory_sample,
}

module _ {F : Type 0} ⦃d : Double F⦄ where
  -- A sample that is due: valid, with a header time that is not zero and not later than `now`.
  abbrev pub IsDue : MpcTrajectoryState F → Stamp → Type 0
  IsDue s now =
      (s.is_valid ≡ true)
      × (is_zero s.planning_time ≡ false)
      × (stamp_lt now s.planning_time ≡ false)

  abbrev is_due : MpcTrajectoryState F → Stamp → Bool
  is_due s now = s.is_valid && not (is_zero s.planning_time) && not (stamp_lt now s.planning_time)

  -- With effective times (SMC, DFBC, and zero-order hold) a sample is promoted exactly when the pending
  -- one is due; then it is the active sample, as it was received, and nothing is pending; else the
  -- buffer is unchanged.
  pub promote_exact :
      (b : MpcTrajectoryBuffer F) (now : Stamp) (backend : TrackingBackend)
      (mode : Px4LocalLiftMode)
      → uses_stage_effective_time backend mode ≡ true
      → let (after, switched) = promote_trajectory_sample b now backend mode in
        (IsDue b.pending now
          → (switched ≡ true)
            × (after.active ≡ record b.pending { new_data_received = false })
            × (after.pending ≡ default_trajectory))
        × (switched ≡ true → IsDue b.pending now)
        × (switched ≡ false → after ≡ b)
  unfolding promote_trajectory_sample
  promote_exact b now backend mode h = ground arith

  -- What the receipt of a sample leaves: the new sample is pending, whatever was. With effective times
  -- (SMC, DFBC, and zero-order hold) the sample that was pending is active if it was due at the receipt,
  -- and the active sample stays if it was not; without them, as in PX4_LOCAL's legacy mode, the active
  -- sample stays, and the one that was pending is lost.
  pub cache_exact :
      (b : MpcTrajectoryBuffer F) (sample : MpcTrajectoryState F) (receipt : Stamp) (c : Config F)
      → let after = cache_trajectory_sample b sample receipt c in
        let effective = uses_stage_effective_time c.tracking_backend c.px4_local_lift in
        (after.pending ≡ record sample { is_valid = true; new_data_received = false })
        × (effective ≡ true
            → IsDue b.pending receipt
            → after.active ≡ record b.pending { new_data_received = false })
        × (effective ≡ true → (IsDue b.pending receipt → true ≡ false) → after.active ≡ b.active)
        × (effective ≡ false → after.active ≡ b.active)
  unfolding cache_trajectory_sample promote_trajectory_sample
  cache_exact b sample receipt c = (
    refl,
    (λ h due. ground arith),
    (λ h early. elim (Bool-cases (is_due b.pending receipt)) [
      | inl due ↦ absurd (true≢false (early (ground arith)))
      | inr not_yet ↦ ground arith
    ]),
    (λ h. ground arith),
  )
