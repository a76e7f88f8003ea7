-- ===== src/Cache/Horizon.antt =====
-- ActiveTrajectoryCache::sampleHorizon of src/uav/active_trajectory_cache.cpp. The flatness map of
-- xgc2_math is a parameter.
use xgc2_multirotor_controll.Prelude.{
  ℕ, zero, suc, ◌+◌, Option, none, some, List, [], ◌∷◌, ◌==◌, ◌||◌, ◌&&◌, if◌then◌else◌, ◌>>=◌,
}
use xgc2_multirotor_controll.Prelude.Int.{pos}
use xgc2_multirotor_controll.Double.{Double}
use xgc2_multirotor_controll.Time.{Stamp}
use xgc2_multirotor_controll.Types.{Vector3}
use xgc2_multirotor_controll.Cache.{
  FlatOutput, Evaluator, FlagBits, fatal_reference_flags, ActiveTrajectoryCache, live_evaluator,
  elapsed_since,
}

-- xgc2_math::trajectory::FullStateReference3, and the control::Se3Reference made of it
pub record FullState (F : Type 0) : Type 0 where
  pub position : Vector3 F
  pub velocity : Vector3 F
  pub attitude : F × F × F × F
  pub body_rate : Vector3 F
  pub specific_thrust : F
  pub angular_acceleration : Vector3 F
  pub flags : ℕ

-- FlatnessMapper3(gravity, 0.1).map, with the two numbers as arguments
pub record Flatness (F : Type 0) : Type 0 where
  pub map_flat : F → F → FlatOutput F → FullState F

module _ {F : Type 0} ⦃d : Double F⦄ ⦃b : FlagBits⦄ ⦃k : Flatness F⦄ where
  open d use {lit, add, mul, lt, le, of_int}

  -- One entry of the horizon per step, from the step `i`.
  unfoldable pub horizon_states : Evaluator F → F → F → F → ℕ → ℕ → Option (List (FullState F))
  unfolding fatal_reference_flags
  horizon_states e gravity t0 stage_dt i zero = some []
  horizon_states e gravity t0 stage_dt i (suc count) = do
    flat ← e.evaluate (add t0 (mul (of_int (pos i)) stage_dt))
    let full = k.map_flat gravity (lit 1 1) flat
    rest ← horizon_states e gravity t0 stage_dt (suc i) count
    if fatal_reference_flags full.flags then none else some (full ∷ rest)

  unfoldable pub horizon_live :
      Evaluator F → Stamp → Stamp → F → ℕ → F → Option (Option (List (FullState F)))
  unfolding elapsed_since horizon_states
  horizon_live e start now stage_dt horizon_steps gravity = elapsed_since start now >>= λ t0.
      let t_last = add t0 (mul (of_int (pos (horizon_steps + 1))) stage_dt) in
      some (
        if lt (lit 0 0) e.duration && lt (add e.duration (lit 1 6)) t_last
        then none
        else horizon_states e gravity t0 stage_dt 0 (horizon_steps + 2))

  unfoldable pub sample_horizon :
      ActiveTrajectoryCache F → Stamp → F → ℕ → F → Option (Option (List (FullState F)))
  unfolding live_evaluator
  sample_horizon c now stage_dt horizon_steps gravity =
      if horizon_steps == 0 || le stage_dt (lit 0 0) then some none else (elim (live_evaluator c) [
        | none ↦ some none
        | some e ↦ horizon_live e c.start_time now stage_dt horizon_steps gravity
      ])
