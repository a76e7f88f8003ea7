-- ===== src/Cache.antt =====
-- px4_multirotor_controller/include/px4_multirotor_controller/uav/active_trajectory_cache.h and
-- src/uav/active_trajectory_cache.cpp: the reference trajectory in force, and what it is asked for. The
-- lock makes each member function one step. An evaluator of xgc2_math is a record of the two methods
-- that the cache calls. A result `none` of `sample`, `sample_horizon`, `finite_time_remaining` and
-- `next_time_remaining_at_most` is a std::runtime_error thrown by `Time`; inside, `none` is `false` or
-- `nullopt`. `type_` and the getters of the identifiers feed status messages only.
pub mod Horizon
use Prim.Native.Nat.{bit_and, bit_or}
use xgc2_multirotor_controll.Prelude.{
  ℕ, zero, suc, ◌+◌, ◌-◌, Bool, true, false, not, Option, none, some, List, [], ◌∷◌, ◌==◌, ◌||◌,
  ◌&&◌, if◌then◌else◌, ◌>>=◌,
}
use xgc2_multirotor_controll.Prelude.Int.{ℤ, pos}
use xgc2_multirotor_controll.Double.{Double, fmax}
use xgc2_multirotor_controll.Time.{Stamp, is_zero, stamp_sub, stamp_sec, stamp_of_sec, duration_sec}
use xgc2_multirotor_controll.Types.{Vector3}

-- xgc2_math::trajectory::FlatOutput3
pub record FlatOutput (F : Type 0) : Type 0 where
  pub position : Vector3 F
  pub velocity : Vector3 F
  pub acceleration : Vector3 F
  pub jerk : Vector3 F
  pub snap : Vector3 F
  pub yaw : F
  pub yaw_rate : F
  pub yaw_accel : F
  pub flags : ℕ

-- xgc2_math::trajectory::TrajectoryEvaluator3
pub record Evaluator (F : Type 0) : Type 0 where
  pub duration : F
  pub evaluate : F → Option (FlatOutput F)

-- kFlagInvalidInput, kFlagNonFinite, kFlagLowThrust and kFlagYawSingularity of xgc2_math::trajectory
pub record FlagBits : Type 0 where
  pub invalid_input : ℕ
  pub non_finite : ℕ
  pub low_thrust : ℕ
  pub yaw_singularity : ℕ

unfoldable pub fatal_reference_flags : ⦃b : FlagBits⦄ → ℕ → Bool
fatal_reference_flags ⦃b = b⦄ flags =
    let fatal =
      bit_or (bit_or (bit_or b.invalid_input b.non_finite) b.low_thrust) b.yaw_singularity in
    not (bit_and flags fatal == 0)

pub record UavReferencePoint (F : Type 0) : Type 0 where
  pub t_from_start : F
  pub flat : FlatOutput F

pub record ActiveTrajectoryCache (F : Type 0) : Type 0 where
  pub evaluator : Option (Evaluator F)
  pub trajectory_id : ℕ
  pub revision : ℕ
  pub sequence : ℕ
  pub start_time : Stamp
  pub flags : ℕ

-- ActiveTrajectoryCache::clear, and the initial cache
abbrev pub cleared : {F : Type 0} → ActiveTrajectoryCache F
cleared = record {
  evaluator = none;
  trajectory_id = 0;
  revision = 0;
  sequence = 0;
  start_time = record { sec = 0; nsec = 0 };
  flags = 0;
}

module _ {F : Type 0} ⦃d : Double F⦄ ⦃b : FlagBits⦄ where
  open d use {lit, add, sub, lt, le, is_finite, next_up}

  -- The guard that `valid`, `sample` and the others share: the evaluator of a valid cache.
  unfoldable pub live_evaluator : ActiveTrajectoryCache F → Option (Evaluator F)
  unfolding fatal_reference_flags
  live_evaluator c =
      if is_zero c.start_time || fatal_reference_flags c.flags then none else c.evaluator

  unfoldable pub valid : ActiveTrajectoryCache F → Bool
  unfolding live_evaluator
  valid c = elim (live_evaluator c) [ none ↦ false | some e ↦ true ]

  -- std::max(0.0, (now - start_time_).toSec())
  unfoldable pub elapsed_since : Stamp → Stamp → Option F
  elapsed_since start now = stamp_sub now start >>= λ r. some (fmax (lit 0 0) (duration_sec r))

  -- `sample` with a guard that has passed
  unfoldable pub sample_live : Evaluator F → Stamp → Stamp → Option (Option (UavReferencePoint F))
  unfolding elapsed_since
  sample_live e start now = elapsed_since start now >>= λ t.
      some (e.evaluate t >>= λ flat. some (record { t_from_start = t; flat = flat }))

  unfoldable pub sample : ActiveTrajectoryCache F → Stamp → Option (Option (UavReferencePoint F))
  unfolding live_evaluator
  sample c now = elim (live_evaluator c) [
    | none ↦ some none
    | some e ↦ sample_live e c.start_time now
  ]

  -- a duration that ends
  abbrev pub is_ending : F → Bool
  is_ending duration = is_finite duration && not (le duration (lit 0 0))

  unfoldable pub remaining_live : Evaluator F → Stamp → Stamp → Option (Option F)
  unfolding elapsed_since
  remaining_live e start now =
      if not (is_ending e.duration)
      then some none
      else (elapsed_since start now >>= λ elapsed.
          let remaining = sub e.duration elapsed in
          some (if is_finite remaining then some remaining else none))

  unfoldable pub finite_time_remaining : ActiveTrajectoryCache F → Stamp → Option (Option F)
  unfolding live_evaluator
  finite_time_remaining c now = elim (live_evaluator c) [
    | none ↦ some none
    | some e ↦ remaining_live e c.start_time now
  ]

  -- neither a NaN nor minus infinity
  abbrev pub is_usable_limit : F → Bool
  is_usable_limit limit = le limit limit && (is_finite limit || lt (lit 0 0) limit)

  unfoldable pub wake_live : Evaluator F → Stamp → Stamp → F → Option (Option F)
  unfolding elapsed_since
  wake_live e start now limit =
      let due = fmax (stamp_sec now) (add (stamp_sec start) (sub e.duration limit)) in
      if not (is_ending e.duration) || not (is_usable_limit limit)
      then some none
      else (if le e.duration limit then some (some (stamp_sec now)) else (do
        due_stamp ← stamp_of_sec due
        elapsed ← elapsed_since start due_stamp
        some (
            some (if lt limit (sub e.duration elapsed) then next_up (add due (lit 1 9)) else due))))

  unfoldable pub next_time_remaining_at_most :
      ActiveTrajectoryCache F → Stamp → F → Option (Option F)
  unfolding live_evaluator
  next_time_remaining_at_most c now limit = elim (live_evaluator c) [
    | none ↦ some none
    | some e ↦ wake_live e c.start_time now limit
  ]
