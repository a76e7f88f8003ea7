-- ===== src/Examples/Buffers.antt =====
-- The result buffer and the trajectory buffer on small values.
use xgc2_multirotor_controll.Prelude.{◌≡◌, ◌≤◌, ◌<◌, refl, true, false, arith}
use xgc2_multirotor_controll.Prelude.Int.{ℤ}
use xgc2_multirotor_controll.Time.{Stamp, stamp_lt, is_zero}
use xgc2_multirotor_controll.Types.{MpcTrajectoryState, default_trajectory, smc, legacy}
use xgc2_multirotor_controll.ResultBuffer.{
  NmpcResultBuffer, NmpcSolveResult, begin_generation, reserve_request_sequence, store,
  consume_newer_than,
}
use xgc2_multirotor_controll.ResultBuffer.Invariant.{Inv}
use xgc2_multirotor_controll.ResultBuffer.Steps.{
  BufferReach, here, next, begin, reserve, put, BufferReach-Inv, consume_after_begin,
  store_monotone,
}
use xgc2_multirotor_controll.Lifter.{
  MpcTrajectoryBuffer, promote_trajectory_sample, cache_trajectory_sample,
  uses_stage_effective_time, smc_mask_supplies_world_pva,
}
use xgc2_multirotor_controll.Lifter.Promotion.{IsDue, promote_exact, cache_exact}
use xgc2_multirotor_controll.Lifter.Masks.{smc_mask_exact, supplies_each_axis}
use xgc2_multirotor_controll.Examples.FixedPoint.{milli}
use xgc2_multirotor_controll.Examples.Values.{empty_buffer, no_result, config}

empty_buffer-Inv : Inv empty_buffer
empty_buffer-Inv = record {
  active_issued = omega arith;
  result_active = λ h. cc;
  result_live = λ h. cc;
  result_requested = λ h. cc;
  result_numbered = λ h. cc;
  result_canonical = λ h. cc;
}

abbrev first_result : NmpcSolveResult ℤ
first_result = record no_result { control_generation = 1; sequence = 1; success = true }

-- a new generation, a request, and its result
abbrev requested : NmpcResultBuffer ℤ
requested = reserve_request_sequence (begin_generation empty_buffer)

abbrev answered : NmpcResultBuffer ℤ
answered = (store first_result requested).0

answered_reach : BufferReach (begin_generation empty_buffer) answered
answered_reach = next (next here reserve) (put first_result)

answered-Inv : Inv answered
unfolding begin_generation reserve_request_sequence store
answered-Inv = ground arith

BufferReach-Inv_example : Inv answered
BufferReach-Inv_example =
    BufferReach-Inv empty_buffer-Inv (next (next (next here begin) reserve) (put first_result))

consume_after_begin_example : (0 < 1) × (0 < 1) × (1 ≤ answered.request_counter)
unfolding begin_generation reserve_request_sequence store consume_newer_than
consume_after_begin_example =
    consume_after_begin 0 empty_buffer answered first_result empty_buffer-Inv answered_reach refl

store_monotone_example :
    ((reserve_request_sequence answered).has_result ≡ true)
    × (answered.latest.sequence ≤ (reserve_request_sequence answered).latest.sequence)
unfolding begin_generation reserve_request_sequence store
store_monotone_example =
    store_monotone answered (reserve_request_sequence answered) answered-Inv refl
      (next here reserve) refl

abbrev at_ten : Stamp
at_ten = record { sec = 10; nsec = 0 }

abbrev sample : MpcTrajectoryState ℤ
sample = record default_trajectory { planning_time = at_ten; is_valid = true }

abbrev waiting : MpcTrajectoryBuffer ℤ
waiting = record { active = default_trajectory; pending = sample }

sample-IsDue : IsDue sample at_ten
unfolding is_zero stamp_lt
sample-IsDue = (refl, refl, refl)

promote_exact_example :
    let (after, switched) = promote_trajectory_sample waiting at_ten smc legacy in
    (IsDue waiting.pending at_ten
      → (switched ≡ true)
        × (after.active ≡ record waiting.pending { new_data_received = false })
        × (after.pending ≡ default_trajectory))
    × (switched ≡ true → IsDue waiting.pending at_ten)
    × (switched ≡ false → after ≡ waiting)
unfolding uses_stage_effective_time
promote_exact_example = promote_exact waiting at_ten smc legacy refl

cache_exact_example :
    let after = cache_trajectory_sample waiting default_trajectory at_ten config in
    (after.pending ≡ record default_trajectory { is_valid = true; new_data_received = false })
    × (true ≡ true
        → IsDue waiting.pending at_ten
        → after.active ≡ record waiting.pending { new_data_received = false })
    × (true ≡ true → (IsDue waiting.pending at_ten → true ≡ false) → after.active ≡ waiting.active)
    × (true ≡ false → after.active ≡ waiting.active)
unfolding uses_stage_effective_time
cache_exact_example = cache_exact waiting default_trajectory at_ten config

smc_mask_exact_example : smc_mask_supplies_world_pva 3072 ≡ supplies_each_axis 3072
smc_mask_exact_example = smc_mask_exact 3072 (omega arith)
