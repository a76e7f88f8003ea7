-- ===== src/ResultBuffer.antt =====
-- px4_multirotor_controller/src/uav/nmpc_result_buffer.cpp and its header: the hand-over of solver
-- results by generation and sequence number. The lock makes each member function one step. The 64-bit
-- counters are numbers: they are only incremented, and do not reach 2^64 in a flight.
pub mod Invariant
pub mod Steps
use xgc2_multirotor_controll.Prelude.{
  ℕ, suc, ◌-◌, Bool, true, false, not, Option, none, some, ltb, leb, ◌==◌, ◌&&◌, ◌||◌,
  if◌then◌else◌,
}
use xgc2_multirotor_controll.Prelude.Int.{ℤ, pos}
use xgc2_multirotor_controll.Double.{Double}
use xgc2_multirotor_controll.Time.{Stamp, giga, stamp_ns, stamp_lt}
use xgc2_multirotor_controll.Types.{AttitudeRateTarget}

pub record NmpcSolveResult (F : Type 0) : Type 0 where
  pub control_generation : ℕ
  pub sequence : ℕ
  pub success : Bool
  pub timed_out : Bool
  pub solver_status : ℤ
  pub solve_time_ms : F
  pub stamp : Stamp
  pub target : AttitudeRateTarget F

pub record NmpcResultBuffer (F : Type 0) : Type 0 where
  pub latest : NmpcSolveResult F
  pub has_result : Bool
  pub generation_counter : ℕ
  pub active_generation : ℕ
  pub request_counter : ℕ

module _ {F : Type 0} where
  -- beginGeneration also returns the new generation, which is then the active one
  unfoldable pub begin_generation : NmpcResultBuffer F → NmpcResultBuffer F
  begin_generation b = record b {
    generation_counter = suc b.generation_counter;
    active_generation = suc b.generation_counter;
    has_result = false;
  }

  unfoldable pub invalidate_generation : ℕ → NmpcResultBuffer F → NmpcResultBuffer F
  invalidate_generation generation b =
      if generation == 0 || generation == b.active_generation
      then record b { active_generation = 0; has_result = false }
      else b

  unfoldable pub is_generation_active : ℕ → NmpcResultBuffer F → Bool
  is_generation_active generation b = not (generation == 0) && generation == b.active_generation

  -- reserveRequestSequence also returns the new request counter
  unfoldable pub reserve_request_sequence : NmpcResultBuffer F → NmpcResultBuffer F
  reserve_request_sequence b = record b { request_counter = suc b.request_counter }

  unfoldable pub store : NmpcSolveResult F → NmpcResultBuffer F → NmpcResultBuffer F × Bool
  store result b =
      if b.active_generation == 0
        || not (result.control_generation == b.active_generation)
        || result.sequence == 0
        || ltb b.request_counter result.sequence
        || leb giga result.stamp.nsec
      then (b, false)
      else (if b.has_result && leb result.sequence b.latest.sequence
          then (b, false)
          else (record b { latest = result; has_result = true }, true))

  unfoldable pub consume_newer_than : ℕ → NmpcResultBuffer F → Option (NmpcSolveResult F)
  consume_newer_than sequence b =
      if not b.has_result
        || b.active_generation == 0
        || not (b.latest.control_generation == b.active_generation)
        || leb b.latest.sequence sequence
      then none
      else some b.latest

module _ {F : Type 0} ⦃d : Double F⦄ where
  open d use {lit, mul, le, of_int}

  unfoldable pub is_result_timestamp_fresh : Stamp → Stamp → F → Bool
  is_result_timestamp_fresh stamp now timeout =
      if leb giga stamp.nsec || leb giga now.nsec || stamp_lt now stamp
      then false
      else (let age = mul (of_int (pos (stamp_ns now - stamp_ns stamp))) (lit 1 9) in
          le timeout (lit 0 0) || le age timeout)

  unfoldable pub has_fresh_success : Stamp → F → NmpcResultBuffer F → Bool
  unfolding is_result_timestamp_fresh
  has_fresh_success now timeout b =
      b.has_result
      && not (b.active_generation == 0)
      && b.latest.control_generation == b.active_generation
      && b.latest.success
      && is_result_timestamp_fresh b.latest.stamp now timeout
