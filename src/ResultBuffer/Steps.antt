-- ===== src/ResultBuffer/Steps.antt =====
-- src/uav/nmpc_result_buffer.cpp: sequences of calls, by the controller and by the solver's thread in
-- any order.
use xgc2_multirotor_controll.Prelude.{ℕ, ◌<◌, ◌≤◌, ◌≡◌, ◌⊎◌, true, some, arith}
use xgc2_multirotor_controll.ResultBuffer.{
  NmpcResultBuffer, NmpcSolveResult, begin_generation, invalidate_generation,
  reserve_request_sequence, store, consume_newer_than, is_generation_active,
}
use xgc2_multirotor_controll.ResultBuffer.Invariant.{Inv}

pub data BufferStep {F : Type 0} (b : NmpcResultBuffer F) : NmpcResultBuffer F → Type 0 where
  begin : BufferStep b (begin_generation b)
  invalidate : (generation : ℕ) → BufferStep b (invalidate_generation generation b)
  reserve : BufferStep b (reserve_request_sequence b)
  put : (result : NmpcSolveResult F) → BufferStep b (store result b).0

pub data BufferReach {F : Type 0} (b : NmpcResultBuffer F) : NmpcResultBuffer F → Type 0 where
  here : BufferReach b b
  next : {c e : NmpcResultBuffer F} → BufferReach b c → BufferStep c e → BufferReach b e

module _ {F : Type 0} where
  pub BufferStep-Inv : {b c : NmpcResultBuffer F} → BufferStep b c → Inv b → Inv c
  unfolding begin_generation invalidate_generation reserve_request_sequence store
  BufferStep-Inv begin v = ground arith
  BufferStep-Inv (invalidate generation) v = ground arith
  BufferStep-Inv reserve v = ground arith
  BufferStep-Inv (put result) v = ground arith

  -- Every buffer reached from a well-formed one by calls of its member functions, in any order, is
  -- well formed: a held result belongs to the active generation, carries a sequence number that was
  -- handed out, and a canonical stamp.
  pub BufferReach-Inv : {b c : NmpcResultBuffer F} → Inv b → BufferReach b c → Inv c
  BufferReach-Inv v here = v
  BufferReach-Inv v (next r s) = BufferStep-Inv s (BufferReach-Inv v r)

  -- Seen from a buffer `b`: the active generation is none, that of `b`, or a later one.
  record Since (b c : NmpcResultBuffer F) : Type 0 where
    counter_grows : b.generation_counter ≤ c.generation_counter
    active_later :
        (c.active_generation ≡ 0)
        ⊎ (c.active_generation ≡ b.active_generation)
        ⊎ (b.generation_counter < c.active_generation)

  Since-step : {b c e : NmpcResultBuffer F} → BufferStep c e → Since b c → Since b e
  unfolding begin_generation invalidate_generation reserve_request_sequence store
  Since-step begin s = ground arith
  Since-step (invalidate generation) s = ground arith
  Since-step reserve s = ground arith
  Since-step (put result) s = ground arith

  Since-reach : {b c : NmpcResultBuffer F} → BufferReach b c → Since b c
  Since-reach here = ground arith
  Since-reach (next r s) = Since-step s (Since-reach r)

  consume-active :
      (sequence : ℕ) (b : NmpcResultBuffer F) {r : NmpcSolveResult F}
      → Inv b
      → consume_newer_than sequence b ≡ some r
      → (r.control_generation ≡ b.active_generation)
        × (0 < b.active_generation)
        × (sequence < r.sequence)
        × (r.sequence ≤ b.request_counter)
  unfolding consume_newer_than
  consume-active sequence b v h = ground arith

  begin-Inv : (b : NmpcResultBuffer F) → Inv b → Inv (begin_generation b)
  unfolding begin_generation
  begin-Inv b v = ground arith

  -- After a generation begins on a well-formed buffer, whatever calls follow, a consumed result belongs
  -- to that generation or to a later one, is newer than the sequence number asked for, and answers a
  -- request that was handed out: no result of an earlier generation is ever consumed.
  pub consume_after_begin :
      (sequence : ℕ) (b c : NmpcResultBuffer F) (r : NmpcSolveResult F)
      → Inv b
      → BufferReach (begin_generation b) c
      → consume_newer_than sequence c ≡ some r
      → (b.generation_counter < r.control_generation)
        × (sequence < r.sequence)
        × (r.sequence ≤ c.request_counter)
  unfolding begin_generation
  consume_after_begin sequence b c r v reach h =
      let inv : Inv c = BufferReach-Inv (begin-Inv b v) reach in
      ground (arith, Since-reach reach, consume-active sequence c inv h)

  invalidate-Inv :
      (generation : ℕ) (b : NmpcResultBuffer F) → Inv b → Inv (invalidate_generation generation b)
  unfolding invalidate_generation
  invalidate-Inv generation b v = ground arith

  -- After a well-formed buffer's active generation was invalidated, whatever calls follow, a consumed
  -- result belongs to a later generation.
  pub consume_after_invalidate :
      (generation sequence : ℕ) (b c : NmpcResultBuffer F) (r : NmpcSolveResult F)
      → Inv b
      → is_generation_active generation b ≡ true
      → BufferReach (invalidate_generation generation b) c
      → consume_newer_than sequence c ≡ some r
      → generation < r.control_generation
  unfolding invalidate_generation is_generation_active
  consume_after_invalidate generation sequence b c r v active reach h =
      let inv : Inv c = BufferReach-Inv (invalidate-Inv generation b v) reach in
      ground (arith, Since-reach reach, consume-active sequence c inv h)

  -- Seen from a buffer that holds a result: while its generation stays active, a result is held that
  -- is not older.
  record Keeps (b c : NmpcResultBuffer F) : Type 0 where
    counter_grows : b.generation_counter ≤ c.generation_counter
    issued : c.active_generation ≤ c.generation_counter
    still_held : c.active_generation ≡ b.active_generation → c.has_result ≡ true
    not_older : c.active_generation ≡ b.active_generation → b.latest.sequence ≤ c.latest.sequence

  Keeps-step :
      {b c e : NmpcResultBuffer F}
      → BufferStep c e
      → 0 < b.active_generation
      → b.active_generation ≤ b.generation_counter
      → Keeps b c
      → Keeps b e
  unfolding begin_generation invalidate_generation reserve_request_sequence store
  Keeps-step begin p i k = ground arith
  Keeps-step (invalidate generation) p i k = ground arith
  Keeps-step reserve p i k = ground arith
  Keeps-step (put result) p i k = ground arith

  Keeps-reach :
      {b c : NmpcResultBuffer F} → Inv b → b.has_result ≡ true → BufferReach b c → Keeps b c
  Keeps-reach v h here = ground arith
  Keeps-reach v h (next r s) = Keeps-step s (v.result_live h) v.active_issued (Keeps-reach v h r)

  -- Once a well-formed buffer holds a result, then whatever calls follow, as long as the same generation
  -- is active a result is held, and its sequence number has not gone down.
  pub store_monotone :
      (b c : NmpcResultBuffer F)
      → Inv b
      → b.has_result ≡ true
      → BufferReach b c
      → c.active_generation ≡ b.active_generation
      → (c.has_result ≡ true) × (b.latest.sequence ≤ c.latest.sequence)
  store_monotone b c v h reach same =
      let k : Keeps b c = Keeps-reach v h reach in (k.still_held same, k.not_older same)
