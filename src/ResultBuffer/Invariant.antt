-- ===== src/ResultBuffer/Invariant.antt =====
-- src/uav/nmpc_result_buffer.cpp: what holds of the buffer between two calls.
use xgc2_multirotor_controll.Prelude.{◌<◌, ◌≤◌, ◌≡◌, true}
use xgc2_multirotor_controll.Time.{giga}
use xgc2_multirotor_controll.ResultBuffer.{NmpcResultBuffer}

pub record Inv {F : Type 0} (b : NmpcResultBuffer F) : Type 0 where
  pub active_issued : b.active_generation ≤ b.generation_counter
  pub result_active : b.has_result ≡ true → b.latest.control_generation ≡ b.active_generation
  pub result_live : b.has_result ≡ true → 0 < b.active_generation
  pub result_requested : b.has_result ≡ true → b.latest.sequence ≤ b.request_counter
  pub result_numbered : b.has_result ≡ true → 0 < b.latest.sequence
  pub result_canonical : b.has_result ≡ true → b.latest.stamp.nsec < giga
