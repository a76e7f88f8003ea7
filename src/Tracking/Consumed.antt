-- ===== src/Tracking/Consumed.antt =====
-- src/uav/state_machine/custom1_state.cpp: the use of a result and the expiry of a request, as to what
-- they send to the solver and signal.
use xgc2_multirotor_controll.Prelude.{
  false, Option, none, some, arith, Gives, bind-Gives, some-Gives, if-Gives,
}
use xgc2_multirotor_controll.Double.{Double}
use xgc2_multirotor_controll.Time.{stamp_of_sec}
use xgc2_multirotor_controll.ResultBuffer.{NmpcSolveResult}
use xgc2_multirotor_controll.Cache.{FlagBits}
use xgc2_multirotor_controll.Controller.{Controller}
use xgc2_multirotor_controll.Tracking.{Custom1State, count_failure}
use xgc2_multirotor_controll.Tracking.Nmpc.{
  use_failure, use_success, use_result, consume_nmpc_result, use_consumed, match_result,
  stale_warned, expire_request, cover_stale_output,
}
use xgc2_multirotor_controll.Tracking.Emitted.{
  Quiet, Quiet-refl, Quiet-trans, Gives-after, publish_attitude-Quiet,
  post_reference_finished-Quiet, publish_backup_setpoint-Quiet,
}

module _ {F A B L : Type 0} ⦃d : Double F⦄ ⦃b : FlagBits⦄ where
  use_failure-Quiet :
      (t : F) (r : NmpcSolveResult F) (s : Custom1State F A B L) (c : Controller F)
      → Gives (Quiet s c) (use_failure t r s c)
  unfolding use_failure count_failure
  use_failure-Quiet t r s c =
      let failed = count_failure s in
      let same : Quiet s c (failed, c) = ground arith in
      let backup = Gives-after _ same (publish_backup_setpoint-Quiet t failed c) in
      if-Gives (Quiet s c) _ _ _
        (bind-Gives (Quiet s c) _ _ (λ finishing.
          if-Gives (Quiet s c) finishing _ _
            (some-Gives (Quiet s c) _ (post_reference_finished-Quiet t s c)) backup))
        (if-Gives (Quiet s c) _ _ _
          (some-Gives (Quiet s c) _ (Quiet-trans same (publish_attitude-Quiet t failed c))) backup)

  use_success-Quiet :
      (t : F) (r : NmpcSolveResult F) (s : Custom1State F A B L) (c : Controller F)
      → Quiet s c (use_success t r s c)
  unfolding use_success
  use_success-Quiet t r s c = ground (
    arith,
    publish_attitude-Quiet t (record s { consecutive_failures = 0; last_success_time = t })
        (record c { attitude_rate_target = r.target }),
  )

  use_result-Quiet :
      (t : F) (r : NmpcSolveResult F) (s : Custom1State F A B L) (c : Controller F)
      → Gives (Quiet s c) (use_result t r s c)
  unfolding use_result match_result
  use_result-Quiet t r s c =
      let matched = match_result r s in
      let same : Quiet s c (matched, c) = ground arith in
      Gives-after _ same (
        if-Gives (Quiet matched c) _ _ _ (some-Gives (Quiet matched c) _ (Quiet-refl matched c)) (
          bind-Gives (Quiet matched c) (stamp_of_sec t) _ (λ now.
            if-Gives (Quiet matched c) _ _ _ (some-Gives (Quiet matched c) _ (Quiet-refl matched c))
              (if-Gives (Quiet matched c) _ _ _ (use_failure-Quiet t r matched c)
                (some-Gives (Quiet matched c) _ (use_success-Quiet t r matched c))))))

  use_consumed-Quiet :
      (t : F) (o : Option (NmpcSolveResult F)) (s : Custom1State F A B L) (c : Controller F)
      → Gives (Quiet s c) (use_consumed t o s c)
  unfolding use_consumed
  use_consumed-Quiet t none s c = some-Gives (Quiet s c) _ (Quiet-refl s c)
  use_consumed-Quiet t (some r) s c =
      if-Gives (Quiet s c) _ _ _ (some-Gives (Quiet s c) _ (Quiet-refl s c))
        (use_result-Quiet t r s c)

  pub consume-Quiet :
      (t : F) (s : Custom1State F A B L) (c : Controller F)
      → Gives (Quiet s c) (consume_nmpc_result t s c)
  unfolding consume_nmpc_result
  consume-Quiet t s c = use_consumed-Quiet t _ s c

  pub expire-Quiet :
      (t : F) (s : Custom1State F A B L) (c : Controller F)
      → Gives (Quiet s c) (expire_request t s c)
  unfolding expire_request count_failure
  expire-Quiet t s c =
      let expired = record (count_failure s) { request_in_flight = false } in
      if-Gives (Quiet s c) _ _ _
        (Gives-after _ (ground arith) (publish_backup_setpoint-Quiet t expired c))
        (some-Gives (Quiet s c) _ (Quiet-refl s c))

  pub cover-Quiet :
      (t : F) (s : Custom1State F A B L) (c : Controller F)
      → Gives (Quiet s c) (cover_stale_output t s c)
  unfolding cover_stale_output stale_warned
  cover-Quiet t s c =
      let warned = stale_warned c in
      let same : Quiet s c (s, warned) = ground arith in
      if-Gives (Quiet s c) _ _ _
        (if-Gives (Quiet s c) _ _ _ (Gives-after _ same (publish_backup_setpoint-Quiet t s warned))
          (some-Gives (Quiet s c) _ same))
        (some-Gives (Quiet s c) _ (Quiet-refl s c))
