-- ===== src/Tracking/Answers.antt =====
-- src/uav/state_machine/custom1_state.cpp: which results of the solver reach the attitude-rate target.
use xgc2_multirotor_controll.Prelude.{
  ◌≡◌, ◌⊎◌, inl, inr, refl, ◌∙◌, true, not, Option, none, some, ltb, ◌==◌, ◌||◌, ◌&&◌, ◌<◌, ℕ,
  arith, Gives, Gives-some, chain-Gives, map-Gives, some-Gives, if-Gives, test-Gives, step-Gives,
}
use xgc2_multirotor_controll.Double.{Double}
use xgc2_multirotor_controll.Time.{Stamp, stamp_of_sec}
use xgc2_multirotor_controll.ResultBuffer.{
  NmpcSolveResult, NmpcResultBuffer, consume_newer_than, is_result_timestamp_fresh,
  is_generation_active,
}
use xgc2_multirotor_controll.ResultBuffer.Invariant.{Inv}
use xgc2_multirotor_controll.ResultBuffer.Steps.{BufferReach, consume_after_invalidate}
use xgc2_multirotor_controll.Cache.{FlagBits}
use xgc2_multirotor_controll.Controller.{Controller, emit_flight_effect}
use xgc2_multirotor_controll.Tracking.{Custom1State, Tracked, publish_attitude}
use xgc2_multirotor_controll.Tracking.Nmpc.{
  use_result, use_success, use_consumed, match_result, consume_nmpc_result, expire_request,
  renew_generation, handle_nmpc_event_mode,
}
use xgc2_multirotor_controll.Tracking.Session.{Strategies, custom1_on_exit}
use xgc2_multirotor_controll.Tracking.Steady.{
  Steady, expire-Steady, use_failure-Steady, follow-Steady,
}

module _ {F A B L : Type 0} ⦃d : Double F⦄ where
  -- The result is fresh, has succeeded, and carries the generation and the in_flight_sequence of `s`.
  abbrev pub Answers : F → NmpcSolveResult F → Custom1State F A B L → Controller F → Type 0
  Answers t r s c =
      (now : Stamp) × (stamp_of_sec t ≡ some now)
      × (is_result_timestamp_fresh r.stamp now c.config.result_timeout ≡ true)
      × (r.success ≡ true)
      × (r.control_generation ≡ s.control_generation)
      × (r.sequence ≡ s.in_flight_sequence)

  -- From `s` and `c` to `u`: the target is untouched, or that of a result in the buffer that answers.
  abbrev Answered : F → Custom1State F A B L → Controller F → Tracked F A B L → Type 0
  Answered t s c u =
      (u.1.attitude_rate_target ≡ c.attitude_rate_target)
      ⊎ ((r : NmpcSolveResult F) × (consume_newer_than s.consumed_result_sequence
              c.nmpc_result_buffer
            ≡ some r)
          × Answers t r s c
          × (u.1.attitude_rate_target ≡ r.target))

  abbrev Used :
      F → NmpcSolveResult F → Custom1State F A B L → Controller F → Tracked F A B L → Type 0
  Used t r s c u =
      (u.1.attitude_rate_target ≡ c.attitude_rate_target)
      ⊎ ((now : Stamp) × (stamp_of_sec t ≡ some now)
          × (is_result_timestamp_fresh r.stamp now c.config.result_timeout ≡ true)
          × (r.success ≡ true)
          × (u.1.attitude_rate_target ≡ r.target))

  use_success-target :
      (t : F) (r : NmpcSolveResult F) (s : Custom1State F A B L) (c : Controller F)
      → (use_success t r s c).1.attitude_rate_target ≡ r.target
  unfolding use_success publish_attitude emit_flight_effect
  use_success-target t r s c = refl

  renew_keeps_target :
      (s : Custom1State F A B L) (c : Controller F)
      → (renew_generation s c).1.attitude_rate_target ≡ c.attitude_rate_target
  unfolding renew_generation
  renew_keeps_target s c = ground arith

  module _ ⦃b : FlagBits⦄ where
    use_result-Used :
        (t : F) (r : NmpcSolveResult F) (s : Custom1State F A B L) (c : Controller F)
        → Gives (Used t r s c) (use_result t r s c)
    unfolding use_result
    use_result-Used t r s c =
        let matched = match_result r s in
        let P = Used t r s c in
        let is_fresh =
          λ (now : Stamp). is_result_timestamp_fresh r.stamp now c.config.result_timeout in
        let overtaken =
          not (r.sequence == s.in_flight_sequence) && ltb r.sequence s.request_sequence in
        if-Gives P _ _ _ (some-Gives P (matched, c) (inl refl)) (
          step-Gives P (stamp_of_sec t) _ (λ now e.
            test-Gives P (not (is_fresh now) || overtaken) _ _
              (λ stale. some-Gives P (matched, c) (inl refl))
              (λ fresh.
                test-Gives P (not r.success) _ _
                  (λ failed.
                    map-Gives (Steady c) P _ (λ u q. inl q.target_kept)
                      (use_failure-Steady t r matched c))
                  (λ succeeded.
                    some-Gives P _ (
                      inr
                        (now, e, ground arith, ground arith, use_success-target t r matched c))))))

    consumed-Answered :
        (t : F) (s : Custom1State F A B L) (c : Controller F) (o : Option (NmpcSolveResult F))
        → consume_newer_than s.consumed_result_sequence c.nmpc_result_buffer ≡ o
        → Gives (Answered t s c) (use_consumed t o s c)
    unfolding use_consumed
    consumed-Answered t s c none h = some-Gives (Answered t s c) (s, c) (inl refl)
    consumed-Answered t s c (some r) h =
        let P = Answered t s c in
        test-Gives P
          (not (r.control_generation == s.control_generation)
            || not (r.sequence == s.in_flight_sequence))
          _ _ (λ other. some-Gives P (s, c) (inl refl))
          (λ own.
            map-Gives (Used t r s c) P _
              (λ u used. elim used [
                | inl kept ↦ inl kept
                | inr (now, e, fresh, success, target) ↦
                    inr (r, h, (now, e, fresh, success, ground arith, ground arith), target)
              ])
              (use_result-Used t r s c))

    consume-Answered :
        (t : F) (s : Custom1State F A B L) (c : Controller F)
        → Gives (Answered t s c) (consume_nmpc_result t s c)
    unfolding consume_nmpc_result
    consume-Answered t s c = consumed-Answered t s c _ refl

    target_later :
        (t : F) (s : Custom1State F A B L) (c : Controller F) (u v : Tracked F A B L)
        → Answered t s c u
        → Steady u.1 v
        → Answered t s c v
    target_later t s c u v a q = elim a [
      | inl kept ↦ inl (q.target_kept ∙ kept)
      | inr (r, held, answers, target) ↦ inr (r, held, answers, q.target_kept ∙ target)
    ]

    -- A tick in NMPC mode leaves the attitude-rate target alone, or sets it to the target of a result
    -- that the buffer holds, that is newer than the last one used, has succeeded, has a fresh stamp,
    -- and carries the session's generation and its in_flight_sequence: the number of the last request
    -- that the session sent, also when that request has been given up at its deadline.
    pub target_of_request :
        (t : F) (s : Custom1State F A B L) (c : Controller F) (u : Tracked F A B L)
        → handle_nmpc_event_mode t s c ≡ some u
        → let (s', c') = renew_generation s c in
          (u.1.attitude_rate_target ≡ c.attitude_rate_target)
          ⊎ ((r : NmpcSolveResult F) × (consume_newer_than s'.consumed_result_sequence
                  c'.nmpc_result_buffer
                ≡ some r)
              × Answers t r s' c'
              × (u.1.attitude_rate_target ≡ r.target))
    unfolding handle_nmpc_event_mode
    target_of_request t s c u h =
        let fresh = renew_generation s c in
        let P = Answered t fresh.0 fresh.1 in
        let answered : P u =
          Gives-some P _ u
            (chain-Gives P P (consume_nmpc_result t fresh.0 fresh.1) _
              (consume-Answered t fresh.0 fresh.1)
              (λ x a.
                chain-Gives P P (expire_request t x.0 x.1) _
                  (map-Gives (Steady x.1) P _ (λ y. target_later t fresh.0 fresh.1 x y a)
                    (expire-Steady t x.0 x.1))
                  (λ y a'.
                    map-Gives (Steady y.1) P _ (λ z. target_later t fresh.0 fresh.1 y z a')
                      (follow-Steady t y.0 y.1))))
            h in
        elim answered [ inl kept ↦ inl (kept ∙ renew_keeps_target s c) | inr answer ↦ inr answer ]

  module _ (strategies : Strategies F A B L) where
    -- After Custom1 is left, with a well-formed result buffer in which its generation was active: as
    -- long as the buffer is used, in any way, each result that it gives is of a later generation.
    pub no_result_after_exit :
        (s : Custom1State F A B L) (c : Controller F) (sequence : ℕ) (e : NmpcResultBuffer F)
        (r : NmpcSolveResult F)
        → Inv c.nmpc_result_buffer
        → is_generation_active s.control_generation c.nmpc_result_buffer ≡ true
        → BufferReach (custom1_on_exit strategies s c).1.nmpc_result_buffer e
        → consume_newer_than sequence e ≡ some r
        → s.control_generation < r.control_generation
    unfolding custom1_on_exit
    no_result_after_exit s c sequence e r v active reach h =
        consume_after_invalidate s.control_generation sequence c.nmpc_result_buffer e r v active
          reach h
