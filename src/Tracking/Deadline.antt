-- ===== src/Tracking/Deadline.antt =====
-- src/uav/state_machine/custom1_state.cpp: a request that the solver does not answer in time.
use xgc2_multirotor_controll.Prelude.{
  ◌≡◌, refl, ap, ◌∙◌, suc, ℕ, List, ◌++◌, ◌∷◌, [], Bool, Bool-cases, inl, inr, true, false, Option,
  none, some, ◌||◌, ◌&&◌, arith,
}
use xgc2_multirotor_controll.Double.{Double}
use xgc2_multirotor_controll.Time.{Stamp, stamp_of_sec}
use xgc2_multirotor_controll.ResultBuffer.{
  NmpcResultBuffer, consume_newer_than, is_generation_active, reserve_request_sequence,
}
use xgc2_multirotor_controll.Types.{Config, flight_nmpc_request}
use xgc2_multirotor_controll.Cache.{FlagBits, UavReferencePoint, valid, sample}
use xgc2_multirotor_controll.Controller.{Controller, emit_flight_effect}
use xgc2_multirotor_controll.Tracking.{
  Custom1State, Tracked, count_failure, should_publish, publish_local, publish_current_hover,
  publish_backup_at, publish_backup_setpoint,
}
use xgc2_multirotor_controll.Tracking.Emitted.{
  requests, request_of, emit-requests, publish_backup_at-Quiet,
}
use xgc2_multirotor_controll.Tracking.Nmpc.{
  finishes_before_next_horizon, consume_nmpc_result, use_consumed, expire_request,
  cover_stale_output, stale_warned, should_dispatch_nmpc, dispatch_if_due, dispatch_nmpc_request,
  renew_generation, solve_reference, follow_reference, handle_nmpc_event_mode,
}

module _ {F : Type 0} ⦃d : Double F⦄ ⦃b : FlagBits⦄ where
  finishes_same :
      (t : F) (c c' : Controller F)
      → c'.config ≡ c.config
      → c'.active_trajectory_cache ≡ c.active_trajectory_cache
      → finishes_before_next_horizon t c' ≡ finishes_before_next_horizon t c
  unfolding finishes_before_next_horizon
  finishes_same t c c' e f = rw (e, f) refl

module _ {F A B L : Type 0} ⦃d : Double F⦄ where
  open d use {lit, add, sub, lt, le}

  -- What the requests read stays as it is.
  record Waits (s : Custom1State F A B L) (c : Controller F) (t : Tracked F A B L) : Type 0 where
    flight_kept : t.0.request_in_flight ≡ s.request_in_flight
    time_kept : t.0.last_request_time ≡ s.last_request_time
    config_kept : t.1.config ≡ c.config
    cache_kept : t.1.active_trajectory_cache ≡ c.active_trajectory_cache
    buffer_kept : t.1.nmpc_result_buffer ≡ c.nmpc_result_buffer
    generation_kept : t.0.control_generation ≡ s.control_generation
    requests_kept : requests t.1.effects ≡ requests c.effects

  backup_at-Waits :
      (o : Option (UavReferencePoint F)) (t : F) (s : Custom1State F A B L) (c : Controller F)
      → Waits s c (publish_backup_at o t s c)
  unfolding publish_backup_at publish_current_hover publish_local emit_flight_effect
  backup_at-Waits none t s c = record {
    flight_kept = refl;
    time_kept = refl;
    config_kept = refl;
    cache_kept = refl;
    buffer_kept = refl;
    generation_kept = refl;
    requests_kept = (publish_backup_at-Quiet none t s c).requests_kept;
  }
  backup_at-Waits (some p) t s c = record {
    flight_kept = refl;
    time_kept = refl;
    config_kept = refl;
    cache_kept = refl;
    buffer_kept = refl;
    generation_kept = refl;
    requests_kept = (publish_backup_at-Quiet (some p) t s c).requests_kept;
  }

  abbrev pub is_due : F → Custom1State F A B L → Controller F → Bool
  is_due t s c =
      le s.last_request_time (lit 0 0) || le c.config.control_period (sub t s.last_request_time)

  -- What follows a wait is sent after what was sent before it.
  sent_after :
      {s : Custom1State F A B L} {c : Controller F} {t : Tracked F A B L} {sent : List (ℕ × ℕ)}
      → Waits s c t
      → sent
        ≡ requests t.1.effects
          ++ ((suc t.1.nmpc_result_buffer.request_counter, t.0.control_generation) ∷ [])
      → sent
        ≡ requests c.effects
          ++ ((suc c.nmpc_result_buffer.request_counter, s.control_generation) ∷ [])
  sent_after {s} {c} {t} kept sent =
      sent ∙ rw (kept.requests_kept, kept.generation_kept, kept.buffer_kept) refl

  -- From `s` and `c` to `u`: a request is sent at `t`, the next after those of `c`, and no other.
  abbrev pub Dispatched : F → Custom1State F A B L → Controller F → Tracked F A B L → Type 0
  Dispatched t s c u =
      (requests u.1.effects
        ≡ requests c.effects
          ++ ((suc c.nmpc_result_buffer.request_counter, s.control_generation) ∷ []))
      × (u.0.request_in_flight ≡ true)
      × (u.0.in_flight_sequence ≡ suc c.nmpc_result_buffer.request_counter)
      × (u.0.request_deadline ≡ add t c.config.solve_timeout)
      × (u.1.nmpc_result_buffer.request_counter ≡ suc c.nmpc_result_buffer.request_counter)

  dispatch-Dispatched :
      (t : F) (s : Custom1State F A B L) (c : Controller F)
      → s.request_in_flight ≡ false
      → is_due t s c ≡ true
      → Dispatched t s c (dispatch_if_due t s c)
  unfolding dispatch_if_due should_dispatch_nmpc dispatch_nmpc_request reserve_request_sequence
      emit_flight_effect request_of
  dispatch-Dispatched t s c free due =
      let buffer = reserve_request_sequence c.nmpc_result_buffer in
      rw (free, due)
        (
          emit-requests (flight_nmpc_request t buffer.request_counter s.control_generation)
              (record c { nmpc_result_buffer = buffer }),
          refl,
          refl,
          refl,
          refl,
        )

  module _ ⦃b : FlagBits⦄ where
    backup_given :
        (t : F) (now : Stamp) (o : Option (UavReferencePoint F)) (s : Custom1State F A B L)
        (c : Controller F)
        → stamp_of_sec t ≡ some now
        → sample c.active_trajectory_cache now ≡ some o
        → publish_backup_setpoint t s c ≡ some (publish_backup_at o t s c)
    unfolding publish_backup_setpoint
    backup_given t now o s c e f = rw (e, f) refl

    cover_given :
        (t : F) (now : Stamp) (o : Option (UavReferencePoint F)) (s : Custom1State F A B L)
        (c : Controller F)
        → stamp_of_sec t ≡ some now
        → sample c.active_trajectory_cache now ≡ some o
        → (u : Tracked F A B L) × (cover_stale_output t s c ≡ some u) × Waits s c u
    unfolding cover_stale_output stale_warned
    cover_given t now o s c e f =
        elim (Bool-cases (
          lt (lit 0 0) s.last_success_time
          && lt (lit 0 0) c.config.result_timeout
          && lt c.config.result_timeout (sub t s.last_success_time))) [
            | inl stale ↦ elim (Bool-cases (should_publish t s (stale_warned c))) [
              | inl due ↦ (
                publish_backup_at o t s (stale_warned c),
                rw (stale, due) (backup_given t now o s (stale_warned c) e f),
                ground (arith, backup_at-Waits o t s (stale_warned c)),
              )
              | inr early ↦ ((s, stale_warned c), rw (stale, early) refl, ground arith)
            ]
            | inr current ↦ ((s, c), rw current refl, ground arith)
          ]

    solve_given :
        (t : F) (now : Stamp) (o : Option (UavReferencePoint F)) (s : Custom1State F A B L)
        (c : Controller F)
        → stamp_of_sec t ≡ some now
        → sample c.active_trajectory_cache now ≡ some o
        → finishes_before_next_horizon t c ≡ some false
        → s.request_in_flight ≡ false
        → is_due t s c ≡ true
        → (u : Tracked F A B L) × (solve_reference t s c ≡ some u) × Dispatched t s c u
    unfolding solve_reference
    solve_given t now o s c e f unfinished free due =
        let (covered, given, kept) = cover_given t now o s c e f in
        let still_due : is_due t covered.0 covered.1 ≡ true =
          rw (kept.time_kept, ap (λ (k : Config F). k.control_period) kept.config_kept) due in
        let (sent, flying, number, deadline, count) =
          dispatch-Dispatched t covered.0 covered.1 (kept.flight_kept ∙ free) still_due in
        let counter = ap (λ (x : NmpcResultBuffer F). suc x.request_counter) kept.buffer_kept in
        (
          dispatch_if_due t covered.0 covered.1,
          rw (unfinished, given) refl,
          (
            sent_after kept sent,
            flying,
            number ∙ counter,
            deadline ∙ ap (λ (k : Config F). add t k.solve_timeout) kept.config_kept,
            count ∙ counter,
          ),
        )

    renew_owned :
        (s : Custom1State F A B L) (c : Controller F)
        → is_generation_active s.control_generation c.nmpc_result_buffer ≡ true
        → renew_generation s c ≡ (s, c)
    unfolding renew_generation
    renew_owned s c owns = rw owns refl

    consume_none :
        (t : F) (s : Custom1State F A B L) (c : Controller F)
        → consume_newer_than s.consumed_result_sequence c.nmpc_result_buffer ≡ none
        → consume_nmpc_result t s c ≡ some (s, c)
    unfolding consume_nmpc_result use_consumed
    consume_none t s c unanswered = rw unanswered refl

    -- the state in which a late request has been given up
    abbrev given_up : Custom1State F A B L → Custom1State F A B L
    given_up s = record (count_failure s) { request_in_flight = false }

    expire_late :
        (t : F) (s : Custom1State F A B L) (c : Controller F) (u : Tracked F A B L)
        → s.request_in_flight ≡ true
        → lt s.request_deadline t ≡ true
        → publish_backup_setpoint t (given_up s) c ≡ some u
        → expire_request t s c ≡ some u
    unfolding expire_request count_failure
    expire_late t s c u flying late backup = rw (flying, late) backup

    follow_valid :
        (t : F) (s : Custom1State F A B L) (c : Controller F)
        → valid c.active_trajectory_cache ≡ true
        → follow_reference t s c ≡ solve_reference t (record s { tracking_armed = true }) c
    unfolding follow_reference
    follow_valid t s c live = rw live refl

    handle_steps :
        (t : F) (s : Custom1State F A B L) (c : Controller F) (v : Tracked F A B L)
        → renew_generation s c ≡ (s, c)
        → consume_nmpc_result t s c ≡ some (s, c)
        → expire_request t s c ≡ some v
        → handle_nmpc_event_mode t s c ≡ follow_reference t v.0 v.1
    unfolding handle_nmpc_event_mode
    handle_steps t s c v e f g = rw e rw f rw g refl

    -- A request whose deadline has passed is replaced. In a tick in NMPC mode whose generation is
    -- active, in which the buffer holds no newer result, the clock and the reference can be read, the
    -- reference is valid and does not finish within the horizon, and a control period has passed since
    -- the last request: the tick completes, emits one request to the solver that carries the next
    -- sequence number and the session's generation, and has it in flight with its own deadline.
    pub expired_request_replaced :
        (t : F) (now : Stamp) (o : Option (UavReferencePoint F)) (s : Custom1State F A B L)
        (c : Controller F)
        → is_generation_active s.control_generation c.nmpc_result_buffer ≡ true
        → consume_newer_than s.consumed_result_sequence c.nmpc_result_buffer ≡ none
        → s.request_in_flight ≡ true
        → lt s.request_deadline t ≡ true
        → stamp_of_sec t ≡ some now
        → sample c.active_trajectory_cache now ≡ some o
        → valid c.active_trajectory_cache ≡ true
        → finishes_before_next_horizon t c ≡ some false
        → is_due t s c ≡ true
        → (u : Tracked F A B L) × (handle_nmpc_event_mode t s c ≡ some u) × Dispatched t s c u
    unfolding count_failure
    expired_request_replaced t now o s c owns unanswered flying late e f live unfinished due =
        let backup = publish_backup_at o t (given_up s) c in
        let kept = backup_at-Waits o t (given_up s) c in
        let armed = record backup.0 { tracking_armed = true } in
        let cache = kept.cache_kept in
        let still_due : is_due t armed backup.1 ≡ true =
          rw (kept.time_kept, ap (λ (k : Config F). k.control_period) kept.config_kept) due in
        let (u, solved, (sent, flying', number, deadline, count)) =
          solve_given t now o armed backup.1 e (ap (λ x. sample x now) cache ∙ f)
            (finishes_same t c backup.1 kept.config_kept cache ∙ unfinished) kept.flight_kept
            still_due in
        let counter = ap (λ (x : NmpcResultBuffer F). suc x.request_counter) kept.buffer_kept in
        let expired =
          expire_late t s c backup flying late (backup_given t now o (given_up s) c e f) in
        (
          u,
          handle_steps t s c backup (renew_owned s c owns) (consume_none t s c unanswered) expired
              ∙ follow_valid t backup.0 backup.1 (ap (λ x. valid x) cache ∙ live)
              ∙ solved,
          (
            sent_after kept sent,
            flying',
            number ∙ counter,
            deadline ∙ ap (λ (k : Config F). add t k.solve_timeout) kept.config_kept,
            count ∙ counter,
          ),
        )
