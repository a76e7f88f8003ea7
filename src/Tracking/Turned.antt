-- ===== src/Tracking/Turned.antt =====
-- src/uav/state_machine/custom1_state.cpp: what a tick of Custom1 sends to the solver and signals.
use xgc2_multirotor_controll.Prelude.{
  ℕ, suc, Bool-cases, ◌+◌, ◌≡◌, ◌≤◌, ◌⊎◌, inl, inr, refl, ap, ◌∙◌, true, false, [], ◌∷◌, ◌++◌,
  arith, Gives, chain-Gives, map-Gives, bind-Gives, some-Gives, if-Gives,
}
use xgc2_multirotor_controll.Double.{Double}
use xgc2_multirotor_controll.ResultBuffer.{
  NmpcResultBuffer, is_generation_active, begin_generation, reserve_request_sequence,
}
use xgc2_multirotor_controll.Types.{flight_nmpc_request}
use xgc2_multirotor_controll.Cache.{FlagBits}
use xgc2_multirotor_controll.Controller.{Controller, emit_flight_effect}
use xgc2_multirotor_controll.Tracking.{Custom1State, Tracked, wait_for_nmpc}
use xgc2_multirotor_controll.Tracking.Nmpc.{
  finishes_before_next_horizon, consume_nmpc_result, expire_request, cover_stale_output,
  dispatch_if_due, dispatch_nmpc_request, follow_reference, renew_generation, solve_reference,
  should_dispatch_nmpc, handle_nmpc_event_mode,
}
use xgc2_multirotor_controll.Tracking.Emitted.{
  Quiet, Quiet-refl, Quiet-trans, finishes, bit, requests, request_of, emit-requests,
  publish_hover_if_due-Quiet, post_reference_finished-Quiet,
}
use xgc2_multirotor_controll.Tracking.Consumed.{consume-Quiet, expire-Quiet, cover-Quiet}

-- From `c` to `t`: no request, or one with the next sequence number for the active generation, which is
-- then in flight; reference_finished as often as the flag that it was posted is raised.
pub record Turned {F A B L : Type 0} (s : Custom1State F A B L) (c : Controller F)
    (t : Tracked F A B L) : Type 0 where
  pub sends :
      ((requests t.1.effects ≡ requests c.effects)
        × (t.1.nmpc_result_buffer.request_counter ≡ c.nmpc_result_buffer.request_counter))
      ⊎ ((requests t.1.effects
            ≡ requests c.effects
              ++ ((t.1.nmpc_result_buffer.request_counter, t.0.control_generation) ∷ []))
          × (t.1.nmpc_result_buffer.request_counter ≡ suc c.nmpc_result_buffer.request_counter)
          × (is_generation_active t.0.control_generation t.1.nmpc_result_buffer ≡ true)
          × (t.0.request_in_flight ≡ true)
          × (t.0.in_flight_sequence ≡ t.1.nmpc_result_buffer.request_counter))
  pub finish_posted :
      finishes t.1.signals + bit s.reference_finish_event_posted
      ≡ finishes c.signals + bit t.0.reference_finish_event_posted
  pub flag_kept : bit s.reference_finish_event_posted ≤ bit t.0.reference_finish_event_posted

module _ {F A B L : Type 0} ⦃d : Double F⦄ where
  pub Turned-Quiet :
      {s : Custom1State F A B L} {c : Controller F} {t : Tracked F A B L}
      → Quiet s c t
      → Turned s c t
  Turned-Quiet q = record {
    sends = inl (q.requests_kept, ap (λ (x : NmpcResultBuffer F). x.request_counter) q.buffer_kept);
    finish_posted = q.finish_posted;
    flag_kept = q.flag_kept;
  }

  -- The generation of the session is active.
  abbrev pub Owns : Custom1State F A B L → Controller F → Type 0
  Owns s c = is_generation_active s.control_generation c.nmpc_result_buffer ≡ true

  Owns-Quiet :
      (s : Custom1State F A B L) (c : Controller F) (t : Tracked F A B L)
      → Owns s c
      → Quiet s c t
      → Owns t.0 t.1
  Owns-Quiet s c t o q = rw (q.generation_kept, q.buffer_kept) o

  Turned-after :
      {s s' : Custom1State F A B L} {c c' : Controller F} {t : Tracked F A B L}
      → Quiet s c (s', c')
      → Turned s' c' t
      → Turned s c t
  Turned-after {c} {c'} {t} q r =
      let counter = ap (λ (x : NmpcResultBuffer F). x.request_counter) q.buffer_kept in
      record {
        sends = elim (r.sends) [
          | inl (same, count) ↦ inl (same ∙ q.requests_kept, count ∙ counter)
          | inr (one, count, live, flying, number) ↦ inr (
            one
                ∙ ap
                    (λ es.
                      es ++ ((t.1.nmpc_result_buffer.request_counter, t.0.control_generation) ∷ []))
                    q.requests_kept,
            count ∙ ap (λ (n : ℕ). suc n) counter,
            live,
            flying,
            number,
          )
        ];
        finish_posted = omega (arith, q.finish_posted, r.finish_posted);
        flag_kept = omega (arith, q.flag_kept, r.flag_kept);
      }

  dispatch-Turned :
      (t : F) (s : Custom1State F A B L) (c : Controller F)
      → Owns s c
      → Turned s c (dispatch_nmpc_request t s c)
  unfolding dispatch_nmpc_request reserve_request_sequence emit_flight_effect request_of
      is_generation_active
  dispatch-Turned t s c o =
      let reserved = record c {
        nmpc_result_buffer = reserve_request_sequence c.nmpc_result_buffer;
      } in
      let sequence = suc c.nmpc_result_buffer.request_counter in
      record {
        sends = inr (
          emit-requests (flight_nmpc_request t sequence s.control_generation) reserved,
          refl,
          o,
          refl,
          refl,
        );
        finish_posted = refl;
        flag_kept = omega arith;
      }

  dispatch_if_due-Turned :
      (t : F) (s : Custom1State F A B L) (c : Controller F)
      → Owns s c
      → Turned s c (dispatch_if_due t s c)
  unfolding dispatch_if_due
  dispatch_if_due-Turned t s c o = elim (Bool-cases (should_dispatch_nmpc t s c)) [
    | inl due ↦ rw due (dispatch-Turned t s c o)
    | inr waiting ↦ rw waiting (Turned-Quiet (Quiet-refl s c))
  ]

  -- a generation begun anew makes no request
  pub renew-Owns :
      (s : Custom1State F A B L) (c : Controller F)
      → let t = renew_generation s c in
        Owns t.0 t.1
        × (t.1.effects ≡ c.effects)
        × (t.1.signals ≡ c.signals)
        × (t.1.nmpc_result_buffer.request_counter ≡ c.nmpc_result_buffer.request_counter)
        × (t.0.reference_finish_event_posted ≡ s.reference_finish_event_posted)
  unfolding renew_generation begin_generation is_generation_active
  renew-Owns s c = ground arith

  Turned-renewed :
      (s : Custom1State F A B L) (c : Controller F) (u : Tracked F A B L)
      → let t = renew_generation s c in Turned t.0 t.1 u → Turned s c u
  Turned-renewed s c u r =
      let (owns, effects, signals, counter, posted) = renew-Owns s c in
      record {
        sends = elim (r.sends) [
          | inl (same, count) ↦ inl (same ∙ ap (λ es. requests es) effects, count ∙ counter)
          | inr (one, count, live, flying, number) ↦ inr (
            one
                ∙ ap
                    (λ es.
                      requests es
                      ++ ((u.1.nmpc_result_buffer.request_counter, u.0.control_generation) ∷ []))
                    effects,
            count ∙ ap (λ (n : ℕ). suc n) counter,
            live,
            flying,
            number,
          )
        ];
        finish_posted = omega (arith, r.finish_posted, ap finishes signals, ap bit posted);
        flag_kept = omega (arith, r.flag_kept, ap bit posted);
      }

  module _ ⦃b : FlagBits⦄ where
    solve-Turned :
        (t : F) (s : Custom1State F A B L) (c : Controller F)
        → Owns s c
        → Gives (Turned s c) (solve_reference t s c)
    unfolding solve_reference
    solve-Turned t s c o =
        bind-Gives (Turned s c) (finishes_before_next_horizon t c) _ (λ finishing.
          if-Gives (Turned s c) finishing _ _
            (some-Gives (Turned s c) _ (Turned-Quiet (post_reference_finished-Quiet t s c)))
            (chain-Gives (Quiet s c) (Turned s c) (cover_stale_output t s c) _ (cover-Quiet t s c)
              (λ covered q. some-Gives (Turned s c) _ (
                Turned-after q
                  (dispatch_if_due-Turned t covered.0 covered.1 (Owns-Quiet s c covered o q))))))

    follow-Turned :
        (t : F) (s : Custom1State F A B L) (c : Controller F)
        → Owns s c
        → Gives (Turned s c) (follow_reference t s c)
    unfolding follow_reference wait_for_nmpc
    follow-Turned t s c o =
        let armed = record s { tracking_armed = true } in
        let waiting = wait_for_nmpc c (record s { tracking_armed = false }) in
        let same : Quiet s c (waiting, c) = ground arith in
        if-Gives (Turned s c) _ _ _
          (some-Gives (Turned s c) _
            (Turned-Quiet (Quiet-trans same (publish_hover_if_due-Quiet t waiting c))))
          (map-Gives (Turned armed c) (Turned s c) _ (λ u. Turned-after (ground arith))
            (solve-Turned t armed c o))

    pub nmpc-Turned :
        (t : F) (s : Custom1State F A B L) (c : Controller F)
        → Gives (Turned s c) (handle_nmpc_event_mode t s c)
    unfolding handle_nmpc_event_mode
    nmpc-Turned t s c =
        let fresh = renew_generation s c in
        let P = Turned fresh.0 fresh.1 in
        map-Gives P (Turned s c) _ (λ u r. Turned-renewed s c u r)
          (chain-Gives (Quiet fresh.0 fresh.1) P (consume_nmpc_result t fresh.0 fresh.1) _
            (consume-Quiet t fresh.0 fresh.1)
            (λ x q.
              chain-Gives (Quiet x.0 x.1) P (expire_request t x.0 x.1) _ (expire-Quiet t x.0 x.1)
                (λ y r.
                  let q' = Quiet-trans q r in
                  map-Gives (Turned y.0 y.1) P _ (λ u. Turned-after q')
                    (follow-Turned t y.0 y.1
                      (Owns-Quiet fresh.0 fresh.1 y (renew-Owns s c).0 q')))))
