-- ===== src/Tracking/Emitted.antt =====
-- What the publishing operations of src/uav/state_machine/custom1_state.cpp leave alone: the result
-- buffer, the requests to the solver, and the signals but for reference_finished.
use mathlib.Core.List.{append-nil, append_assoc}
use xgc2_multirotor_controll.Prelude.{
  ℕ, Gives, map-Gives, bind-Gives, some-Gives, ◌+◌, ◌≡◌, ◌≤◌, refl, ap, sym, ◌∙◌, Option, none,
  some, List, [], ◌∷◌, ◌++◌, arith, Bool, true, false,
}
use xgc2_multirotor_controll.Double.{Double}
use xgc2_multirotor_controll.Time.{stamp_of_sec}
use xgc2_multirotor_controll.Types.{
  Setpoint, FlightEffect, flight_nmpc_request, FlightSignal, reference_finished, flight_setpoint,
  flight_attitude,
}
use xgc2_multirotor_controll.Controller.{Controller, emit_flight_effect, emit_flight_signal}
use xgc2_multirotor_controll.Cache.{sample, FlagBits, UavReferencePoint}
use xgc2_multirotor_controll.Tracking.{
  Custom1State, Tracked, publish_local, publish_attitude, publish_current_hover,
  publish_hover_if_due, hold_tracking_position, post_reference_finished, publish_backup_at,
  publish_backup_setpoint, measurement_hover_setpoint,
}

-- one for the signal reference_finished
unfoldable pub finish_of : FlightSignal → ℕ
finish_of reference_finished = 1
finish_of _ = 0

unfoldable pub finishes : List FlightSignal → ℕ
finishes [] = 0
finishes (x ∷ xs) = finish_of x + finishes xs

finishes-append : (xs ys : List FlightSignal) → finishes (xs ++ ys) ≡ finishes xs + finishes ys
unfolding finishes
finishes-append [] ys = omega arith
finishes-append (x ∷ xs) ys = omega (arith, finishes-append xs ys)

-- one for a flag that is set
abbrev pub bit : Bool → ℕ
bit true = 1
bit false = 0

module _ {F : Type 0} where
  -- the request to the solver of an effect, and those of effects: sequence number and generation
  unfoldable pub request_of : FlightEffect F → List (ℕ × ℕ)
  request_of (flight_nmpc_request t sequence generation) = (sequence, generation) ∷ []
  request_of _ = []

  unfoldable pub requests : List (FlightEffect F) → List (ℕ × ℕ)
  requests [] = []
  requests (e ∷ es) = request_of e ++ requests es

  requests-append :
      (xs ys : List (FlightEffect F)) → requests (xs ++ ys) ≡ requests xs ++ requests ys
  unfolding requests
  requests-append [] ys = refl
  requests-append (x ∷ xs) ys =
      ap (request_of x ++◌) (requests-append xs ys)
      ∙ sym (append_assoc (request_of x) (requests xs) (requests ys))

  pub emit-requests :
      (e : FlightEffect F) (c : Controller F)
      → requests (emit_flight_effect e c).effects ≡ requests c.effects ++ request_of e
  unfolding emit_flight_effect requests
  emit-requests e c =
      requests-append c.effects (e ∷ []) ∙ ap (requests c.effects ++◌) (append-nil (request_of e))

  emit-quiet :
      (e : FlightEffect F) (c : Controller F)
      → request_of e ≡ []
      → requests (emit_flight_effect e c).effects ≡ requests c.effects
  emit-quiet e c h =
      emit-requests e c ∙ ap (requests c.effects ++◌) h ∙ append-nil (requests c.effects)

module _ {F A B L : Type 0} where
  -- From `s` and `c` to `t`: the result buffer, the generation and the requests are untouched, and
  -- reference_finished is signalled as often as the flag that it was posted is raised.
  pub record Quiet (s : Custom1State F A B L) (c : Controller F) (t : Tracked F A B L)
      : Type 0 where
    pub buffer_kept : t.1.nmpc_result_buffer ≡ c.nmpc_result_buffer
    pub requests_kept : requests t.1.effects ≡ requests c.effects
    pub generation_kept : t.0.control_generation ≡ s.control_generation
    pub finish_posted :
        finishes t.1.signals + bit s.reference_finish_event_posted
        ≡ finishes c.signals + bit t.0.reference_finish_event_posted
    pub flag_kept : bit s.reference_finish_event_posted ≤ bit t.0.reference_finish_event_posted

  pub Quiet-trans :
      {s : Custom1State F A B L} {c : Controller F} {t u : Tracked F A B L}
      → Quiet s c t
      → Quiet t.0 t.1 u
      → Quiet s c u
  Quiet-trans q r = record {
    buffer_kept = r.buffer_kept ∙ q.buffer_kept;
    requests_kept = r.requests_kept ∙ q.requests_kept;
    generation_kept = r.generation_kept ∙ q.generation_kept;
    finish_posted = omega (arith, q.finish_posted, r.finish_posted);
    flag_kept = omega (arith, q.flag_kept, r.flag_kept);
  }

  pub Quiet-refl : (s : Custom1State F A B L) (c : Controller F) → Quiet s c (s, c)
  Quiet-refl s c = record {
    buffer_kept = refl;
    requests_kept = refl;
    generation_kept = refl;
    finish_posted = refl;
    flag_kept = omega arith;
  }

  -- A change of other fields comes before.
  pub Gives-after :
      {s s' : Custom1State F A B L} {c c' : Controller F} (o : Option (Tracked F A B L))
      → Quiet s c (s', c')
      → Gives (Quiet s' c') o
      → Gives (Quiet s c) o
  Gives-after {s} {s'} {c} {c'} o q = map-Gives (Quiet s' c') (Quiet s c) o (λ t r. Quiet-trans q r)

module _ {F A B L : Type 0} ⦃d : Double F⦄ where
  pub publish_local-Quiet :
      (p : Setpoint F) (t : F) (s : Custom1State F A B L) (c : Controller F)
      → Quiet s c (publish_local p t s c)
  unfolding publish_local emit_flight_effect request_of
  publish_local-Quiet p t s c = record {
    buffer_kept = refl;
    requests_kept = emit-quiet (flight_setpoint t) (record c { setpoint = p }) refl;
    generation_kept = refl;
    finish_posted = refl;
    flag_kept = omega arith;
  }

  pub publish_attitude-Quiet :
      (t : F) (s : Custom1State F A B L) (c : Controller F) → Quiet s c (publish_attitude t s c)
  unfolding publish_attitude emit_flight_effect request_of
  publish_attitude-Quiet t s c = record {
    buffer_kept = refl;
    requests_kept = emit-quiet (flight_attitude t) c refl;
    generation_kept = refl;
    finish_posted = refl;
    flag_kept = omega arith;
  }

  pub publish_current_hover-Quiet :
      (t : F) (s : Custom1State F A B L) (c : Controller F)
      → Quiet s c (publish_current_hover t s c)
  unfolding publish_current_hover
  publish_current_hover-Quiet t s c = publish_local-Quiet (measurement_hover_setpoint c) t s c

  pub publish_hover_if_due-Quiet :
      (t : F) (s : Custom1State F A B L) (c : Controller F) → Quiet s c (publish_hover_if_due t s c)
  unfolding publish_hover_if_due
  publish_hover_if_due-Quiet t s c = ground (arith, publish_current_hover-Quiet t s c)

  pub hold_tracking_position-Quiet :
      (t : F) (s : Custom1State F A B L) (c : Controller F)
      → Quiet s c (hold_tracking_position t s c)
  unfolding hold_tracking_position
  hold_tracking_position-Quiet t s c = ground (
    arith,
    publish_local-Quiet s.tracking_frozen_hover t s c,
    publish_local-Quiet (measurement_hover_setpoint c) t
        (record s {
          tracking_frozen_hover = measurement_hover_setpoint c;
          tracking_position_held = true;
        })
        c,
  )

  pub post_reference_finished-Quiet :
      (t : F) (s : Custom1State F A B L) (c : Controller F)
      → Quiet s c (post_reference_finished t s c)
  unfolding post_reference_finished emit_flight_signal finishes finish_of
  post_reference_finished-Quiet t s c =
      let posted = record s {
        reference_finish_event_posted = true;
        request_in_flight = false;
        tracking_armed = false;
      } in
      ground (
        arith,
        publish_hover_if_due-Quiet t s c,
        publish_current_hover-Quiet t posted c,
        finishes-append (publish_current_hover t posted c).1.signals (reference_finished ∷ []),
      )

  pub publish_backup_at-Quiet :
      (point : Option (UavReferencePoint F)) (t : F) (s : Custom1State F A B L) (c : Controller F)
      → Quiet s c (publish_backup_at point t s c)
  unfolding publish_backup_at
  publish_backup_at-Quiet none t s c = publish_current_hover-Quiet t s c
  publish_backup_at-Quiet (some point) t s c = publish_local-Quiet _ t s c

  pub publish_backup_setpoint-Quiet :
      ⦃b : FlagBits⦄
      → (t : F) (s : Custom1State F A B L) (c : Controller F)
      → Gives (Quiet s c) (publish_backup_setpoint t s c)
  unfolding publish_backup_setpoint
  publish_backup_setpoint-Quiet t s c = bind-Gives (Quiet s c) (stamp_of_sec t) _ (λ now.
      bind-Gives (Quiet s c) (sample c.active_trajectory_cache now) _
        (λ point. some-Gives (Quiet s c) _ (publish_backup_at-Quiet point t s c)))
