-- ===== src/Tracking/Run.antt =====
-- src/uav/state_machine/custom1_state.cpp: runs of Custom1. Between two calls the driver may set every
-- part of the controller but the result buffer, into which the solver stores at any time.
use mathlib.Core.List.{append-nil, map-append}
use xgc2_multirotor_controll.Prelude.{
  ℕ, suc, ◌+◌, ◌≡◌, ◌≤◌, ◌<◌, inl, inr, refl, sym, ap, false, some, List, [], ◌∷◌, ◌++◌, map, arith,
  Gives, Gives-some, map-Gives, bind-Gives, some-Gives,
}
use xgc2_multirotor_controll.Double.{Double}
use xgc2_multirotor_controll.ResultBuffer.{
  NmpcSolveResult, NmpcResultBuffer, store, begin_generation, invalidate_generation,
}
use xgc2_multirotor_controll.Types.{TrackingBackend, nmpc, dfbc, smc, pva_smc, px4_local}
use xgc2_multirotor_controll.Cache.{FlagBits}
use xgc2_multirotor_controll.Controller.{Controller, emit_flight_effect, clear_custom1_request}
use xgc2_multirotor_controll.Tracking.{Custom1State, Tracked}
use xgc2_multirotor_controll.Tracking.Local.{Sign}
use xgc2_multirotor_controll.Tracking.Session.{
  Strategies, tick_backend, custom1_on_tick, start_session, start_backend, custom1_on_enter,
  request_reference, custom1_on_exit,
}
use xgc2_multirotor_controll.Tracking.Emitted.{Quiet, finishes, bit, requests}
use xgc2_multirotor_controll.Tracking.Modes.{local-Quiet, pva-Quiet, smc-Quiet}
use xgc2_multirotor_controll.Tracking.Synchronous.{synchronous-Quiet}
use xgc2_multirotor_controll.Tracking.Turned.{Turned, Turned-Quiet, nmpc-Turned}

-- the sequence numbers of requests
abbrev pub numbers : List (ℕ × ℕ) → List ℕ
numbers sent = map (λ (p : ℕ × ℕ). p.0) sent

-- From `lo` to `hi` along a list that strictly increases.
abbrev pub Increasing : ℕ → List ℕ → ℕ → Type 0
Increasing lo [] hi = lo ≤ hi
Increasing lo (n ∷ ns) hi = (lo < n) × Increasing n ns hi

Increasing-up :
    (lo : ℕ) (ns : List ℕ) (hi hi' : ℕ) → Increasing lo ns hi → hi ≤ hi' → Increasing lo ns hi'
Increasing-up lo [] hi hi' h k = omega arith
Increasing-up lo (n ∷ ns) hi hi' (h, hs) k = (h, Increasing-up n ns hi hi' hs k)

Increasing-next :
    (lo : ℕ) (ns : List ℕ) (hi : ℕ)
    → Increasing lo ns hi
    → Increasing lo (ns ++ (suc hi ∷ [])) (suc hi)
Increasing-next lo [] hi h = (omega arith, omega arith)
Increasing-next lo (n ∷ ns) hi (h, hs) = (h, Increasing-next n ns hi hs)

module _ {F A B L : Type 0} ⦃d : Double F⦄ ⦃b : FlagBits⦄ ⦃g : Sign F⦄
    (strategies : Strategies F A B L) where
  tick_backend-Turned :
      (k : TrackingBackend) (t : F) (s : Custom1State F A B L) (c : Controller F)
      → Gives (Turned s c) (tick_backend strategies k t s c)
  unfolding tick_backend
  tick_backend-Turned nmpc t s c = nmpc-Turned t s c
  tick_backend-Turned dfbc t s c =
      map-Gives (Quiet s c) (Turned s c) _ (λ u. Turned-Quiet)
        (synchronous-Quiet strategies.dfbc_strategy t s c)
  tick_backend-Turned smc t s c =
      map-Gives (Quiet s c) (Turned s c) _ (λ u. Turned-Quiet)
        (smc-Quiet strategies.smc_strategy t s c)
  tick_backend-Turned pva_smc t s c =
      map-Gives (Quiet s c) (Turned s c) _ (λ u. Turned-Quiet) (pva-Quiet t s c)
  tick_backend-Turned px4_local t s c =
      map-Gives (Quiet s c) (Turned s c) _ (λ u. Turned-Quiet) (local-Quiet t s c)

  pub tick-Turned :
      (s : Custom1State F A B L) (c : Controller F)
      → Gives (Turned s c) (custom1_on_tick strategies s c)
  unfolding custom1_on_tick
  tick-Turned s c = tick_backend-Turned c.config.tracking_backend c.current_time s c

  -- The calls of one Custom1State and of those that follow it, with what they send to the solver. `c` is
  -- the controller as the driver has set it.
  pub data Run (start : Tracked F A B L) : List (ℕ × ℕ) → Tracked F A B L → Type 0 where
    begun : Run start [] start
    ticked :
        {sent : List (ℕ × ℕ)} {x t : Tracked F A B L} (c : Controller F)
        → Run start sent x
        → c.nmpc_result_buffer ≡ x.1.nmpc_result_buffer
        → c.effects ≡ []
        → custom1_on_tick strategies x.0 c ≡ some t
        → Run start (sent ++ requests t.1.effects) t
    solved :
        {sent : List (ℕ × ℕ)} {x : Tracked F A B L} (result : NmpcSolveResult F)
        → Run start sent x
        → Run start sent
            (x.0, record x.1 { nmpc_result_buffer = (store result x.1.nmpc_result_buffer).0 })
    left :
        {sent : List (ℕ × ℕ)} {x : Tracked F A B L} (c : Controller F)
        → Run start sent x
        → c.nmpc_result_buffer ≡ x.1.nmpc_result_buffer
        → Run start sent (custom1_on_exit strategies x.0 c)
    entered :
        {sent : List (ℕ × ℕ)} {x t : Tracked F A B L} (s : Custom1State F A B L) (c : Controller F)
        → Run start sent x
        → c.nmpc_result_buffer ≡ x.1.nmpc_result_buffer
        → custom1_on_enter strategies s c ≡ some t
        → Run start sent t

  left-counter :
      (s : Custom1State F A B L) (c : Controller F)
      → (custom1_on_exit strategies s c).1.nmpc_result_buffer.request_counter
        ≡ c.nmpc_result_buffer.request_counter
  unfolding custom1_on_exit invalidate_generation
  left-counter s c = ground arith

  store-counter :
      (r : NmpcSolveResult F) (x : NmpcResultBuffer F)
      → (store r x).0.request_counter ≡ x.request_counter
  unfolding store
  store-counter r x = ground arith

  -- What onEnter leaves: no request, and no reference_finished since.
  abbrev Entered : Controller F → Tracked F A B L → Type 0
  Entered c t =
      (t.1.nmpc_result_buffer ≡ begin_generation c.nmpc_result_buffer)
      × (t.0.control_generation ≡ suc c.nmpc_result_buffer.generation_counter)
      × (t.0.reference_finish_event_posted ≡ false)

  start_backend-Entered :
      (k : TrackingBackend) (s : Custom1State F A B L) (c : Controller F)
      → let started = start_session s c in
        Gives (Entered c) (start_backend strategies k started.0 started.1)
  unfolding start_backend start_session begin_generation request_reference emit_flight_effect
      clear_custom1_request
  start_backend-Entered nmpc s c = some-Gives (Entered c) _ (refl, refl, refl)
  start_backend-Entered dfbc s c = some-Gives (Entered c) _ (ground arith)
  start_backend-Entered smc s c = some-Gives (Entered c) _ (refl, refl, refl)
  start_backend-Entered pva_smc s c = some-Gives (Entered c) _ (refl, refl, refl)
  start_backend-Entered px4_local s c =
      bind-Gives (Entered c) _ _ (λ now. some-Gives (Entered c) _ (refl, refl, refl))

  pub enter-Entered :
      (s : Custom1State F A B L) (c : Controller F)
      → Gives (Entered c) (custom1_on_enter strategies s c)
  unfolding custom1_on_enter
  enter-Entered s c = start_backend-Entered c.config.tracking_backend s c

  after_tick :
      (lo : ℕ) (sent : List (ℕ × ℕ)) (x t : Tracked F A B L) (c : Controller F)
      → Increasing lo (numbers sent) x.1.nmpc_result_buffer.request_counter
      → c.nmpc_result_buffer ≡ x.1.nmpc_result_buffer
      → c.effects ≡ []
      → Turned x.0 c t
      → Increasing lo
          (numbers (sent ++ requests t.1.effects))
          t.1.nmpc_result_buffer.request_counter
  unfolding requests
  after_tick lo sent x t c h same none_yet turned =
      let counter = ap (λ (y : NmpcResultBuffer F). y.request_counter) same in
      let empty = ap (λ es. requests es) none_yet in
      elim (turned.sends) [
        | inl (no_request, count) ↦ rw (no_request, empty, append-nil sent, count, counter) h
        | inr (one, count, live, flying, number) ↦
            rw (one, empty, map-append (λ (p : ℕ × ℕ). p.0) sent _, count, counter)
              (Increasing-next lo (numbers sent) x.1.nmpc_result_buffer.request_counter h)
      ]

  -- The sequence numbers of the requests that Custom1 sends to the solver strictly increase: from the
  -- counter of the result buffer at the start to its counter at the end, over any number of ticks in
  -- any backend with any inputs, results stored by the solver at any time, exits and entries.
  pub dispatch_order :
      (start : Tracked F A B L) (sent : List (ℕ × ℕ)) (x : Tracked F A B L)
      → Run start sent x
      → Increasing start.1.nmpc_result_buffer.request_counter
          (numbers sent)
          x.1.nmpc_result_buffer.request_counter
  unfolding begin_generation
  dispatch_order start _ _ begun = omega arith
  dispatch_order start _ t (ticked {sent} {x} c r same empty step) =
      after_tick _ sent x t c (dispatch_order start sent x r) same empty
        (Gives-some (Turned x.0 c) _ t (tick-Turned x.0 c) step)
  dispatch_order start sent _ (solved {x = x} result r) =
      rw (store-counter result x.1.nmpc_result_buffer) (dispatch_order start sent x r)
  dispatch_order start sent _ (left {x = x} c r same) =
      rw (left-counter x.0 c, same) (dispatch_order start sent x r)
  dispatch_order start sent t (entered {x = x} s c r same step) =
      rw ((Gives-some (Entered c) _ t (enter-Entered s c) step).0, same)
        (dispatch_order start sent x r)

  -- A stay in Custom1: the number of times that its ticks signal reference_finished. Each tick starts
  -- without signals of its own.
  pub data Stay (start : Custom1State F A B L) : ℕ → Custom1State F A B L → Type 0 where
    just_entered : Stay start 0 start
    stayed :
        {n : ℕ} {s : Custom1State F A B L} {t : Tracked F A B L} (c : Controller F)
        → Stay start n s
        → finishes c.signals ≡ 0
        → custom1_on_tick strategies s c ≡ some t
        → Stay start (n + finishes t.1.signals) t.0

  posts_counted :
      (start : Custom1State F A B L) (n : ℕ) (s : Custom1State F A B L)
      → start.reference_finish_event_posted ≡ false
      → Stay start n s
      → n ≡ bit s.reference_finish_event_posted
  posts_counted start _ _ h just_entered = ap bit (sym h)
  posts_counted start _ _ h (stayed {n} {s} {t} c r quiet step) =
      let turned = Gives-some (Turned s c) _ t (tick-Turned s c) step in
      omega (arith, posts_counted start n s h r, quiet, turned.finish_posted)

  -- From an entry of Custom1 on, whatever its ticks are given, they signal at most once that the
  -- reference has finished: they have done so exactly when the state says that it was posted.
  pub finished_once :
      (s : Custom1State F A B L) (c : Controller F) (t : Tracked F A B L) (n : ℕ)
      (s' : Custom1State F A B L)
      → custom1_on_enter strategies s c ≡ some t
      → Stay t.0 n s'
      → (n ≤ 1) × (n ≡ bit s'.reference_finish_event_posted)
  finished_once s c t n s' entry stay =
      let counted =
        posts_counted t.0 n s' (Gives-some (Entered c) _ t (enter-Entered s c) entry).2 stay in
      (ground arith, counted)
