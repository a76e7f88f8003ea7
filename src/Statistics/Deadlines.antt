-- ===== src/Statistics/Deadlines.antt =====
-- src/driver/sensor_statistics.cpp: the grid of deadlines.
use xgc2_multirotor_controll.Prelude.{
  ℕ, suc, ◌+◌, ◌-◌, ◌*◌, ◌/◌, ◌%◌, ◌^◌, refl, sym, ap, ◌∙◌, ◌>>=◌, if◌then◌else◌, map-Gives, ◌≡◌,
  ◌≤◌, ◌<◌, ◌⊎◌, inl, inr, true, false, some, arith, Gives, Gives-some, chain-Gives, bind-Gives,
  step-Gives, some-Gives, test-Gives,
}
use xgc2_multirotor_controll.Double.{Double}
use xgc2_multirotor_controll.Time.{Stamp, IsCanonical, stamp_ns, stamp_le}
use xgc2_multirotor_controll.Time.Bounds.{stamp_of_ns_exact}
use xgc2_multirotor_controll.Time.Order.{stamp_order}
use xgc2_multirotor_controll.Statistics.{
  SensorStatistics, start, next_deadline, stats_period, heartbeat_period, advance, advance_stats,
  advance_heartbeat,
}

-- `new` is the first of `old`, `old + period`, `old + 2 * period` and so on that is after `now`.
pub record FirstAfter (period : ℕ) (now old new : Stamp) : Type 0 where
  pub canonical : IsCanonical new
  pub after : stamp_ns now < stamp_ns new
  pub steps : ℕ
  pub on_grid : stamp_ns new ≡ stamp_ns old + steps * period
  pub first : (steps ≡ 0) ⊎ (stamp_ns new ≤ stamp_ns now + period)

canonical_bound : (t : Stamp) → IsCanonical t → stamp_ns t < 4_294_967_296_000_000_000
unfolding stamp_ns
canonical_bound t c = ground arith

-- The period is given with the quotient and the remainder of what has elapsed.
next_deadline_grid :
    (period quotient : ℕ) (deadline now : Stamp) {t : Stamp}
    → IsCanonical deadline
    → IsCanonical now
    → stamp_ns deadline ≤ stamp_ns now
    → let elapsed = stamp_ns now - stamp_ns deadline in
      quotient * period + elapsed % period ≡ elapsed
      → elapsed % period < period
      → period ≤ heartbeat_period
      → next_deadline deadline now period ≡ some t
      → FirstAfter period now deadline t
unfolding next_deadline
next_deadline_grid period quotient deadline now {t} cd cn h divided below small e =
    let now_lt = canonical_bound now cn in
    let same : (stamp_ns now + 2 ^ 64 - stamp_ns deadline) % 2 ^ 64
        ≡ stamp_ns now - stamp_ns deadline =
      omega arith in
    let (canonical, count) = stamp_of_ns_exact _ {t = t} (rw same at e) in
    record {
      canonical = canonical;
      after = omega arith;
      steps = suc quotient;
      on_grid = omega arith;
      first = inr (omega arith);
    }

waiting-FirstAfter :
    (period : ℕ) (now due : Stamp)
    → IsCanonical now
    → IsCanonical due
    → stamp_le due now ≡ false
    → FirstAfter period now due due
waiting-FirstAfter period now due cn cd h =
    let order = (stamp_order due now cd cn).1.1 in
    record {
      canonical = cd;
      after = ground (arith, order);
      steps = 0;
      on_grid = omega arith;
      first = inl refl;
    }

module _ {F : Type 0} ⦃d : Double F⦄ where
  -- Each deadline is the first on its grid after the time.
  abbrev pub Punctual : Stamp → SensorStatistics F → SensorStatistics F → Type 0
  Punctual now s s' =
      FirstAfter stats_period now s.next_stats s'.next_stats
      × FirstAfter heartbeat_period now s.next_heartbeat s'.next_heartbeat

  stats-FirstAfter :
      (now : Stamp) (s : SensorStatistics F)
      → IsCanonical now
      → IsCanonical s.next_stats
      → Gives
          (λ x.
            FirstAfter stats_period now s.next_stats x.next_stats
            × (x.next_heartbeat ≡ s.next_heartbeat))
          (advance_stats now s)
  unfolding advance_stats
  stats-FirstAfter now s cn cd =
      let P = λ (x : SensorStatistics F).
        FirstAfter stats_period now s.next_stats x.next_stats
        × (x.next_heartbeat ≡ s.next_heartbeat) in
      test-Gives P (stamp_le s.next_stats now) _ _
        (λ due. bind-Gives P _ _ (λ tracks.
          step-Gives P (next_deadline s.next_stats now stats_period) _ (λ t e. some-Gives P _ (
            next_deadline_grid stats_period ((stamp_ns now - stamp_ns s.next_stats) / stats_period)
                s.next_stats now cd cn ((stamp_order s.next_stats now cd cn).1.0 due) (omega arith)
                (omega arith) (omega arith) e,
            refl,
          ))))
        (λ waiting.
          some-Gives P s (waiting-FirstAfter stats_period now s.next_stats cn cd waiting, refl))

  heartbeat-FirstAfter :
      (now : Stamp) (s : SensorStatistics F)
      → IsCanonical now
      → IsCanonical s.next_heartbeat
      → Gives
          (λ x.
            FirstAfter heartbeat_period now s.next_heartbeat x.next_heartbeat
            × (x.next_stats ≡ s.next_stats))
          (advance_heartbeat now s)
  unfolding advance_heartbeat
  heartbeat-FirstAfter now s cn cd =
      let P = λ (x : SensorStatistics F).
        FirstAfter heartbeat_period now s.next_heartbeat x.next_heartbeat
        × (x.next_stats ≡ s.next_stats) in
      test-Gives P (stamp_le s.next_heartbeat now) _ _
        (λ due. bind-Gives P _ _ (λ tracks.
          step-Gives P (next_deadline s.next_heartbeat now heartbeat_period) _ (λ t e.
            some-Gives P _ (
              next_deadline_grid heartbeat_period
                  ((stamp_ns now - stamp_ns s.next_heartbeat) / heartbeat_period) s.next_heartbeat
                  now cd cn ((stamp_order s.next_heartbeat now cd cn).1.0 due) (omega arith)
                  (omega arith) (omega arith) e,
              refl,
            ))))
        (λ waiting.
          some-Gives P s
            (waiting-FirstAfter heartbeat_period now s.next_heartbeat cn cd waiting, refl))

  -- However far the clock has jumped, an advance of started statistics that gives a result leaves each
  -- of its two deadlines at the first point of its grid, with a period of 100 ms or of 1 s, that is
  -- after the given time; a deadline that is not due stays. Time and deadlines are canonical.
  pub advance-Punctual :
      (now : Stamp) (s s' : SensorStatistics F)
      → IsCanonical now
      → IsCanonical s.next_stats
      → IsCanonical s.next_heartbeat
      → s.started ≡ true
      → advance now s ≡ some s'
      → Punctual now s s'
  unfolding advance
  advance-Punctual now s s' cn cs ch running h =
      let P = Punctual now s in
      let Q = λ (x : SensorStatistics F).
        FirstAfter stats_period now s.next_stats x.next_stats
        × (x.next_heartbeat ≡ s.next_heartbeat) in
      Gives-some P _ s'
        (chain-Gives Q P (advance_stats now s) _ (stats-FirstAfter now s cn cs) (λ x (stats, kept).
          let R = λ (y : SensorStatistics F).
            FirstAfter heartbeat_period now x.next_heartbeat y.next_heartbeat
            × (y.next_stats ≡ x.next_stats) in
          map-Gives R P _ (λ y (beat, same). (rw same stats, rw (sym kept) beat))
            (heartbeat-FirstAfter now x cn (rw kept ch))))
        (sym (
            ap
              (λ started. (if started then some s else start now s) >>= λ begun.
                advance_stats now begun >>= λ computed. advance_heartbeat now computed)
              running)
          ∙ h)
