-- ===== src/Statistics/Receipts.antt =====
-- src/driver/sensor_statistics.cpp: the windows of receipts, over any calls.
use xgc2_multirotor_controll.Prelude.{
  ℕ, ◌≡◌, refl, Option, some, List, [], ◌∷◌, ◌++◌, if◌then◌else◌, ◌>>=◌, arith, Gives, Gives-some,
  chain-Gives, bind-Gives, some-Gives, if-Gives,
}
use xgc2_multirotor_controll.Double.{Double}
use xgc2_multirotor_controll.Time.{Stamp, stamp_le, stamp_add, duration_of_sec}
use xgc2_multirotor_controll.Statistics.{
  SensorStream, stream_index, Track, SensorStatistics, stats_period, heartbeat_period,
  next_deadline, update_statistics, update_heartbeats, start, observe, advance, advance_stats,
  advance_heartbeat, reset_new_flags, mark_valid_frame, set_quality_output, new_statistics,
}
use xgc2_multirotor_controll.Statistics.Windows.{
  Windows, Kept, Windows-observe, Windows-modify, Windows-each, Windows-reset, measure_window-Kept,
  heartbeat_window-Kept,
}

module _ {F : Type 0} ⦃d : Double F⦄ where
  -- Any calls, in any order; the receipts, of which each has the index of its stream.
  pub data Calls : List (ℕ × Stamp) → SensorStatistics F → Type 0 where
    constructed : Calls [] new_statistics
    observed :
        {rs : List (ℕ × Stamp)} {s s' : SensorStatistics F} (stream : SensorStream)
        (receipt : Stamp)
        → Calls rs s
        → observe stream receipt s ≡ some s'
        → Calls (rs ++ ((stream_index stream, receipt) ∷ [])) s'
    advanced :
        {rs : List (ℕ × Stamp)} {s s' : SensorStatistics F} (now : Stamp)
        → Calls rs s
        → advance now s ≡ some s'
        → Calls rs s'
    reset :
        {rs : List (ℕ × Stamp)} {s : SensorStatistics F} → Calls rs s → Calls rs (reset_new_flags s)
    marked :
        {rs : List (ℕ × Stamp)} {s s' : SensorStatistics F} (stream : SensorStream)
        → Calls rs s
        → mark_valid_frame stream s ≡ some s'
        → Calls rs s'
    rated :
        {rs : List (ℕ × Stamp)} {s s' : SensorStatistics F} (stream : SensorStream) (value : F)
        → Calls rs s
        → set_quality_output stream value s ≡ some s'
        → Calls rs s'

  start-Windows :
      (rs : List (ℕ × Stamp)) (now : Stamp) (s : SensorStatistics F)
      → Windows 0 s.tracks rs
      → Gives (λ (x : SensorStatistics F). Windows 0 x.tracks rs) (start now s)
  unfolding start
  start-Windows rs now s w =
      let P = λ (x : SensorStatistics F). Windows 0 x.tracks rs in
      if-Gives P s.started (some s) _ (some-Gives P s w) (
        bind-Gives P (duration_of_sec (d.lit 1 1)) _ (λ tenth.
          bind-Gives P (stamp_add now tenth) _ (λ stats.
            bind-Gives P (duration_of_sec (d.lit 1 0)) _
              (λ second. bind-Gives P (stamp_add now second) _ (λ heartbeat. some-Gives P _ w)))))

  stats-Windows :
      (rs : List (ℕ × Stamp)) (now : Stamp) (s : SensorStatistics F)
      → Windows 0 s.tracks rs
      → Gives (λ (x : SensorStatistics F). Windows 0 x.tracks rs) (advance_stats now s)
  unfolding advance_stats update_statistics
  stats-Windows rs now s w =
      let P = λ (x : SensorStatistics F). Windows 0 x.tracks rs in
      if-Gives P (stamp_le s.next_stats now) _ (some s)
        (chain-Gives (λ (ts : List (Track F)). Windows 0 ts rs) P (update_statistics s.tracks) _
          (Windows-each _ 0 s.tracks rs (λ t. measure_window-Kept t t.times) w)
          (λ ts ws.
            bind-Gives P (next_deadline s.next_stats now stats_period) _
              (λ due. some-Gives P _ ws)))
        (some-Gives P s w)

  heartbeat-Windows :
      (rs : List (ℕ × Stamp)) (now : Stamp) (s : SensorStatistics F)
      → Windows 0 s.tracks rs
      → Gives (λ (x : SensorStatistics F). Windows 0 x.tracks rs) (advance_heartbeat now s)
  unfolding advance_heartbeat update_heartbeats
  heartbeat-Windows rs now s w =
      let P = λ (x : SensorStatistics F). Windows 0 x.tracks rs in
      if-Gives P (stamp_le s.next_heartbeat now) _ (some s)
        (chain-Gives (λ (ts : List (Track F)). Windows 0 ts rs) P (update_heartbeats now s.tracks) _
          (Windows-each _ 0 s.tracks rs (λ t. heartbeat_window-Kept now t t.times) w)
          (λ ts ws.
            bind-Gives P (next_deadline s.next_heartbeat now heartbeat_period) _
              (λ due. some-Gives P _ ws)))
        (some-Gives P s w)

  advance-Windows :
      (rs : List (ℕ × Stamp)) (now : Stamp) (s : SensorStatistics F)
      → Windows 0 s.tracks rs
      → Gives (λ (x : SensorStatistics F). Windows 0 x.tracks rs) (advance now s)
  unfolding advance
  advance-Windows rs now s w =
      let P = λ (x : SensorStatistics F). Windows 0 x.tracks rs in
      chain-Gives P P (if s.started then some s else start now s) _
        (if-Gives P s.started (some s) _ (some-Gives P s w) (start-Windows rs now s w))
        (λ x wx.
          chain-Gives P P (advance_stats now x) _ (stats-Windows rs now x wx)
            (λ y wy. heartbeat-Windows rs now y wy))

  -- a call for one stream
  modified-Windows :
      (rs : List (ℕ × Stamp)) (s : SensorStatistics F) (changed : Option (List (Track F)))
      → Gives (λ (ts : List (Track F)). Windows 0 ts rs) changed
      → Gives
          (λ (x : SensorStatistics F). Windows 0 x.tracks rs)
          (changed >>= λ tracks. some (record s { tracks = tracks }))
  modified-Windows rs s changed h =
      let P = λ (x : SensorStatistics F). Windows 0 x.tracks rs in
      chain-Gives (λ (ts : List (Track F)). Windows 0 ts rs) P changed _ h
        (λ ts ws. some-Gives P _ ws)

  -- Over any calls to the statistics of the sensors, in any order, the window of each stream holds the
  -- last ten receipts of that stream, oldest first, or all of them while they are fewer, and as many
  -- intervals as receipts.
  pub receipts_exact :
      (rs : List (ℕ × Stamp)) (s : SensorStatistics F) → Calls rs s → Windows 0 s.tracks rs
  unfolding observe mark_valid_frame set_quality_output reset_new_flags
  receipts_exact _ _ constructed = ground arith
  receipts_exact _ s' (observed {rs} {s} stream receipt calls e) =
      let P = λ (x : SensorStatistics F).
        Windows 0 x.tracks (rs ++ ((stream_index stream, receipt) ∷ [])) in
      Gives-some P _ s'
        (modified-Windows _ s _ (
          Windows-observe receipt (stream_index stream) 0 (stream_index stream) s.tracks rs
            (omega arith) (receipts_exact rs s calls)))
        e
  receipts_exact rs s' (advanced {s = s} now calls e) =
      Gives-some (λ (x : SensorStatistics F). Windows 0 x.tracks rs) _ s'
        (advance-Windows rs now s (receipts_exact rs s calls)) e
  receipts_exact rs _ (reset {s = s} calls) =
      Windows-reset _ 0 s.tracks rs (λ t. (refl, refl)) (receipts_exact rs s calls)
  receipts_exact rs s' (marked {s = s} stream calls e) =
      Gives-some (λ (x : SensorStatistics F). Windows 0 x.tracks rs) _ s'
        (modified-Windows rs s _ (
          Windows-modify _ (stream_index stream) 0 s.tracks rs
            (λ t. some-Gives (Kept t) _ (refl, refl)) (receipts_exact rs s calls)))
        e
  receipts_exact rs s' (rated {s = s} stream value calls e) =
      Gives-some (λ (x : SensorStatistics F). Windows 0 x.tracks rs) _ s'
        (modified-Windows rs s _ (
          Windows-modify _ (stream_index stream) 0 s.tracks rs
            (λ t. some-Gives (Kept t) _ (refl, refl)) (receipts_exact rs s calls)))
        e
