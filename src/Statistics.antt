-- ===== src/Statistics.antt =====
-- px4_multirotor_controller/src/driver/sensor_statistics.cpp: the receipts of the seven sensor streams and
-- the deadlines at which their statistics are computed. The statistics stand in the tracks, where the
-- source has pointers into SensorData; the output of the effective frequency likewise. What a call had
-- changed before it threw is left out.
pub mod Deadlines
pub mod Windows
pub mod Receipts
use xgc2_multirotor_controll.Prelude.{
  ℕ, zero, suc, ◌+◌, ◌-◌, ◌^◌, ◌%◌, Bool, true, false, not, Option, none, some, List, [], ◌∷◌, ◌++◌,
  map, ltb, ◌&&◌, if◌then◌else◌, ◌>>=◌, length, drop, is_empty, has_value,
}
use xgc2_multirotor_controll.Prelude.Int.{pos}
use xgc2_multirotor_controll.Double.{Double, fmax}
use xgc2_multirotor_controll.Time.{
  Stamp, u32_mod, is_zero, stamp_ns, stamp_of_ns, stamp_sub, stamp_add, stamp_lt, stamp_le,
  duration_sec, duration_of_sec,
}

pub data SensorStream : Type 0 where
  estimate local_pose local_velocity imu state battery pose : SensorStream

unfoldable pub stream_index : SensorStream → ℕ
stream_index estimate = 0
stream_index local_pose = 1
stream_index local_velocity = 2
stream_index imu = 3
stream_index state = 4
stream_index battery = 5
stream_index pose = 6

-- the whole of SensorData::TopicStats
pub record StreamStats (F : Type 0) : Type 0 where
  pub frequency_hz : F
  pub dt_max : F
  pub time_since_last_msg : F
  pub jitter : F
  pub last_message_time : Stamp
  pub is_active : Bool
  pub is_new : Bool

pub record Track (F : Type 0) : Type 0 where
  pub stats : StreamStats F
  pub times : List Stamp
  pub dts : List F
  pub last : Stamp
  pub effective_frequency : Option F
  pub valid_frames : ℕ

pub record SensorStatistics (F : Type 0) : Type 0 where
  pub tracks : List (Track F)
  pub next_stats : Stamp
  pub next_heartbeat : Stamp
  pub started : Bool

abbrev pub window : ℕ
window = 10

-- the periods of updateStatistics and updateHeartbeats
abbrev pub stats_period : ℕ
stats_period = 100_000_000

abbrev pub heartbeat_period : ℕ
heartbeat_period = 1_000_000_000

-- `pop_front` of a window that has grown too long
unfoldable pub trimmed {ℓ} : {A : Type ℓ} → Bool → List A → List A
trimmed too_long xs = if too_long then drop 1 xs else xs

-- the last element, where `x` is the first
unfoldable pub back_of {ℓ} : {A : Type ℓ} → A → List A → A
back_of x [] = x
back_of x (y ∷ ys) = back_of y ys

-- the element at an index is replaced by what a call makes of it; `at` throws out of range
unfoldable pub modify_at {ℓ} : {A : Type ℓ} → (A → Option A) → ℕ → List A → Option (List A)
modify_at f i [] = none
modify_at f zero (x ∷ xs) = f x >>= λ y. some (y ∷ xs)
modify_at f (suc i) (x ∷ xs) = modify_at f i xs >>= λ ys. some (x ∷ ys)

-- a loop over the tracks
unfoldable pub each {ℓ} : {A : Type ℓ} → (A → Option A) → List A → Option (List A)
each f [] = some []
each f (x ∷ xs) = f x >>= λ y. each f xs >>= λ ys. some (y ∷ ys)

-- nextDeadline: the differences and sums are of unsigned 64-bit numbers
unfoldable pub next_deadline : Stamp → Stamp → ℕ → Option Stamp
next_deadline deadline now period =
    let elapsed = (stamp_ns now + 2 ^ 64 - stamp_ns deadline) % 2 ^ 64 in
    stamp_of_ns ((stamp_ns now + (period - elapsed % period)) % 2 ^ 64)

module _ {F : Type 0} ⦃d : Double F⦄ where
  open d use {lit, neg, add, sub, mul, div, lt, le, sqrt, of_int}

  abbrev pub new_track : Track F
  new_track = record {
    stats = record {
      frequency_hz = neg (lit 1 0);
      dt_max = lit 0 0;
      time_since_last_msg = lit 0 0;
      jitter = lit 0 0;
      last_message_time = record { sec = 0; nsec = 0 };
      is_active = false;
      is_new = false;
    };
    times = [];
    dts = [];
    last = record { sec = 0; nsec = 0 };
    effective_frequency = none;
    valid_frames = 0;
  }

  unfoldable pub observe_track : Stamp → Track F → Option (Track F)
  unfolding trimmed
  observe_track receipt t = do
    dt ←
        if is_zero t.last
        then some (lit 0 0)
        else stamp_sub receipt t.last >>= λ r. some (duration_sec r)
    let times = t.times ++ (receipt ∷ [])
    let too_long = ltb window (length times)
    some (record t {
      stats = record t.stats { last_message_time = receipt; is_active = true; is_new = true };
      times = trimmed too_long times;
      dts = trimmed too_long (t.dts ++ (dt ∷ []));
      last = receipt;
    })

  unfoldable pub greatest : F → List F → F
  greatest m [] = m
  greatest m (x ∷ xs) = greatest (fmax m x) xs

  unfoldable pub total : F → List F → F
  total m [] = m
  total m (x ∷ xs) = total (add m x) xs

  unfoldable pub square_total : F → F → List F → F
  square_total mean m [] = m
  square_total mean m (x ∷ xs) = square_total mean (add m (mul (sub x mean) (sub x mean))) xs

  -- the statistics of a window of at least two receipts, whose ends are `duration` apart
  unfoldable pub measured : F → Track F → Track F
  unfolding greatest total square_total
  measured duration t =
      let size = of_int (pos (length t.dts)) in
      let mean = div (total (lit 0 0) t.dts) size in
      let variance = square_total mean (lit 0 0) t.dts in
      let lasts = lt (lit 0 0) duration in
      let frequency =
        if lasts then div (of_int (pos (length t.times - 1))) duration else t.stats.frequency_hz in
      let rated = has_value t.effective_frequency && lasts in
      record t {
        stats = record t.stats {
          frequency_hz = frequency;
          dt_max = greatest (lit 0 0) t.dts;
          jitter = if ltb (length t.dts) 2 then lit 0 0 else sqrt (div variance size);
        };
        effective_frequency =
            if rated
            then some (div (of_int (pos t.valid_frames)) duration)
            else t.effective_frequency;
        valid_frames = if rated then 0 else t.valid_frames;
      }

  unfoldable pub measure_window : List Stamp → Track F → Option (Track F)
  unfolding back_of measured
  measure_window [] t = some t
  measure_window (front ∷ []) t = some t
  measure_window (front ∷ next ∷ rest) t =
      stamp_sub (back_of next rest) front >>= λ r. some (measured (duration_sec r) t)

  unfoldable pub heartbeat_window : Stamp → List Stamp → Track F → Option (Track F)
  unfolding back_of
  heartbeat_window now [] t = some t
  heartbeat_window now (front ∷ rest) t = stamp_sub now (back_of front rest) >>= λ r.
      let elapsed = duration_sec r in
      some (record t {
        stats = record t.stats { time_since_last_msg = elapsed; is_active = le elapsed (lit 25 1) };
      })

  unfoldable pub update_statistics : List (Track F) → Option (List (Track F))
  unfolding each measure_window
  update_statistics tracks = each (λ t. measure_window t.times t) tracks

  unfoldable pub update_heartbeats : Stamp → List (Track F) → Option (List (Track F))
  unfolding each heartbeat_window
  update_heartbeats now tracks = each (λ t. heartbeat_window now t.times t) tracks

  abbrev pub new_statistics : SensorStatistics F
  new_statistics = record {
    tracks = new_track ∷ new_track ∷ new_track ∷ new_track ∷ new_track ∷ new_track ∷ new_track ∷ [];
    next_stats = record { sec = 0; nsec = 0 };
    next_heartbeat = record { sec = 0; nsec = 0 };
    started = false;
  }

  unfoldable pub start : Stamp → SensorStatistics F → Option (SensorStatistics F)
  start now s = if s.started then some s else (do
    tenth ← duration_of_sec (lit 1 1)
    stats ← stamp_add now tenth
    second ← duration_of_sec (lit 1 0)
    heartbeat ← stamp_add now second
    some (record s { next_stats = stats; next_heartbeat = heartbeat; started = true }))

  unfoldable pub observe : SensorStream → Stamp → SensorStatistics F → Option (SensorStatistics F)
  unfolding modify_at stream_index observe_track
  observe stream receipt s =
      modify_at (observe_track receipt) (stream_index stream) s.tracks >>= λ tracks.
      some (record s { tracks = tracks })

  unfoldable pub advance_stats : Stamp → SensorStatistics F → Option (SensorStatistics F)
  unfolding update_statistics next_deadline
  advance_stats now s =
      if stamp_le s.next_stats now
      then (do
        tracks ← update_statistics s.tracks
        due ← next_deadline s.next_stats now stats_period
        some (record s { tracks = tracks; next_stats = due }))
      else some s

  unfoldable pub advance_heartbeat : Stamp → SensorStatistics F → Option (SensorStatistics F)
  unfolding update_heartbeats next_deadline
  advance_heartbeat now s =
      if stamp_le s.next_heartbeat now
      then (do
        tracks ← update_heartbeats now s.tracks
        due ← next_deadline s.next_heartbeat now heartbeat_period
        some (record s { tracks = tracks; next_heartbeat = due }))
      else some s

  unfoldable pub advance : Stamp → SensorStatistics F → Option (SensorStatistics F)
  unfolding start advance_stats advance_heartbeat
  advance now s = do
    begun ← if s.started then some s else start now s
    computed ← advance_stats now begun
    advance_heartbeat now computed

  unfoldable pub statistics_next_wake : SensorStatistics F → Option Stamp
  statistics_next_wake s =
      if not s.started
      then none
      else some (if stamp_lt s.next_heartbeat s.next_stats then s.next_heartbeat else s.next_stats)

  unfoldable pub reset_new_flags : SensorStatistics F → SensorStatistics F
  reset_new_flags s = record s {
    tracks = map (λ (t : Track F). record t { stats = record t.stats { is_new = false } }) s.tracks;
  }

  -- setQualityOutput; `value` is what the output holds
  unfoldable pub set_quality_output :
      SensorStream → F → SensorStatistics F → Option (SensorStatistics F)
  unfolding modify_at stream_index
  set_quality_output stream value s =
      modify_at (λ t. some (record t { effective_frequency = some value })) (stream_index stream)
        s.tracks
      >>= λ tracks. some (record s { tracks = tracks })

  -- valid_frames is 32 bits wide
  unfoldable pub mark_valid_frame : SensorStream → SensorStatistics F → Option (SensorStatistics F)
  unfolding modify_at stream_index
  mark_valid_frame stream s =
      modify_at (λ t. some (record t { valid_frames = suc t.valid_frames % u32_mod }))
        (stream_index stream) s.tracks
      >>= λ tracks. some (record s { tracks = tracks })
