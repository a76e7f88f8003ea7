-- ===== src/Time/Search.antt =====
-- common/time.h: controllerClockWakeNs and rosStatisticsWakeNs, which search for the first tick of the
-- host's clock at which a deadline in seconds has come. The loop runs on fuel: 64 halvings, of a range
-- below 2^64.
use mathlib.Core.Bool.{true≢false}
use mathlib.Core.Option.{some-injective}
use xgc2_multirotor_controll.Prelude.{
  ℕ, zero, suc, ◌+◌, ◌-◌, ◌*◌, ◌/◌, ◌<◌, ◌≤◌, ◌≡◌, inl, inr, refl, sym, ap, ◌∙◌, Bool, true, false,
  Option, some, ltb, if◌then◌else◌, ◌>>=◌, Bool-cases, arith,
}
use xgc2_multirotor_controll.Double.{Double, fmax}
use xgc2_multirotor_controll.Time.{
  Stamp, giga, u32_mod, stamp_ns, stamp_of_ns, stamp_sec, stamp_of_sec,
}

-- `while (low < high)`, with the test of a tick
unfoldable pub search : (ℕ → Option Bool) → ℕ → ℕ → ℕ → Option ℕ
search early zero low high = some low
search early (suc fuel) low high =
    let mid = low + (high - low) / 2 in
    if ltb low high
    then (early mid >>= λ b. elim b [
      | true ↦ search early fuel (mid + 1) high
      | false ↦ search early fuel low mid
    ])
    else some low

module _ {F : Type 0} ⦃d : Double F⦄ where
  open d use {lit, neg, lt, le, next_up}

  -- std::nextafter towards -infinity
  abbrev pub next_down : F → F
  next_down x = neg (next_up (neg x))

  -- the body that the two functions share
  unfoldable pub wake_ns : ℕ → (ℕ → Option Bool) → F → Option ℕ
  wake_ns fuel early seconds = if le seconds (lit 0 0) then some 0 else (do
    before ← stamp_of_sec (fmax (lit 0 0) (next_down seconds))
    after ← stamp_of_sec (next_up seconds)
    search early fuel (stamp_ns before - 1) (stamp_ns after + 1))

  unfoldable pub before_on_clock : F → ℕ → Option Bool
  before_on_clock seconds tick = stamp_of_ns tick >>= λ t. some (lt (stamp_sec t) seconds)

  unfoldable pub controller_clock_wake_ns : F → Option ℕ
  controller_clock_wake_ns seconds = wake_ns 64 (before_on_clock seconds) seconds

module _ (F : Type 0) ⦃d : Double F⦄ where
  unfoldable pub before_on_ros_clock : Stamp → ℕ → Option Bool
  before_on_ros_clock due tick = do
    t ← stamp_of_ns tick
    converted ← stamp_of_sec {F = F} (stamp_sec t)
    some (ltb (stamp_ns converted) (stamp_ns due))

  unfoldable pub ros_statistics_wake_ns : Stamp → Option ℕ
  ros_statistics_wake_ns due = wake_ns {F = F} 64 (before_on_ros_clock due) (stamp_sec due)

-- 2 ^ n
reach : ℕ → ℕ
reach zero = 1
reach (suc n) = 2 * reach n

reach_64 : reach 64 ≡ 18_446_744_073_709_551_616
unfolding reach
reach_64 = refl

-- the number of ticks that convert to a time
abbrev pub ticks : ℕ
ticks = u32_mod * giga

-- Ticks that are early stand before those that are not, and every tick has its test.
pub record IsThreshold (early : ℕ → Option Bool) : Type 0 where
  pub tested : (n : ℕ) → n < ticks → (b : Bool) × (early n ≡ some b)
  pub falling : (m n : ℕ) → m ≤ n → early n ≡ some true → early m ≡ some true

-- The first tick that is not early.
pub record IsFirst (early : ℕ → Option Bool) (r : ℕ) : Type 0 where
  pub before : (n : ℕ) → n < r → early n ≡ some true
  pub from : (n : ℕ) → r ≤ n → n < ticks → early n ≡ some false

late_after :
    (early : ℕ → Option Bool)
    → IsThreshold early
    → (m : ℕ) → early m ≡ some false
    → (n : ℕ) → m ≤ n
    → n < ticks
    → early n ≡ some false
late_after early threshold m late n h k =
    let (b, e) = threshold.tested n k in
    elim (Bool-cases b) [
      | inl is_early ↦
          let still = threshold.falling m n h (e ∙ ap some is_early) in
          absurd (true≢false (some-injective true false (sym still ∙ late)))
      | inr is_late ↦ e ∙ ap some is_late
    ]

search-IsFirst :
    (early : ℕ → Option Bool)
    → IsThreshold early
    → (fuel low high : ℕ) → high - low < reach fuel
    → low ≤ high
    → high ≤ ticks
    → ((n : ℕ) → n < low → early n ≡ some true)
    → ((n : ℕ) → high ≤ n → n < ticks → early n ≡ some false)
    → (r : ℕ) × (search early fuel low high ≡ some r) × IsFirst early r
unfolding search reach
search-IsFirst early threshold zero low high range ordered top below above =
    (low, refl, record { before = below; from = λ n h k. above n (omega arith) k })
search-IsFirst early threshold (suc fuel) low high range ordered top below above =
    let mid = low + (high - low) / 2 in
    elim (Bool-cases (ltb low high)) [
      | inr done ↦
          rw done (low, refl, record { before = below; from = λ n h k. above n (ground arith) k })
      | inl open_range ↦
          let inside : low < high = ground arith in
          let (b, e) = threshold.tested mid (omega arith) in
          elim (Bool-cases b) [
            | inl is_early ↦
                rw (open_range, e ∙ ap some is_early)
                  (search-IsFirst early threshold fuel (mid + 1) high (omega arith) (omega arith)
                    top (λ n h. threshold.falling n mid (omega arith) (e ∙ ap some is_early)) above)
            | inr is_late ↦
                rw (open_range, e ∙ ap some is_late)
                  (search-IsFirst early threshold fuel low mid (omega arith) (omega arith)
                    (omega arith) below
                    (λ n h k. late_after early threshold mid (e ∙ ap some is_late) n h k))
          ]
    ]

module _ {F : Type 0} ⦃d : Double F⦄ where
  open d use {lit, le, next_up}

  -- What the two functions rely on for a time in seconds: its neighbours convert, and the ticks around
  -- them are early and late.
  pub record Bracketed (early : ℕ → Option Bool) (seconds : F) : Type 0 where
    pub lower : Stamp
    pub lower_converted : stamp_of_sec (fmax (lit 0 0) (next_down seconds)) ≡ some lower
    pub upper : Stamp
    pub upper_converted : stamp_of_sec (next_up seconds) ≡ some upper
    pub ordered : stamp_ns lower ≤ stamp_ns upper
    pub in_range : stamp_ns upper + 1 < ticks
    pub early_below : (n : ℕ) → n + 1 < stamp_ns lower → early n ≡ some true
    pub late_above : early (stamp_ns upper + 1) ≡ some false

  wake_ns-IsFirst :
      (fuel : ℕ) (early : ℕ → Option Bool) (seconds : F)
      → ticks ≤ reach fuel
      → le seconds (lit 0 0) ≡ false
      → IsThreshold early
      → Bracketed early seconds
      → (r : ℕ) × (wake_ns fuel early seconds ≡ some r) × IsFirst early r
  unfolding wake_ns
  wake_ns-IsFirst fuel early seconds enough positive threshold b =
      rw (positive, b.lower_converted, b.upper_converted)
        (search-IsFirst early threshold fuel (stamp_ns b.lower - 1) (stamp_ns b.upper + 1)
          (omega (arith, b.in_range)) (omega (arith, b.ordered)) (omega (arith, b.in_range))
          (λ n h. b.early_below n (omega arith))
          (late_after early threshold (stamp_ns b.upper + 1) b.late_above))

  -- controllerClockWakeNs of a positive time in seconds gives a tick: the first of the host's clock whose
  -- reading as a double is not below that time. Needed are that the readings of later ticks are not
  -- below the time where those of earlier ones are not, that the neighbours of the time as a double
  -- convert to stamps, and that the ticks outside of those are below and not below the time.
  pub clock_wake-IsFirst :
      (seconds : F)
      → le seconds (lit 0 0) ≡ false
      → IsThreshold (before_on_clock seconds)
      → Bracketed (before_on_clock seconds) seconds
      → (r : ℕ) × (controller_clock_wake_ns seconds ≡ some r) × IsFirst (before_on_clock seconds) r
  unfolding controller_clock_wake_ns
  clock_wake-IsFirst seconds =
      wake_ns-IsFirst 64 (before_on_clock seconds) seconds (omega (arith, reach_64))

  -- The same of rosStatisticsWakeNs, whose ticks are converted to a double and back.
  pub ros_wake-IsFirst :
      (due : Stamp)
      → le (stamp_sec {F = F} due) (lit 0 0) ≡ false
      → IsThreshold (before_on_ros_clock F due)
      → Bracketed (before_on_ros_clock F due) (stamp_sec due)
      → (r : ℕ) × (ros_statistics_wake_ns F due ≡ some r) × IsFirst (before_on_ros_clock F due) r
  unfolding ros_statistics_wake_ns
  ros_wake-IsFirst due =
      wake_ns-IsFirst 64 (before_on_ros_clock F due) (stamp_sec due) (omega (arith, reach_64))
