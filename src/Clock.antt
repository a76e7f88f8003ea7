-- ===== src/Clock.antt =====
-- px4_multirotor_controller/include/px4_multirotor_controller/common/controller_clock.h and
-- state_machine/timing.h: deadlines, the controller's timer and the throttle. The clock's reading
-- (`ControllerClock::now()`) is an argument `now`.
use xgc2_multirotor_controll.Prelude.{Bool, true, false, Option, none, some, if◌then◌else◌}
use xgc2_multirotor_controll.Double.{Double}

pub record Timer (F : Type 0) : Type 0 where
  pub start_time : F
  pub started : Bool

module _ {F : Type 0} ⦃d : Double F⦄ where
  open d use {lit, add, sub, lt, le, next_up}

  unfoldable pub controller_due_at : F → F → F
  controller_due_at start interval =
      let due = add start interval in if lt (sub due start) interval then next_up due else due

  unfoldable pub controller_strict_due_at : F → F → F
  controller_strict_due_at start interval =
      let due = add start interval in if le (sub due start) interval then next_up due else due

  unfoldable pub earlier_deadline : Option F → Option F → Option F
  earlier_deadline none b = b
  earlier_deadline (some a) none = some a
  earlier_deadline (some a) (some b) = if lt a b then some a else some b

  abbrev pub fresh_timer : Timer F
  fresh_timer = record { start_time = lit 0 0; started = false }

  -- start, reset, stop and elapsed of `ControllerTimer`
  unfoldable pub timer_start : F → Timer F → Timer F
  timer_start now t = record { start_time = now; started = true }

  unfoldable pub timer_reset : F → Timer F → Timer F
  timer_reset now t = record t { start_time = now }

  unfoldable pub timer_stop : Timer F → Timer F
  timer_stop t = record t { started = false }

  unfoldable pub timer_elapsed : F → Timer F → F
  timer_elapsed now t = if t.started then sub now t.start_time else lit 0 0

  unfoldable pub timer_due_at : Timer F → F → Option F
  unfolding controller_due_at
  timer_due_at t interval =
      if t.started then some (controller_due_at t.start_time interval) else none

  -- the timer after the call, and whether to run
  unfoldable pub should_run_every : F → Timer F → F → Bool → Timer F × Bool
  unfolding timer_start timer_reset timer_elapsed
  should_run_every now t interval reset_on_fire =
      if t.started
      then (if le interval (timer_elapsed now t)
          then (if reset_on_fire then timer_reset now t else t, true)
          else (t, false))
      else (timer_start now t, true)
