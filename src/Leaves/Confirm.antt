-- ===== src/Leaves/Confirm.antt =====
-- The takeoff and landing states of px4_multirotor_controller/src/uav/state_machine each wait for a
-- number of confirming frames in a row. What that promises, over the frames that a state has seen.
use xgc2_multirotor_controll.Prelude.{
  ℕ, suc, ◌≡◌, ◌≤◌, Bool, true, false, not, leb, ltb, ◌||◌, ◌&&◌, List, [], ◌∷◌, if◌then◌else◌,
  arith, ◌+◌,
}
use Prim.Native.Nat.{min}
use xgc2_multirotor_controll.Types.{FlightSignal}

-- What one tick tells: nothing new, a new frame against, or a new frame for.
pub data Frame : Type 0 where
  unseen refuted confirmed : Frame

abbrev pub frame_of : Bool → Bool → Frame
frame_of is_new holds = if is_new then (if holds then confirmed else refuted) else unseen

-- The confirming frames in a row at the end; the latest tick stands first.
unfoldable pub streak : List Frame → ℕ
streak [] = 0
streak (unseen ∷ fs) = streak fs
streak (refuted ∷ fs) = 0
streak (confirmed ∷ fs) = suc (streak fs)

-- At the end of some tick there have been `n` in a row.
unfoldable pub reached : ℕ → List Frame → Bool
reached n [] = false
reached n (f ∷ fs) = leb n (streak (f ∷ fs)) || reached n fs

-- A signal, if this is the tick at which `n` in a row are first there.
unfoldable pub signal_when_reached : ℕ → FlightSignal → Frame → List Frame → List FlightSignal
signal_when_reached n signal f fs =
    if reached n (f ∷ fs) && not (reached n fs) then signal ∷ [] else []

-- How a state counts: up to `n`, from zero after a frame against.
unfoldable pub count_step : ℕ → Frame → ℕ → ℕ
count_step n unseen k = k
count_step n refuted k = 0
count_step n confirmed k = if ltb k n then k + 1 else k

streak-reached : (n : ℕ) (fs : List Frame) → 1 ≤ n → n ≤ streak fs → reached n fs ≡ true
unfolding streak reached
streak-reached n [] h k = ground arith
streak-reached n (f ∷ fs) h k = ground arith

pub count_step-streak :
    (n : ℕ) (f : Frame) (fs : List Frame) (k : ℕ)
    → k ≡ min (streak fs) n
    → count_step n f k ≡ min (streak (f ∷ fs)) n
unfolding streak count_step
count_step-streak n unseen fs k h = h
count_step-streak n refuted fs k h = ground arith
count_step-streak n confirmed fs k h = ground arith

leb-min : (n k : ℕ) → leb n (min k n) ≡ leb n k
leb-min n k = ground arith

pub count_step-reached :
    (n : ℕ) (f : Frame) (fs : List Frame) (k : ℕ)
    → 1 ≤ n
    → k ≡ min (streak fs) n
    → (reached n fs || leb n (count_step n f k)) ≡ reached n (f ∷ fs)
unfolding reached
count_step-reached n f fs k pos h =
    rw (count_step-streak n f fs k h, leb-min n (streak (f ∷ fs))) ground arith

-- The signal of a tick, in the words of a state that counts.
pub signal_when-count :
    (n : ℕ) (signal : FlightSignal) (f : Frame) (fs : List Frame) (k : ℕ)
    → 1 ≤ n
    → k ≡ min (streak fs) n
    → (if leb n (count_step n f k) && not (reached n fs) then signal ∷ [] else [])
      ≡ signal_when_reached n signal f fs
unfolding signal_when_reached
signal_when-count n signal f fs k pos h = ground (arith, count_step-reached n f fs k pos h)
