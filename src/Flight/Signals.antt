-- ===== src/Flight/Signals.antt =====
-- FlightRuntime::update: what a turn leaves of the signals, when it asks for another one, and when the
-- entry time of the active state changes.
use xgc2_multirotor_controll.Prelude.{
  ◌<◌, ◌≤◌, ℕ, suc, List, ◌++◌, Option, none, some, drop, take, ◌≡◌, Bool, true, false,
}
use xgc2_multirotor_controll.Types.{FlightSignal}
use xgc2_multirotor_controll.Double.{Double}
use xgc2_multirotor_controll.Flight.Turn.{Outcome, stay, enter}
use xgc2_multirotor_controll.Flight.Runtime.{Runtime}

-- The outcome is a transition.
abbrev pub is_enter : {F C : Type 0} → Outcome F C → Bool
is_enter stay = false
is_enter (enter _) = true

-- What is deferred of signals: those from `start` on, all but the selected one.
abbrev pub Deferred : ℕ → Option ℕ → List FlightSignal → List FlightSignal → Type 0
Deferred start selected signals deferred =
    (selected ≡ none → deferred ≡ drop start signals)
    × ((k : ℕ) → selected ≡ some k → k < start → deferred ≡ drop start signals)
    × ((k : ℕ)
        → selected ≡ some k
        → start ≤ k
        → deferred ≡ drop start (take k signals) ++ drop (suc k) signals)
