-- ===== src/Tracking/Leaf.antt =====
-- Custom1State as the flight runtime of src/uav/flight_state.cpp calls it. `none` is the state of a leaf
-- in which a call has thrown; what such a call had changed before it threw is left out.
use xgc2_multirotor_controll.Prelude.{Option, none, some, ◌>>=◌}
use xgc2_multirotor_controll.Double.{Double}
use xgc2_multirotor_controll.Cache.{FlagBits}
use xgc2_multirotor_controll.Controller.{Controller}
use xgc2_multirotor_controll.Flight.Turn.{Custom1}
use xgc2_multirotor_controll.Tracking.{Custom1State, Tracked, new_custom1_state}
use xgc2_multirotor_controll.Tracking.Local.{Sign}
use xgc2_multirotor_controll.Tracking.Session.{
  Strategies, custom1_on_enter, custom1_on_tick, custom1_on_exit,
}
use xgc2_multirotor_controll.Tracking.Wake.{custom1_next_wake}

module _ {F A B L : Type 0} where
  -- the leaf after a call, which may have thrown
  abbrev pub after_call :
      Option (Tracked F A B L) → Controller F → Option (Custom1State F A B L) × Controller F
  after_call none c = (none, c)
  after_call (some t) c = (some t.0, t.1)

  abbrev calling :
      (Custom1State F A B L → Controller F → Option (Tracked F A B L))
      → Option (Custom1State F A B L)
      → Controller F
      → Option (Custom1State F A B L) × Controller F
  calling step leaf c = after_call (leaf >>= λ s. step s c) c

module _ {F A B L : Type 0} ⦃d : Double F⦄ ⦃b : FlagBits⦄ ⦃g : Sign F⦄ where
  unfoldable pub tracking_leaf : Strategies F A B L → Custom1 F (Option (Custom1State F A B L))
  tracking_leaf strategies = record {
    create = some (
        new_custom1_state strategies.dfbc_strategy.create strategies.smc_strategy.create
          strategies.px4_local_raw_strategy.create);
    on_enter = calling (λ s c. custom1_on_enter strategies s c);
    on_tick = calling (λ s c. custom1_on_tick strategies s c);
    on_exit = calling (λ s c. some (custom1_on_exit strategies s c));
    next_wake =
        λ leaf c. leaf >>= (λ s. custom1_next_wake strategies.dfbc_strategy s c) >>= (λ due. due);
  }
