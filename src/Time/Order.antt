-- ===== src/Time/Order.antt =====
-- common/time.h: the comparisons of `Time`.
use xgc2_multirotor_controll.Prelude.{◌<◌, ◌≤◌, ◌≡◌, ◌↔◌, true, arith}
use xgc2_multirotor_controll.Time.{Stamp, stamp_ns, stamp_lt, stamp_le, IsCanonical}

-- On canonical stamps the comparisons by seconds and nanoseconds are those of the nanosecond counts.
pub stamp_order :
    (a b : Stamp)
    → IsCanonical a
    → IsCanonical b
    → ((stamp_lt a b ≡ true) ↔ (stamp_ns a < stamp_ns b))
      × ((stamp_le a b ≡ true) ↔ (stamp_ns a ≤ stamp_ns b))
unfolding stamp_lt stamp_le stamp_ns
stamp_order a b ca cb =
    ((λ h. ground arith, λ h. ground arith), (λ h. ground arith, λ h. ground arith))
