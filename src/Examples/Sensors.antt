-- ===== src/Examples/Sensors.antt =====
-- The statistics of the sensors: two receipts, and an advance over two missed deadlines.
use xgc2_multirotor_controll.Prelude.{◌≡◌, refl, true, some, none, [], ◌∷◌, arith}
use xgc2_multirotor_controll.Prelude.Int.{ℤ, quot, ◌+ℤ◌, rem}
use xgc2_multirotor_controll.Time.{
  Stamp, is_zero, stamp_le, stamp_sub, signed64, duration_of_ns, stamp_of_ns, normalize_signed,
  stamp_ns,
}
use xgc2_multirotor_controll.Statistics.{
  SensorStatistics, imu, new_statistics, observe, advance, stream_index,
}
use xgc2_multirotor_controll.Statistics.Deadlines.{Punctual, advance-Punctual}
use xgc2_multirotor_controll.Statistics.Windows.{Windows}
use xgc2_multirotor_controll.Statistics.Receipts.{constructed, observed, receipts_exact}
use xgc2_multirotor_controll.Examples.FixedPoint.{milli}

abbrev first_receipt : Stamp
first_receipt = record { sec = 1; nsec = 100_000_000 }

abbrev second_receipt : Stamp
second_receipt = record { sec = 1; nsec = 150_000_000 }

abbrev one_received : SensorStatistics ℤ
one_received = elim (observe imu first_receipt new_statistics) [
  | none ↦ new_statistics
  | some s ↦ s
]

abbrev two_received : SensorStatistics ℤ
two_received = elim (observe imu second_receipt one_received) [ none ↦ one_received | some s ↦ s ]

first_observed : observe imu first_receipt new_statistics ≡ some one_received
unfolding observe is_zero
first_observed = refl

second_observed : observe imu second_receipt one_received ≡ some two_received
unfolding observe is_zero stamp_sub duration_of_ns quot signed64 stamp_ns normalize_signed rem ◌+ℤ◌
second_observed = refl

receipts_exact_example :
    Windows 0 two_received.tracks
      ((stream_index imu, first_receipt) ∷ (stream_index imu, second_receipt) ∷ [])
receipts_exact_example =
    receipts_exact ((stream_index imu, first_receipt) ∷ (stream_index imu, second_receipt) ∷ [])
      two_received
      (observed imu second_receipt (observed imu first_receipt constructed first_observed)
        second_observed)

abbrev running : SensorStatistics ℤ
running = record two_received {
  next_stats = record { sec = 1; nsec = 200_000_000 };
  next_heartbeat = record { sec = 2; nsec = 100_000_000 };
  started = true;
}

-- two deadlines of the statistics have been missed
abbrev jumped : Stamp
jumped = record { sec = 1; nsec = 350_000_000 }

abbrev caught_up : SensorStatistics ℤ
caught_up = elim (advance jumped running) [ none ↦ running | some s ↦ s ]

advanced_once : advance jumped running ≡ some caught_up
unfolding advance stamp_le observe is_zero stamp_sub duration_of_ns quot signed64 stamp_ns
    normalize_signed rem ◌+ℤ◌ stamp_of_ns
advanced_once = refl

next_deadline_after : caught_up.next_stats ≡ record { sec = 1; nsec = 400_000_000 }
unfolding advance stamp_le observe is_zero stamp_sub duration_of_ns quot signed64 stamp_ns
    normalize_signed rem ◌+ℤ◌ stamp_of_ns
next_deadline_after = refl

advance-Punctual_example : Punctual jumped running caught_up
advance-Punctual_example =
    advance-Punctual jumped running caught_up
      (record { nsec_lt = omega arith; sec_lt = omega arith })
      (record { nsec_lt = omega arith; sec_lt = omega arith })
      (record { nsec_lt = omega arith; sec_lt = omega arith }) refl advanced_once
