-- ===== src/Time/Sums.antt =====
-- common/time.h: the difference of two stamps, and a stamp plus a duration.
use xgc2_multirotor_controll.Prelude.{ℕ, ◌*◌, ◌%◌, ◌^◌, ◌+◌, ◌<◌, ◌≤◌, ◌≡◌, ◌∙◌, some, arith}
use xgc2_multirotor_controll.Prelude.Int.{
  ℤ, pos, negsuc, ◌+ℤ◌, ◌*ℤ◌, ◌≤ℤ◌, quot, rem, sub_ℕ, +ℤ_parts, -ℤ_parts, eq_of_parts,
}
use xgc2_multirotor_controll.Time.{
  Duration, Stamp, giga, u32_mod, i32_min, i32_max, stamp_ns, duration_ns, stamp_sub, stamp_add,
  normalize_unsigned, IsCanonical, signed64, unsigned64,
}
use xgc2_multirotor_controll.Time.Bounds.{
  IsNormal, duration_of_ns_exact, duration_of_ns_total, signed64_difference, quot-rem-giga,
  *ℤ_giga_parts,
}

stamp_ns_lt : (t : Stamp) → IsCanonical t → stamp_ns t < 2 ^ 63
unfolding stamp_ns
stamp_ns_lt t c = omega arith

-- The difference of two canonical stamps, where it is returned, is a normalized duration with the
-- difference of the two counts, whichever stamp is later.
pub stamp_sub_exact :
    (a b : Stamp) {r : Duration}
    → IsCanonical a
    → IsCanonical b
    → stamp_sub a b ≡ some r
    → IsNormal r × (duration_ns r ≡ sub_ℕ (stamp_ns a) (stamp_ns b))
unfolding stamp_sub
stamp_sub_exact a b ca cb h =
    let diff =
      signed64_difference (stamp_ns a) (stamp_ns b) (stamp_ns_lt a ca) (stamp_ns_lt b cb) in
    duration_of_ns_exact _ (rw diff at h)

-- The difference of two canonical stamps is returned, and nothing thrown, where the first is less than
-- 2^31 seconds after the second and at most 2^31 seconds before it.
pub stamp_sub_total :
    (a b : Stamp)
    → IsCanonical a
    → IsCanonical b
    → stamp_ns a < stamp_ns b + 2 ^ 31 * giga
    → stamp_ns b ≤ stamp_ns a + 2 ^ 31 * giga
    → (r : Duration) × (stamp_sub a b ≡ some r)
unfolding stamp_sub
stamp_sub_total a b ca cb after before =
    let diff =
      signed64_difference (stamp_ns a) (stamp_ns b) (stamp_ns_lt a ca) (stamp_ns_lt b cb) in
    rw diff (
      duration_of_ns_total (sub_ℕ (stamp_ns a) (stamp_ns b)) (ground (arith, before))
        (ground (arith, after)))

-- An unsigned sum with a 32-bit signed number, read as signed, is their sum.
signed64_sum :
    (n : ℕ) (z : ℤ)
    → n < u32_mod
    → i32_min ≤ℤ z
    → z ≤ℤ i32_max
    → signed64 ((n + unsigned64 z) % 2 ^ 64) ≡ pos n +ℤ z
unfolding signed64 unsigned64 ◌+ℤ◌
signed64_sum n (pos m) h lo hi = ground arith
signed64_sum n (negsuc m) h lo hi = ground arith

normalize_unsigned_total :
    (s ns : ℤ) (u : Stamp)
    → IsCanonical u
    → s *ℤ pos giga +ℤ ns ≡ pos (stamp_ns u)
    → normalize_unsigned s ns ≡ some u
unfolding normalize_unsigned stamp_ns
normalize_unsigned_total s ns u c e =
    let part = rem ns giga in
    let whole = s +ℤ quot ns giga in
    ground (
      arith,
      quot-rem-giga ns,
      +ℤ_parts s (quot ns giga),
      +ℤ_parts part (pos giga),
      -ℤ_parts whole (pos 1),
      *ℤ_giga_parts s,
      +ℤ_parts (s *ℤ pos giga) ns,
    )

total_of_sums :
    (t : Stamp) (r : Duration)
    → (pos t.sec +ℤ r.sec) *ℤ pos giga +ℤ (pos t.nsec +ℤ r.nsec) ≡ pos (stamp_ns t) +ℤ duration_ns r
unfolding stamp_ns duration_ns
total_of_sums t r =
    let sec_sum = pos t.sec +ℤ r.sec in
    let nsec_sum = pos t.nsec +ℤ r.nsec in
    omega (
      arith,
      +ℤ_parts (pos t.sec) r.sec,
      +ℤ_parts (pos t.nsec) r.nsec,
      *ℤ_giga_parts sec_sum,
      *ℤ_giga_parts r.sec,
      +ℤ_parts (sec_sum *ℤ pos giga) nsec_sum,
      +ℤ_parts (r.sec *ℤ pos giga) r.nsec,
      +ℤ_parts (pos (t.sec * giga + t.nsec)) (r.sec *ℤ pos giga +ℤ r.nsec),
      eq_of_parts (sec_sum *ℤ pos giga +ℤ nsec_sum)
          (pos (t.sec * giga + t.nsec) +ℤ (r.sec *ℤ pos giga +ℤ r.nsec)),
    )

-- A canonical stamp plus a normalized duration is the canonical stamp whose count is the sum of the
-- two counts, for a negative duration too, wherever a stamp has that count.
pub stamp_add_exact :
    (t : Stamp) (r : Duration) (u : Stamp)
    → IsCanonical t
    → IsNormal r
    → IsCanonical u
    → pos (stamp_ns t) +ℤ duration_ns r ≡ pos (stamp_ns u)
    → stamp_add t r ≡ some u
unfolding stamp_add
stamp_add_exact t r u ct nr cu e =
    rw
      (
        signed64_sum t.sec r.sec (omega arith) (omega arith) (omega arith),
        signed64_sum t.nsec r.nsec (omega arith) (omega arith) (omega arith),
      )
      (normalize_unsigned_total _ _ u cu (total_of_sums t r ∙ e))

-- Adding a difference back: where the difference of two canonical stamps is returned, the second plus
-- that difference is the first.
pub stamp_add-stamp_sub :
    (a b : Stamp) {r : Duration}
    → IsCanonical a
    → IsCanonical b
    → stamp_sub a b ≡ some r
    → stamp_add b r ≡ some a
stamp_add-stamp_sub a b {r} ca cb h =
    let (normal, count) = stamp_sub_exact a b ca cb h in
    stamp_add_exact b r a cb normal ca (
      rw count (
        ground (
          arith,
          +ℤ_parts (pos (stamp_ns b)) (sub_ℕ (stamp_ns a) (stamp_ns b)),
          eq_of_parts (pos (stamp_ns b) +ℤ sub_ℕ (stamp_ns a) (stamp_ns b)) (pos (stamp_ns a)),
        )))
