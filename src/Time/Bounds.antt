-- ===== src/Time/Bounds.antt =====
-- common/time.h: ranges and round trips of the nanosecond counts of `Time` and `Duration`.
use xgc2_multirotor_controll.Prelude.{
  ℕ, ◌*◌, ◌%◌, ◌^◌, ◌+◌, ◌-◌, ◌<◌, ◌≤◌, ◌≡◌, ◌↔◌, none, some, arith, Bool-cases, Option-cases, inl,
  inr, ◌∙◌,
}
use xgc2_multirotor_controll.Prelude.Int.{
  ℤ, pos, negsuc, pos_part, neg_part, ◌+ℤ◌, ◌*ℤ◌, ◌≤ℤ◌, ◌<ℤ◌, quot, rem, sub_ℕ, +ℤ_parts, -ℤ_parts,
  eq_of_parts,
}
use xgc2_multirotor_controll.Time.{
  Duration, Stamp, giga, u32_mod, i32_min, i32_max, stamp_of_ns, stamp_ns, duration_of_ns,
  duration_ns, normalize_signed, IsCanonical, signed64, out_of_i32,
}

pub stamp_of_ns_canonical : (t : Stamp) → IsCanonical t → stamp_of_ns (stamp_ns t) ≡ some t
unfolding stamp_of_ns stamp_ns
stamp_of_ns_canonical t c = ground arith

pub stamp_of_ns_exact :
    (n : ℕ) {t : Stamp} → stamp_of_ns n ≡ some t → IsCanonical t × (stamp_ns t ≡ n)
unfolding stamp_of_ns stamp_ns
stamp_of_ns_exact n h = ground arith

pub stamp_of_ns_refused : (n : ℕ) → (stamp_of_ns n ≡ none) ↔ (u32_mod * giga ≤ n)
unfolding stamp_of_ns
stamp_of_ns_refused n = (λ h. ground arith, λ h. ground arith)

-- A count of nanoseconds converts to a stamp, and back, without loss: the conversion of a canonical
-- stamp's count is that stamp, what a count converts to is canonical and has that count, and a count
-- is refused exactly when it is at least 2^32 seconds.
pub stamp_of_ns_roundtrip :
    ((t : Stamp) → IsCanonical t → stamp_of_ns (stamp_ns t) ≡ some t)
    × ((n : ℕ) (t : Stamp) → stamp_of_ns n ≡ some t → IsCanonical t × (stamp_ns t ≡ n))
    × ((n : ℕ) → (stamp_of_ns n ≡ none) ↔ (u32_mod * giga ≤ n))
stamp_of_ns_roundtrip =
    (stamp_of_ns_canonical, (λ n t. stamp_of_ns_exact n {t = t}), stamp_of_ns_refused)

-- The nanoseconds of a normalized duration are those of a fraction of a second.
pub record IsNormal (r : Duration) : Type 0 where
  pub nsec_ge : pos 0 ≤ℤ r.nsec
  pub nsec_lt : r.nsec <ℤ pos giga
  pub sec_ge : i32_min ≤ℤ r.sec
  pub sec_le : r.sec ≤ℤ i32_max

-- C's division and remainder by a second, through the parts of an integer.
pub quot-rem-giga :
    (t : ℤ)
    → (pos_part (quot t giga) * giga + pos_part (rem t giga) + neg_part t
        ≡ neg_part (quot t giga) * giga + neg_part (rem t giga) + pos_part t)
      × (pos_part (rem t giga) < giga)
      × (neg_part (rem t giga) < giga)
unfolding quot rem
quot-rem-giga (pos n) = ground arith
quot-rem-giga (negsuc n) = ground arith

pub *ℤ_giga_parts :
    (a : ℤ)
    → pos_part (a *ℤ pos giga) + neg_part a * giga ≡ neg_part (a *ℤ pos giga) + pos_part a * giga
unfolding ◌*ℤ◌
*ℤ_giga_parts a = ground arith

normalize_signed_exact :
    (s ns : ℤ) {r : Duration}
    → normalize_signed s ns ≡ some r
    → IsNormal r × (duration_ns r ≡ s *ℤ pos giga +ℤ ns)
unfolding normalize_signed duration_ns
normalize_signed_exact s ns {r} h =
    let part = rem ns giga in
    let whole = s +ℤ quot ns giga in
    ground (
      arith,
      quot-rem-giga ns,
      +ℤ_parts s (quot ns giga),
      +ℤ_parts part (pos giga),
      -ℤ_parts whole (pos 1),
      *ℤ_giga_parts s,
      *ℤ_giga_parts r.sec,
      +ℤ_parts (r.sec *ℤ pos giga) r.nsec,
      +ℤ_parts (s *ℤ pos giga) ns,
      eq_of_parts (r.sec *ℤ pos giga +ℤ r.nsec) (s *ℤ pos giga +ℤ ns),
    )

quot-rem_sum : (t : ℤ) → quot t giga *ℤ pos giga +ℤ rem t giga ≡ t
quot-rem_sum t = omega (
  arith,
  quot-rem-giga t,
  *ℤ_giga_parts (quot t giga),
  +ℤ_parts (quot t giga *ℤ pos giga) (rem t giga),
  eq_of_parts (quot t giga *ℤ pos giga +ℤ rem t giga) t,
)

-- `fromNSec` of a duration keeps the count, for either sign, and leaves a normalized duration.
pub duration_of_ns_exact :
    (t : ℤ) {r : Duration} → duration_of_ns t ≡ some r → IsNormal r × (duration_ns r ≡ t)
unfolding duration_of_ns
duration_of_ns_exact t h = elim (Bool-cases (out_of_i32 (quot t giga))) [
  | inl out ↦ absurd (ground (arith, rw out at h))
  | inr fits ↦
      let (normal, count) = normalize_signed_exact (quot t giga) (rem t giga) (rw fits at h) in
      (normal, count ∙ quot-rem_sum t)
]

-- The unsigned difference of two counts below 2^63, read as signed, is their difference.
pub signed64_difference :
    (x y : ℕ) → x < 2 ^ 63 → y < 2 ^ 63 → signed64 ((x + 2 ^ 64 - y) % 2 ^ 64) ≡ sub_ℕ x y
unfolding signed64
signed64_difference x y hx hy = ground arith

-- The signs of C's division by a second, and a remainder's own.
quot-rem_signs :
    (t : ℤ)
    → (pos_part t ≡ 0 → (pos_part (quot t giga) ≡ 0) × (pos_part (rem t giga) ≡ 0))
      × (neg_part t ≡ 0 → (neg_part (quot t giga) ≡ 0) × (neg_part (rem t giga) ≡ 0))
unfolding quot rem
quot-rem_signs (pos n) = ground arith
quot-rem_signs (negsuc n) = ground arith

-- `fromNSec` of a duration throws nothing for a count of at least -2^31 and less than 2^31 seconds.
pub duration_of_ns_total :
    (t : ℤ)
    → neg_part t ≤ 2 ^ 31 * giga
    → pos_part t < 2 ^ 31 * giga
    → (r : Duration) × (duration_of_ns t ≡ some r)
unfolding duration_of_ns normalize_signed
duration_of_ns_total t low high =
    let sec64 = quot t giga in
    let rest = rem t giga in
    let whole = sec64 +ℤ quot rest giga in
    elim (Option-cases (duration_of_ns t)) [
      | inl thrown ↦ absurd (
          ground (
            arith,
            thrown,
            quot-rem-giga t,
            quot-rem-giga rest,
            quot-rem_signs t,
            quot-rem_signs rest,
            +ℤ_parts sec64 (quot rest giga),
            -ℤ_parts whole (pos 1),
          ))
      | inr (r, e) ↦ (r, e)
    ]
