-- ===== src/Lifter/Masks.antt =====
-- control/trajectory_lifter.h: the type masks, over all 16-bit values.
use Prim.Native.Nat.{bit_and}
use xgc2_multirotor_controll.Prelude.{
  ℕ, zero, suc, ◌+◌, ◌-◌, ◌*◌, ◌^◌, ◌<◌, ◌≡◌, refl, sym, Bool, ltb, true, false, not, ◌&&◌, ◌==◌,
  arith, if◌then◌else◌, Bool-cases, inl, inr,
}
use native.Mathlib.Nat.{pow-suc, pow-zero}
use xgc2_multirotor_controll.Lifter.{
  position_target_ignored, smc_mask_supplies_world_pva, lifted_mask, ignore_px, ignore_py,
  ignore_pz, ignore_vx, ignore_vy, ignore_vz, ignore_afx, ignore_afy, ignore_afz, force_bit,
  ignore_yaw, ignore_yaw_rate,
}

-- A check of every value below a power of two, by halves.
all_from : ℕ → ℕ → (ℕ → Bool) → Bool
all_from zero base p = p base
all_from (suc k) base p = all_from k base p && all_from k (base + 2 ^ k) p

all_from_sound :
    (k base n : ℕ) (p : ℕ → Bool) → all_from k base p ≡ true → n < 2 ^ k → p (base + n) ≡ true
unfolding all_from
all_from_sound zero base n p h lt = let e : base + n ≡ base = omega (arith, pow-zero 2) in rw e h
all_from_sound (suc k) base n p h lt = elim (Bool-cases (ltb n (2 ^ k))) [
  | inl low ↦ all_from_sound k base n p (ground (arith, h)) (ground (arith, low))
  | inr high ↦
      let size : 2 ^ suc k ≡ 2 ^ k * 2 = pow-suc 2 k in
      let e : base + n ≡ base + 2 ^ k + (n - 2 ^ k) = ground (arith, high) in
      rw e (
        all_from_sound k (base + 2 ^ k) (n - 2 ^ k) p (ground (arith, h))
          (ground (arith, high, size)))
]

-- Nine axes and the force bit, one at a time.
abbrev pub supplies_each_axis : ℕ → Bool
supplies_each_axis m =
    not (position_target_ignored m ignore_px)
    && not (position_target_ignored m ignore_py)
    && not (position_target_ignored m ignore_pz)
    && not (position_target_ignored m ignore_vx)
    && not (position_target_ignored m ignore_vy)
    && not (position_target_ignored m ignore_vz)
    && not (position_target_ignored m ignore_afx)
    && not (position_target_ignored m ignore_afy)
    && not (position_target_ignored m ignore_afz)
    && not (position_target_ignored m force_bit)

abbrev same : Bool → Bool → Bool
same true b = b
same false b = not b

same-eq : (a b : Bool) → same a b ≡ true → a ≡ b
same-eq true b h = sym h
same-eq false true h = cc
same-eq false false h = refl

supplies_table :
    all_from 16 0 (λ m. same (smc_mask_supplies_world_pva m) (supplies_each_axis m)) ≡ true
unfolding all_from smc_mask_supplies_world_pva position_target_ignored
supplies_table = refl

all_16 : (p : ℕ → Bool) (n : ℕ) → all_from 16 0 p ≡ true → n < 2 ^ 16 → p n ≡ true
all_16 p n h lt = let e : n ≡ 0 + n = omega arith in rw e (all_from_sound 16 0 n p h lt)

-- SMC takes a 16-bit mask exactly when the mask ignores none of the three position, three velocity and
-- three acceleration axes, and does not make the acceleration a force.
pub smc_mask_exact : (m : ℕ) → m < 2 ^ 16 → smc_mask_supplies_world_pva m ≡ supplies_each_axis m
smc_mask_exact m h =
    same-eq (smc_mask_supplies_world_pva m) (supplies_each_axis m)
      (all_16 (λ m. same (smc_mask_supplies_world_pva m) (supplies_each_axis m)) m supplies_table h)

abbrev mask_checks : ℕ → Bool
mask_checks m =
    let off = lifted_mask m m false in
    let on = lifted_mask m m true in
    (bit_and off 0x3ff == bit_and m 0x3ff)
    && (bit_and on 0x3ff == bit_and m 0x3ff)
    && position_target_ignored off ignore_yaw
    && position_target_ignored off ignore_yaw_rate
    && not (position_target_ignored on ignore_yaw)

mask_table : all_from 16 0 mask_checks ≡ true
unfolding all_from lifted_mask position_target_ignored
mask_table = refl

lifted_mask_selected :
    (m default_mask : ℕ) (yaw : Bool)
    → lifted_mask m default_mask yaw
      ≡ (let n = if m == 0 then default_mask else m in lifted_mask n n yaw)
unfolding lifted_mask
lifted_mask_selected m default_mask yaw = ground arith

-- The lifted setpoint's mask keeps the ten position, velocity, acceleration and force bits of the
-- sample's mask, or of the default mask where that is 0. With yaw control off it ignores yaw and yaw
-- rate; with yaw control on it does not ignore yaw.
pub lifted_mask_bits :
    (m default_mask : ℕ)
    → m < 2 ^ 16
    → default_mask < 2 ^ 16
    → let n = if m == 0 then default_mask else m in
      let off = lifted_mask m default_mask false in
      let on = lifted_mask m default_mask true in
      (bit_and off 0x3ff ≡ bit_and n 0x3ff)
      × (bit_and on 0x3ff ≡ bit_and n 0x3ff)
      × (position_target_ignored off ignore_yaw ≡ true)
      × (position_target_ignored off ignore_yaw_rate ≡ true)
      × (position_target_ignored on ignore_yaw ≡ false)
lifted_mask_bits m default_mask h k =
    let n = if m == 0 then default_mask else m in
    rw (lifted_mask_selected m default_mask false, lifted_mask_selected m default_mask true)
      (ground (arith, all_16 mask_checks n mask_table (ground arith)))
