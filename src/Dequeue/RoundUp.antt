-- ===== src/Dequeue/RoundUp.antt =====
-- roundUp2 of src/mir_dequeue.c: the power of two above a size.
use mir_dev.Base.{
  ◌==◌, u32_mod, ℕ, zero, suc, ◌*◌, ◌/◌, ◌%◌, ◌^◌, ◌≤◌, ◌<◌, ◌≡◌, ap, ◌≢◌, false, some, arith,
  ℕ_discrete,
}
use native.Mathlib.Nat.{pow-suc, mul-le-mul_left, mul_assoc}
use mir_dev.Dequeue.{round_loop, round_up2}

no_wrap :
    (val rounded : ℕ)
    → 0 < val
    → rounded * (2 * val) < u32_mod
    → rounded * 2 % u32_mod ≡ rounded * 2
no_wrap val rounded p w =
    let low : rounded * 2 ≤ rounded * (2 * val) = mul-le-mul_left rounded (omega arith) in
    omega arith

halved : (val : ℕ) → 2 * (2 * (val / 2)) ≤ 2 * val
halved val = omega arith

more_test : (val : ℕ) → val / 2 ≢ 0 → (val / 2 == 0) ≡ false
more_test val h = ground arith

scale : (rounded k : ℕ) → rounded * 2 * 2 ^ k ≡ rounded * 2 ^ suc k
scale rounded k = omega (arith, ap (λ (t : ℕ). rounded * t) (pow-suc 2 k))

round_more :
    (fuel val rounded k : ℕ)
    → val / 2 ≢ 0
    → rounded * 2 % u32_mod ≡ rounded * 2
    → round_loop fuel (val / 2) (rounded * 2) ≡ some (rounded * 2 * 2 ^ k)
    → round_loop (suc fuel) val rounded ≡ some (rounded * 2 ^ suc k)
unfolding round_loop
round_more fuel val rounded k more twice e =
    rw (more_test val more, twice, e) (ap some (scale rounded k))

-- In the loop `rounded` is multiplied by two for each binary digit of `val`.
round_loop_lem :
    (fuel val rounded : ℕ)
    → 0 < val
    → val < 2 ^ fuel
    → rounded * (2 * val) < u32_mod
    → 0 < rounded
    → (k : ℕ) × (round_loop fuel val rounded ≡ some (rounded * 2 ^ k))
      × (val < 2 ^ k)
      × (2 ^ k ≤ 2 * val)
unfolding round_loop
round_loop_lem zero val rounded p h w r = absurd (omega arith)
round_loop_lem (suc fuel) val rounded p h w r = elim (ℕ_discrete (val / 2) 0) [
  | yes last ↦
      let one : val ≡ 1 = omega arith in
      (1, rw last (ap some (no_wrap val rounded p w)), omega arith, omega arith)
  | no more ↦
      let (k, e, lo, hi) =
        round_loop_lem fuel (val / 2) (rounded * 2) (omega arith) (omega (arith, pow-suc 2 fuel))
          (omega (arith, mul-le-mul_left rounded (halved val), mul_assoc rounded 2 (2 * (val / 2))))
          (omega arith) in
      (
        suc k,
        round_more fuel val rounded k more (no_wrap val rounded p w) e,
        omega (arith, pow-suc 2 k),
        omega (arith, pow-suc 2 k),
      )
]

-- For a size that is not 0 and below 2^31, `roundUp2` ends within the 32 rounds and returns the
-- power of two that is greater than the size and at most twice it.
pub round_up2_lem :
    (val : ℕ)
    → 0 < val
    → val < 2 ^ 31
    → (k : ℕ) × (round_up2 val ≡ some (2 ^ k)) × (val < 2 ^ k) × (2 ^ k ≤ 2 * val)
unfolding round_up2
round_up2_lem val p h =
    let (k, e, lo, hi) = round_loop_lem 32 val 1 p (omega arith) (omega arith) (omega arith) in
    (k, ground (arith, e), lo, hi)
