-- ===== src/Arch/Vicinity.antt =====
-- src/arch/mir_arch_gothmog.c: the neighbours of a node against the cost of reaching them.
use mir_dev.Base.{
  ◌==◌, if◌then◌else◌, all_below, all_below_lem, count, ℕ, ◌+◌, ◌*◌, ◌/◌, ◌%◌, ◌≤◌, ◌<◌, ◌≡◌, refl,
  ◌≢◌, Bool, true, ◌&&◌, ◌||◌, arith,
}
use mir_dev.Arch.Gothmog.{vicinity_of, near_one, near_two, near_three, comm_cost_of}
use mir_dev.Arch.Tilepro64 as T

abbrev told : ℕ → ℕ → ℕ → ℕ → Bool
told n m d cost = count m (vicinity_of n d) == (if comm_cost_of n m == cost then 1 else 0)

abbrev both_told : ℕ → ℕ → Bool
both_told n m = told n m 2 16 && told n m 3 22

all_told : all_below 8 (λ n. n == 4 || all_below 8 (both_told n)) ≡ true
unfolding all_below near_one near_two near_three vicinity_of comm_cost_of
all_told = refl

told_at : (n : ℕ) → n < 8 → n ≢ 4 → all_below 8 (both_told n) ≡ true
told_at n p h =
    let t = all_below_lem 8 (λ n. n == 4 || all_below 8 (both_told n)) n all_told p in ground arith

-- On Gothmog, for every node n < 8 but node 4 and every node m < 8: `vicinity_of` lists m at the
-- distance 2 once if the cost from n to m is 16 and not at all otherwise, and at the distance 3 once
-- if the cost is 22 and not at all otherwise.
pub vicinity_of-cost :
    (n m : ℕ)
    → n < 8
    → n ≢ 4
    → m < 8
    → (count m (vicinity_of n 2) ≡ (if comm_cost_of n m == 16 then 1 else 0))
      × (count m (vicinity_of n 3) ≡ (if comm_cost_of n m == 22 then 1 else 0))
vicinity_of-cost n m p h q =
    let t : both_told n m ≡ true = all_below_lem 8 (both_told n) m (told_at n p h) q in ground arith

-- On the TILEPro64, for any two different nodes below 64: the cost is the same both ways, it is 38
-- and 2 for each hop of the mesh, and it is at most 38 + 2 · 14, 14 being the diameter of the
-- machine's description.
pub comm_cost_of_bounded :
    (n m : ℕ)
    → n < 64
    → m < 64
    → n ≢ m
    → (T.comm_cost_of n m ≡ T.comm_cost_of m n)
      × (T.comm_cost_of n m ≡ 38 + 2 * (T.gap (n / 8) (m / 8) + T.gap (n % 8) (m % 8)))
      × (T.comm_cost_of n m ≤ 38 + 2 * T.tilepro64.diameter)
unfolding T.comm_cost_of T.hops
comm_cost_of_bounded n m p q h = ground arith
