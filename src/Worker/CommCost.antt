-- ===== src/Worker/CommCost.antt =====
-- The communication costs of a worker's statistics, after any number of tasks.
use mir_dev.Base.{
  length, u32_mod, u64_mod, ℕ, suc, ◌+◌, ◌-◌, ◌*◌, ◌/◌, ◌≤◌, ◌<◌, min, max, ◌≡◌, refl, subst, Bool,
  List, [], ◌∷◌, arith, dec_lt, add-zero,
}
use native.Mathlib.Nat.{le-div_iff_mul-le, div-lt_iff_lt-mul}
use mir_dev.Worker.Stats.{Stats, init, update_comm_cost, avg_comm_cost}

abbrev pub update_all : Stats → List ℕ → Stats
update_all s [] = s
update_all s (c ∷ costs) = update_all (update_comm_cost s c) costs

abbrev pub sum : List ℕ → ℕ
sum [] = 0
sum (c ∷ costs) = c + sum costs

abbrev pub fold_min : ℕ → List ℕ → ℕ
fold_min m [] = m
fold_min m (c ∷ costs) = fold_min (min m c) costs

abbrev pub fold_max : ℕ → List ℕ → ℕ
fold_max m [] = m
fold_max m (c ∷ costs) = fold_max (max m c) costs

pub record Tells (s : Stats) (n total low high : ℕ) : Type 0 where
  pub tasks : s.num_comm_tasks ≡ n
  pub cost : s.total_comm_cost ≡ total
  pub lowest : s.lowest_comm_cost ≡ low
  pub highest : s.highest_comm_cost ≡ high

update_comm_cost-Tells :
    (s : Stats) (c n total low high : ℕ)
    → Tells s n total low high
    → n + 1 < u32_mod
    → total + c < u64_mod
    → Tells (update_comm_cost s c) (n + 1) (total + c) (min low c) (max high c)
unfolding update_comm_cost
update_comm_cost-Tells s c n total low high t p q = record {
  tasks = omega (arith, t.tasks);
  cost = omega (arith, t.cost);
  lowest = ground (arith, t.lowest);
  highest = ground (arith, t.highest);
}

update_all-Tells :
    (costs : List ℕ) (s : Stats) (n total low high : ℕ)
    → Tells s n total low high
    → n + length costs < u32_mod
    → total + sum costs < u64_mod
    → Tells
        (update_all s costs)
        (n + length costs)
        (total + sum costs)
        (fold_min low costs)
        (fold_max high costs)
update_all-Tells [] s n total low high t p q = rw (add-zero n, add-zero total) t
update_all-Tells (c ∷ costs) s n total low high t p q =
    let e : n + suc (length costs) ≡ n + 1 + length costs = omega arith in
    let f : total + (c + sum costs) ≡ total + c + sum costs = omega arith in
    rw (e, f)
      (update_all-Tells costs (update_comm_cost s c) (n + 1) (total + c) (min low c) (max high c)
        (update_comm_cost-Tells s c n total low high t (omega arith) (omega arith)) (omega arith)
        (omega arith))

between :
    (costs : List ℕ) (low high : ℕ) → (fold_min low costs ≤ low) × (high ≤ fold_max high costs)
between [] low high = (omega arith, omega arith)
between (c ∷ costs) low high =
    let (p, q) = between costs (min low c) (max high c) in (omega arith, omega arith)

sum-bounds :
    (costs : List ℕ) (low high : ℕ)
    → (length costs * fold_min low costs ≤ sum costs)
      × (sum costs ≤ length costs * fold_max high costs)
sum-bounds [] low high = (omega arith, omega arith)
sum-bounds (c ∷ costs) low high =
    let (p, q) = between costs (min low c) (max high c) in
    let (r, t) = sum-bounds costs (min low c) (max high c) in (omega arith, omega arith)

-- From `mir_worker_statistics_init` on, after any tasks with costs below 2^64, fewer than 2^32 of
-- them and of a sum below 2^64: the counters are the number of the costs, their sum, their minimum
-- and their maximum, of no cost 2^64 - 1 and 0.
pub update_all-init :
    (worker_id diameter : ℕ) (is_numa : Bool) (costs : List ℕ)
    → length costs < u32_mod
    → sum costs < u64_mod
    → Tells
        (update_all (init worker_id is_numa diameter) costs)
        (length costs)
        (sum costs)
        (fold_min (u64_mod - 1) costs)
        (fold_max 0 costs)
unfolding init
update_all-init worker_id diameter is_numa costs p q =
    let t =
      update_all-Tells costs (init worker_id is_numa diameter) 0 0 (u64_mod - 1) 0
        (record { tasks = refl; cost = refl; lowest = refl; highest = refl }) (omega arith)
        (omega arith) in
    record {
      tasks = omega (arith, t.tasks);
      cost = omega (arith, t.cost);
      lowest = t.lowest;
      highest = t.highest;
    }

le_div : (n l s : ℕ) → 0 < n → n * l ≤ s → l ≤ s / n
le_div n l s p h = (le-div_iff_mul-le p).1 (omega arith)

div_le : (n u s : ℕ) → 0 < n → s ≤ n * u → s / n ≤ u
div_le n u s p h = let t : s / n < u + 1 = (div-lt_iff_lt-mul p).1 (omega arith) in omega arith

-- The average that is written to the file of a worker with at least one communication cost, fewer
-- than 2^32 of them and of a sum below 2^64, is between the lowest and the highest cost.
pub avg_comm_cost_between :
    (worker_id diameter : ℕ) (is_numa : Bool) (costs : List ℕ)
    → 0 < length costs
    → length costs < u32_mod
    → sum costs < u64_mod
    → (fold_min (u64_mod - 1) costs
        ≤ avg_comm_cost (update_all (init worker_id is_numa diameter) costs))
      × (avg_comm_cost (update_all (init worker_id is_numa diameter) costs) ≤ fold_max 0 costs)
unfolding avg_comm_cost
avg_comm_cost_between worker_id diameter is_numa costs p q r =
    let t = update_all-init worker_id diameter is_numa costs q r in
    let (low, high) = sum-bounds costs (u64_mod - 1) 0 in
    rw (t.tasks, t.cost)
      (elim (dec_lt 1 (length costs)) [
        | yes many ↦
            let l = le_div (length costs) (fold_min (u64_mod - 1) costs) (sum costs) p low in
            let h = div_le (length costs) (fold_max 0 costs) (sum costs) p high in ground arith
        | no one_only ↦
            let e : length costs ≡ 1 = omega arith in
            let l = subst (λ n. n * fold_min (u64_mod - 1) costs ≤ sum costs) e low in
            let h = subst (λ n. sum costs ≤ n * fold_max 0 costs) e high in ground arith
      ])
