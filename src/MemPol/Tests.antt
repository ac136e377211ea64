-- ===== src/MemPol/Tests.antt =====
-- The theorems on memory at a machine of three nodes, and at Gothmog's costs.
use mir_dev.Base.{
  ltb, ◌==◌, if◌then◌else◌, ℕ, suc, ◌+◌, ◌≤◌, ◌<◌, ◌≡◌, refl, true, false, some, List, [], ◌∷◌,
  arith,
}
use mir_dev.Arch.Gothmog as G
use mir_dev.MemPol.{get_node_of, get_node_from_system}
use mir_dev.MemPol.Alloc.{coarse, MemPol, Machine, allocate, release, has, advance}
use mir_dev.MemPol.Cost.{get_mem_node_dist_lem, get_comm_cost_bounds}
use mir_dev.MemPol.Dist.{add_at, get_mem_node_dist, get_comm_cost, by_pages, page_loop}
use mir_dev.MemPol.Node.{step_on, steps, Unused, advance_next}
use mir_dev.MemPol.Pages.{Adds}
use mir_dev.MemPol.Round.{allocate_round}

abbrev machine : Machine
machine = record {
  init_time = 77;
  num_nodes = 3;
  page_size = 4096;
  worker_nodes = 0 ∷ 2 ∷ [];
  own_node = 0;
  alloc = λ policy sz. some 8192;
  system = λ addr. 1;
}

abbrev at_zero : MemPol
at_zero = record { node = 0; total_allocated = 0; policy = coarse; resets = true; headers = [] }

-- The offsets up to 8191 are on node 0, the others on node 2.
counts :
    by_pages (λ i. some (if ltb i 8192 then 0 else 2)) 3 4096 (0 ∷ 0 ∷ 0 ∷ []) 10000
    ≡ some (8192 ∷ 0 ∷ 1808 ∷ [])
unfolding by_pages page_loop add_at
counts = refl

advance_next_example :
    (k : ℕ) × (k < 3)
    × (advance 3 3 (0 ∷ 2 ∷ []) 0 ≡ some (step_on 3 0 (suc k)))
    × (has (step_on 3 0 (suc k)) (0 ∷ 2 ∷ []) ≡ true)
    × Unused (0 ∷ 2 ∷ []) (steps 3 0 k)
advance_next_example =
    advance_next 3 0 2 (0 ∷ 2 ∷ []) (omega arith) (omega arith) (omega arith) refl

allocate_round_example :
    (m' : MemPol) × (j : ℕ) × (allocate machine at_zero 100 ≡ some (m', 8224))
    × (j < 3)
    × (m'.node ≡ step_on 3 0 (suc j))
    × (has m'.node (0 ∷ 2 ∷ []) ≡ true)
    × Unused (0 ∷ 2 ∷ []) (steps 3 0 j)
    × (get_mem_node_dist 77 m'.headers machine.system 3 4096 (0 ∷ 0 ∷ 0 ∷ []) 8224 8 0
        ≡ add_at (0 ∷ 0 ∷ 0 ∷ []) 0 8)
    × (release m' 8224 100 ≡ some (record at_zero { node = m'.node }))
allocate_round_example =
    allocate_round machine at_zero 100 8192 2 8 (0 ∷ 0 ∷ 0 ∷ []) refl (omega arith) refl
      (omega arith) (omega arith) (omega arith) (omega arith) refl (omega arith)

known_pages :
    (i : ℕ)
    → i < 10000
    → (n : ℕ) × (get_node_of (λ addr. 1) 3 [] 4096 (4096 + i) 0 ≡ some n) × (n < 3)
unfolding get_node_of get_node_from_system
known_pages i p = let t : (4096 + i == 0) ≡ false = ground arith in (1, rw t refl, omega arith)

get_mem_node_dist_lem_example :
    (dist' : List ℕ) × (get_mem_node_dist 77 [] (λ addr. 1) 3 4096 (0 ∷ 5 ∷ 0 ∷ []) 4096 10000 0
      ≡ some dist')
    × Adds (0 ∷ 5 ∷ 0 ∷ []) dist' 10000
get_mem_node_dist_lem_example =
    get_mem_node_dist_lem 77 3 4096 4096 10000 0 [] (λ addr. 1) tt known_pages (omega arith)
      (omega arith) (omega arith) (omega arith) (0 ∷ 5 ∷ 0 ∷ []) refl (omega arith)

gothmog_costs : (n : ℕ) → (10 ≤ G.comm_cost_of 1 n) × (G.comm_cost_of 1 n ≤ 22)
unfolding G.comm_cost_of
gothmog_costs n = ground arith

get_comm_cost_bounds_example :
    (comm_cost : ℕ) × (get_comm_cost G.comm_cost_of (100 ∷ 0 ∷ 50 ∷ []) 1 ≡ some comm_cost)
    × (1500 ≤ comm_cost)
    × (comm_cost ≤ 3300)
get_comm_cost_bounds_example =
    get_comm_cost_bounds G.comm_cost_of 10 22 1 (100 ∷ 0 ∷ 50 ∷ []) gothmog_costs (omega arith)
      (omega arith)
