-- ===== src/Arch/Tests.antt =====
-- The theorems on the machine descriptions at concrete nodes, and the neighbours of node 4.
use mir_dev.Base.{◌==◌, if◌then◌else◌, count, ◌≡◌, refl, arith}
use mir_dev.Arch.Gothmog.{vicinity_of, near_one, near_two, near_three, comm_cost_of}
use mir_dev.Arch.Vicinity.{vicinity_of-cost}

-- Node 4 is its own neighbour at the distance 2, and node 6 is none.
vicinity_of_four : (count 4 (vicinity_of 4 2) ≡ 1) × (count 6 (vicinity_of 4 2) ≡ 0)
unfolding vicinity_of near_one near_two near_three
vicinity_of_four = (refl, refl)

vicinity_of-cost_example :
    (count 6 (vicinity_of 2 2) ≡ (if comm_cost_of 2 6 == 16 then 1 else 0))
    × (count 6 (vicinity_of 2 3) ≡ (if comm_cost_of 2 6 == 22 then 1 else 0))
vicinity_of-cost_example = vicinity_of-cost 2 6 (omega arith) (omega arith) (omega arith)
