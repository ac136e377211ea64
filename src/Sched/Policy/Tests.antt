-- ===== src/Sched/Policy/Tests.antt =====
-- The theorems at concrete policies.
use mir_dev.Base.{ℕ, ◌≡◌, refl, ◌↔◌, true, false, none, some, List, [], ◌∷◌, arith}
use mir_dev.Queue.{Queue}
use mir_dev.Queue as Ring
use mir_dev.Queue.Inv as Inv
use mir_dev.TaskQueue as TaskQueue
use mir_dev.Sched.Fill.{ws_queues, central_queues, central_stacks}
use mir_dev.Sched.Policy.{
  policy_numa, name_of, get_by_name, create_central, create_central_stack, create_ws, create_ws_de,
  create_ws_de_node, create_numa,
}
use mir_dev.Sched.Policy.Name.{get_by_name-name_of}
use mir_dev.Sched.Policy.Start.{ArePrivate, Starts, StartsDeque, StartsNuma, create-Starts}

-- "numa"
abbrev asked : List ℕ
asked = 110 ∷ 117 ∷ 109 ∷ 97 ∷ []

get_by_name-name_of_example :
    (get_by_name true asked ≡ some policy_numa)
    ↔ ((asked ≡ name_of policy_numa) × ((policy_numa ≡ policy_numa) → true ≡ true))
get_by_name-name_of_example = get_by_name-name_of true asked policy_numa

numa_off : get_by_name false asked ≡ none
unfolding get_by_name
numa_off = refl

abbrev empty_queue : Queue
empty_queue = record { buffer = 0 ∷ 0 ∷ []; capacity = 2; size = 0; in_pos = 0; out_pos = 0 }

empty_queue-IsValid : Inv.IsValid empty_queue
empty_queue-IsValid = omega arith

private-ArePrivate : ArePrivate (empty_queue ∷ [])
unfolding TaskQueue.size_of Ring.size_of
private-ArePrivate = ((empty_queue-IsValid, refl), tt)

create-Starts_example :
    Starts central_queues (create_central 32768) 1 (empty_queue ∷ []) [] false
    × Starts central_stacks (create_central_stack 32768) 1 (empty_queue ∷ []) [] false
    × Starts ws_queues (create_ws 32768 4) 4 (empty_queue ∷ []) [] false
    × StartsDeque (create_ws_de 32768 4) 4 (empty_queue ∷ []) [] false
    × StartsDeque (create_ws_de_node 32768 4) 4 (empty_queue ∷ []) [] false
    × StartsNuma (create_numa 32768 4) 4 (empty_queue ∷ []) [] false
create-Starts_example =
    create-Starts 32768 4 (empty_queue ∷ []) [] false (omega arith) (omega arith) private-ArePrivate
