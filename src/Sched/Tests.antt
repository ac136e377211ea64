-- ===== src/Sched/Tests.antt =====
-- The policies' theorems at a state with three queues.
use mir_dev.Base.{
  get_or, All, u64_mod, nth, ℕ, zero, suc, ◌-◌, ◌≤◌, ◌<◌, ◌≡◌, refl, ◌⊎◌, true, false, Option, some,
  [], ◌∷◌, arith,
}
use mir_dev.Queue as Ring
use mir_dev.Queue.{Queue}
use mir_dev.Queue.Inv as Inv
use mir_dev.TaskQueue as TaskQueue
use mir_dev.Sched.{State, push_ws, push_central, pop_ws, pop_central, pop_from, visit, counted}
use mir_dev.Sched.Visit.{IsValid, Taken}
use mir_dev.Sched.Conserve.{Found, pop_ws_finds}
use mir_dev.Sched.Push.{Inlined, Added, push_central_lem, push_ws_lem, pop_central_lem}
use mir_dev.Sched.Fill.{ws_queues, central_queues}
use mir_dev.Arch.Gothmog as G
use mir_dev.Sched.Numa.{least_cost_worker, least_cost_worker_lem}

abbrev none_in : Queue
none_in = record { buffer = 0 ∷ 0 ∷ []; capacity = 2; size = 0; in_pos = 0; out_pos = 0 }

-- 8, then 9
abbrev two_in : Queue
two_in = record { buffer = 8 ∷ 9 ∷ []; capacity = 2; size = 2; in_pos = 0; out_pos = 0 }

abbrev three : State Queue
three = record {
  queues = none_in ∷ two_in ∷ none_in ∷ [];
  private_queues = none_in ∷ none_in ∷ none_in ∷ [];
  num_tasks_waiting = 2;
  statistics = [];
  worker_stats = false;
}

-- `mir_task_execute` of a task that creates no other
abbrev run_now : ℕ → State Queue → Option (State Queue)
run_now task s = some s

none_in-IsValid : Inv.IsValid none_in
none_in-IsValid = omega arith

two_in-IsValid : Inv.IsValid two_in
two_in-IsValid = omega arith

three-IsValid : IsValid ws_queues three
unfolding Ring.size_of TaskQueue.size_of
three-IsValid = record {
  each = (none_in-IsValid, (two_in-IsValid, (none_in-IsValid, tt)));
  each_private = (none_in-IsValid, (none_in-IsValid, (none_in-IsValid, tt)));
  waiting = refl;
}

three-IsValid_central : IsValid central_queues three
unfolding Ring.size_of TaskQueue.size_of
three-IsValid_central = record {
  each = three-IsValid.each;
  each_private = three-IsValid.each_private;
  waiting = refl;
}

-- Worker 2 goes round to queue 1, and takes its oldest task.
steals :
    pop_ws ws_queues three 2
    ≡ some (
      record three {
        queues = none_in ∷ record two_in { size = 1; out_pos = 1 } ∷ none_in ∷ [];
        num_tasks_waiting = 1;
      },
      8,
    )
unfolding pop_ws pop_from visit counted Ring.pop Ring.size_of
steals = refl

pop_ws_finds_example :
    ((pop_ws ws_queues three 2 ≡ some (three, 0)) × All (λ q. ws_queues.held q ≡ []) three.queues)
    ⊎ Found ws_queues three (pop_ws ws_queues three 2) 2
pop_ws_finds_example = pop_ws_finds ws_queues three 2 three-IsValid (omega arith) (omega arith)

push_central_lem_example :
    Inlined central_queues run_now three 0 1 7 (push_central central_queues run_now three 1 7)
    ⊎ ((s' : State Queue) × (push_central central_queues run_now three 1 7 ≡ some (s', true))
        × Added central_queues run_now three s' 7)
push_central_lem_example =
    push_central_lem central_queues run_now three 1 7 three-IsValid_central (omega arith)
      (omega arith)

push_ws_lem_example :
    Inlined ws_queues run_now three 1 1 7 (push_ws ws_queues run_now three 1 7)
    ⊎ ((s' : State Queue) × (push_ws ws_queues run_now three 1 7 ≡ some (s', true))
        × Added ws_queues run_now three s' 7)
push_ws_lem_example =
    push_ws_lem ws_queues run_now three 1 7 three-IsValid (omega arith) (omega arith)

pop_central_lem_example :
    (q : Queue) × (nth three.queues 0 ≡ some q)
    × (((central_queues.size_of q ≡ 0) × (pop_central central_queues three 1 ≡ some (three, 0)))
        ⊎ ((s' : State Queue) × (task : ℕ) × (pop_central central_queues three 1 ≡ some (s', task))
            × Taken central_queues three s' 0 task))
pop_central_lem_example = pop_central_lem central_queues three 1 three-IsValid_central (omega arith)

-- Workers on the nodes 0, 0, 3 and 1; the data is on node 1.
cost_to_one : ℕ → ℕ
unfolding G.comm_cost_of
cost_to_one m = G.comm_cost_of m 1

small_cost : (m : ℕ) → cost_to_one m < u64_mod - 1
unfolding cost_to_one G.comm_cost_of
small_cost m = ground arith

small_nodes : (j : ℕ) → get_or (0 ∷ 0 ∷ 3 ∷ 1 ∷ []) j 0 < 8
small_nodes zero = omega arith
small_nodes (suc zero) = omega arith
small_nodes (suc (suc zero)) = omega arith
small_nodes (suc (suc (suc zero))) = omega arith
small_nodes (suc (suc (suc (suc j)))) = omega arith

least_cost_worker_lem_example :
    (w : ℕ) × (w < 4)
    × (least_cost_worker (0 ∷ 0 ∷ 3 ∷ 1 ∷ []) cost_to_one 8 1
        ≡ some (some w, cost_to_one (get_or (0 ∷ 0 ∷ 3 ∷ 1 ∷ []) w 0)))
    × All (λ m. cost_to_one (get_or (0 ∷ 0 ∷ 3 ∷ 1 ∷ []) w 0) ≤ cost_to_one m) (0 ∷ 0 ∷ 3 ∷ 1 ∷ [])
least_cost_worker_lem_example =
    least_cost_worker_lem (0 ∷ 0 ∷ 3 ∷ 1 ∷ []) cost_to_one 8 1 (omega arith) small_nodes
      (omega arith) small_cost
