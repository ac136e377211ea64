-- ===== src/Worker/Tests.antt =====
-- The workers' theorems at concrete states.
use mir_dev.Base.{nth, ℕ, ◌≡◌, refl, ◌≢◌, ◌⊎◌, true, false, Option, some, List, [], ◌∷◌, arith}
use mir_dev.Queue.{Queue}
use mir_dev.Queue.Inv as Inv
use mir_dev.Queue as Ring
use mir_dev.TaskQueue as TaskQueue
use mir_dev.TaskQueue.{TaskQueue}
use mir_dev.Sched.{State}
use mir_dev.Sched.Visit.{IsValid}
use mir_dev.Sched.Fill.{ws_queues}
use mir_dev.Worker.Stats.{init}
use mir_dev.Worker.CommCost.{update_all, Tells, update_all-init}
use mir_dev.Worker.Work.{worker_pop, any_pop}
use mir_dev.Worker.Done.{
  Worker, Shared, Reach, at, settled, pushed, popped, held, push_in, push_count, pop_out, pop_count,
  start, then_step,
}
use mir_dev.Worker.Private.{Moved, worker_pop_oldest, any_pop_private_first}

-- 8, then 9
abbrev two_in : Queue
two_in = record { buffer = 8 ∷ 9 ∷ []; capacity = 2; size = 2; in_pos = 0; out_pos = 0 }

abbrev one : State Queue
one = record {
  queues = [];
  private_queues = two_in ∷ [];
  num_tasks_waiting = 2;
  statistics = [];
  worker_stats = false;
}

two_in-IsValid : Inv.IsValid two_in
two_in-IsValid = omega arith

one-IsValid : IsValid ws_queues one
unfolding Ring.size_of TaskQueue.size_of
one-IsValid = record { each = tt; each_private = (two_in-IsValid, tt); waiting = refl }

worker_pop_oldest_example :
    ((worker_pop one 0 ≡ some (one, 0))
      × (q : TaskQueue) × (nth one.private_queues 0 ≡ some q)
      × (TaskQueue.size_of q ≡ 0))
    ⊎ ((s' : State Queue) × (task : ℕ) × (rest : List ℕ) × (worker_pop one 0 ≡ some (s', task))
        × (task ≢ 0)
        × Moved ws_queues one s' 0 (task ∷ rest) rest)
worker_pop_oldest_example = worker_pop_oldest ws_queues one 0 one-IsValid (omega arith)

-- A policy with no task to give
abbrev no_policy : State Queue → ℕ → Option (State Queue × ℕ)
no_policy s w = some (s, 0)

any_pop_private_first_example :
    ((any_pop no_policy one 0 ≡ no_policy one 0)
      × (q : TaskQueue) × (nth one.private_queues 0 ≡ some q)
      × (TaskQueue.size_of q ≡ 0))
    ⊎ ((s' : State Queue) × (task : ℕ) × (rest : List ℕ) × (any_pop no_policy one 0
          ≡ some (s', task))
        × (task ≢ 0)
        × Moved ws_queues one s' 0 (task ∷ rest) rest)
any_pop_private_first_example =
    any_pop_private_first ws_queues no_policy one 0 one-IsValid (omega arith)

update_all-init_example : Tells (update_all (init 1 true 3) (10 ∷ 23 ∷ [])) 2 33 10 23
update_all-init_example = update_all-init 1 3 true (10 ∷ 23 ∷ []) (omega arith) (omega arith)

abbrev both : List Worker
both = at 0 settled ∷ at 0 settled ∷ []

-- Worker 0 pushes a task.
one_waits : Reach 2 (record { waiting = 1; board = 0; queued = 1; workers = both })
one_waits =
    then_step (then_step start (push_in 0 0 0 both 0 0 refl))
      (push_count 0 0 1 (at 0 pushed ∷ at 0 settled ∷ []) 0 0 refl)

-- Worker 1 has taken it, and still counts it.
abbrev one_popped : Shared
one_popped = record {
  waiting = 1;
  board = 0;
  queued = 0;
  workers = at 0 settled ∷ at 0 popped ∷ [];
}

one_popped-Reach : Reach 2 one_popped
one_popped-Reach = then_step one_waits (pop_out 1 0 0 both 1 0 refl)

-- It has counted it no more, and not counted itself as busy: both counters are 0.
one_held :
    Reach 2 (record { waiting = 0; board = 0; queued = 0; workers = at 0 settled ∷ at 0 held ∷ [] })
one_held = then_step one_popped-Reach (pop_count 1 0 0 (at 0 settled ∷ at 0 popped ∷ []) 1 0 refl)
