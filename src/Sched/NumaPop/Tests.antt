-- ===== src/Sched/NumaPop/Tests.antt =====
-- The theorem at a state for a machine with eight nodes.
use mir_dev.Base.{
  replicate, All, ℕ, zero, suc, ◌≡◌, refl, Bool, true, false, Option, none, some, [], ◌∷◌, arith,
}
use mir_dev.Arch.Gothmog as G
use mir_dev.Arch.Gothmog.{gothmog}
use mir_dev.Arch.Consistent.{gothmog-IsConsistent}
use mir_dev.Queue as Ring
use mir_dev.Queue.{Queue}
use mir_dev.Queue.Inv as Inv
use mir_dev.TaskQueue as TaskQueue
use mir_dev.Sched.Fill.{central_queues}
use mir_dev.Sched.Round.{Outcome}
use mir_dev.Sched.WsDe.{up_to}
use mir_dev.Sched.NumaPop.{
  NumaState, lane, set_lane, told, take_over, tell_stolen, alt_loop, pop_at_node, or_else, pop_numa,
}
use mir_dev.Sched.NumaPop.Take.{IsValid}
use mir_dev.Sched.NumaPop.Find.{EmptyOwn, EmptyAlts, NoneNear, FromAny}
use mir_dev.Sched.NumaPop.Order.{pop_numa_lem}

abbrev none_in : Queue
none_in = record { buffer = 0 ∷ 0 ∷ []; capacity = 2; size = 0; in_pos = 0; out_pos = 0 }

-- 8, then 9
abbrev two_in : Queue
two_in = record { buffer = 8 ∷ 9 ∷ []; capacity = 2; size = 2; in_pos = 0; out_pos = 0 }

-- Tasks 8 and 9 are in the alternate queue of node 2.
abbrev start : NumaState Queue
start = record {
  policy = record {
    queues = replicate 8 none_in;
    private_queues = none_in ∷ [];
    num_tasks_waiting = 2;
    statistics = [];
    worker_stats = false;
  };
  alt_queues = none_in ∷ none_in ∷ two_in ∷ replicate 5 none_in;
  comm_cost = λ t. 0;
}

none_in-IsValid : Inv.IsValid none_in
none_in-IsValid = omega arith

two_in-IsValid : Inv.IsValid two_in
two_in-IsValid = omega arith

All-replicate : {A : Type 0} (P : A → Type 0) (n : ℕ) (a : A) → P a → All P (replicate n a)
All-replicate P zero a p = tt
All-replicate P (suc n) a p = (p, All-replicate P n a p)

start-each : (alt : Bool) → All Inv.IsValid (lane alt start)
start-each true = (
  none_in-IsValid,
  (none_in-IsValid, (two_in-IsValid, All-replicate Inv.IsValid 5 none_in none_in-IsValid)),
)
start-each false = All-replicate Inv.IsValid 8 none_in none_in-IsValid

start-IsValid : IsValid central_queues start
unfolding Ring.size_of TaskQueue.size_of
start-IsValid = record { each = start-each; each_private = (none_in-IsValid, tt); waiting = refl }

abbrev no_cost : ℕ → ℕ → Option ℕ
no_cost task node = none

on_node_zero : gothmog.node_of 0 ≡ some 0
unfolding G.node_of
on_node_zero = refl

-- The queues of node 0 are empty, and the alternate queue of node 2 is the first that is not.
finds_eight :
    pop_numa central_queues gothmog no_cost start 0 0
    ≡ some (
      record {
        policy = record start.policy { num_tasks_waiting = 1 };
        alt_queues =
            none_in ∷ none_in ∷ record two_in { size = 1; out_pos = 1 } ∷ replicate 5 none_in;
        comm_cost = λ t. 0;
      },
      8,
    )
unfolding pop_numa pop_at_node or_else take_over alt_loop told set_lane tell_stolen G.node_of
    Ring.size_of Ring.pop
finds_eight = refl

pop_numa_lem_example :
    Outcome
      (pop_numa central_queues gothmog no_cost start 0 0)
      start
      ((EmptyOwn central_queues gothmog 0 start × EmptyAlts central_queues gothmog 0 start)
        × All (NoneNear central_queues gothmog 0 start) (up_to 1 3))
      (FromAny central_queues gothmog 0 start)
pop_numa_lem_example =
    pop_numa_lem central_queues gothmog no_cost 0 0 0 start gothmog-IsConsistent start-IsValid refl
      refl (omega arith) (omega arith) on_node_zero
