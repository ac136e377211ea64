-- ===== src/Sched/WsDe/Tests.antt =====
-- The theorems at a state with two deques.
use mir_dev.Base.{
  ◌==◌, length, AllSet, All, ℕ, ◌-◌, ◌^◌, ◌≤◌, ◌<◌, ◌≡◌, refl, ◌⊎◌, false, ◌||◌, Option, some, [],
  ◌∷◌, arith,
}
use mir_dev.Arch.OneNode.{firenze, node_of_firenze}
use mir_dev.Arch.Consistent.{firenze-IsConsistent}
use mir_dev.Dequeue.{Dequeue, steal, steal_once, looks_empty}
use mir_dev.Dequeue.Inv.{contents}
use mir_dev.Dequeue.Inv as DequeInv
use mir_dev.Queue.{Queue}
use mir_dev.Queue.Inv as Inv
use mir_dev.Queue as Ring
use mir_dev.TaskQueue as TaskQueue
use mir_dev.Sched.{pop_from, counted}
use mir_dev.Sched.WsDe.{
  DequeState, take_task, mark_taken, visit_deque, pop_ws_de, push_ws_de, up_to, pop_ws_de_node,
}
use mir_dev.Sched.WsDe.Take.{IsValid}
use mir_dev.Sched.WsDe.Push.{Inlined, Added, push_ws_de_lem}
use mir_dev.Sched.WsDe.Find.{Found, pop_ws_de_finds}
use mir_dev.Sched.WsDe.Node.{EmptyAll, EmptyHop, FoundHere, FoundFar, pop_ws_de_node_lem}

abbrev none_in : Dequeue
none_in = record {
  size = 4;
  modulo_size = 3;
  top = 3;
  bottom = 3;
  top_bound = 2;
  elements = 0 ∷ 0 ∷ 0 ∷ 0 ∷ [];
}

-- 7, then 8
abbrev two_in : Dequeue
two_in = record none_in { bottom = 5; elements = 8 ∷ 0 ∷ 0 ∷ 7 ∷ [] }

abbrev empty_queue : Queue
empty_queue = record { buffer = 0 ∷ 0 ∷ []; capacity = 2; size = 0; in_pos = 0; out_pos = 0 }

abbrev start : DequeState
start = record {
  policy = record {
    queues = none_in ∷ two_in ∷ [];
    private_queues = empty_queue ∷ empty_queue ∷ [];
    num_tasks_waiting = 2;
    statistics = [];
    worker_stats = false;
  };
  taken = λ x. x == 6;
}

valid_by_size :
    (q : Dequeue)
    → q.size ≡ 4
    → q.modulo_size ≡ 3
    → length q.elements ≡ 4
    → q.top ≤ q.bottom
    → q.top_bound ≤ q.top
    → q.bottom - q.top < 4
    → q.bottom < 2 ^ 31
    → AllSet (contents q)
    → DequeInv.IsValid q
valid_by_size q a b c d e f g h = record {
  bits = 2;
  size_is = a;
  mask_is = b;
  storage = c;
  positive = omega arith;
  fits = omega arith;
  ordered = d;
  bound_in = e;
  room = omega arith;
  young = g;
  no_null = h;
}

none_in-IsValid : DequeInv.IsValid none_in
none_in-IsValid =
    valid_by_size none_in refl refl refl (omega arith) (omega arith) (omega arith) (omega arith) tt

two_in-IsValid : DequeInv.IsValid two_in
two_in-IsValid =
    valid_by_size two_in refl refl refl (omega arith) (omega arith) (omega arith) (omega arith)
      (omega arith, (omega arith, tt))

empty_queue-IsValid : Inv.IsValid empty_queue
empty_queue-IsValid = omega arith

start-IsValid : IsValid start
unfolding Ring.size_of TaskQueue.size_of
start-IsValid = record {
  each = (none_in-IsValid, (two_in-IsValid, tt));
  each_private = (empty_queue-IsValid, (empty_queue-IsValid, tt));
  waiting = refl;
  single = λ x. ground arith;
  fresh = λ x taken. ground arith;
}

-- Worker 0 finds nothing in its own deque, and steals the oldest task of the other.
steals :
    pop_ws_de start 0
    ≡ some (
      record {
        policy = record start.policy {
          queues = none_in ∷ record two_in { top = 4 } ∷ [];
          num_tasks_waiting = 1;
        };
        taken = λ x. (x == 7) || (x == 6);
      },
      7,
    )
unfolding pop_ws_de pop_from visit_deque take_task mark_taken counted steal steal_once looks_empty
steals = refl

run_now : ℕ → DequeState → Option DequeState
run_now task s = some s

pop_ws_de_finds_example :
    ((pop_ws_de start 0 ≡ some (start, 0)) × All (λ q. contents q ≡ []) start.policy.queues)
    ⊎ Found start (pop_ws_de start 0) 0
pop_ws_de_finds_example = pop_ws_de_finds start 0 start-IsValid (omega arith) (omega arith)

push_ws_de_lem_example :
    Inlined run_now start 1 9 (push_ws_de run_now start 1 9)
    ⊎ Added start 1 9 (push_ws_de run_now start 1 9)
push_ws_de_lem_example =
    push_ws_de_lem run_now start 1 9 two_in start-IsValid refl (omega arith) (omega arith) refl refl

on_node_zero : (i : ℕ) → i < 2 → firenze.node_of i ≡ some 0
unfolding node_of_firenze
on_node_zero i p = ground arith

pop_ws_de_node_lem_example :
    ((pop_ws_de_node firenze 0 start 1 ≡ some (start, 0))
      × EmptyAll firenze 0 0 start
      × All (EmptyHop firenze 0 0 start) (up_to 1 0))
    ⊎ FoundHere firenze 0 0 start (pop_ws_de_node firenze 0 start 1)
    ⊎ FoundFar firenze 0 0 start (pop_ws_de_node firenze 0 start 1)
pop_ws_de_node_lem_example =
    pop_ws_de_node_lem firenze start 0 1 0 firenze-IsConsistent start-IsValid refl (omega arith)
      (omega arith) (omega arith) (on_node_zero 1 (omega arith))
