-- ===== src/Sched/WsDe.antt =====
-- src/scheduling/mir_sched_pol_ws_de.c and src/scheduling/mir_sched_pol_ws_de_node.c: each worker has
-- a work-stealing deque. The flag `taken` of a task keeps a task from being taken twice.
pub mod Take
pub mod Push
pub mod Find
pub mod Node
mod Tests
use mir_dev.Base.{
  ltb, leb, ◌==◌, if◌then◌else◌, ltb→lt, lt→ltb, leb→le, ==_iff, Bool-cases, Option-cases, ◌>>=◌,
  ◌>>◌, assert, length, get_or, set, replicate, length-append, length_zero, length-replicate,
  length-set, get_or-set_self, get_or-set_ne, AllSet, AllSet-snoc, AllSet-init, AllSet-cons, All,
  u16_mod, u32_mod, u64_mod, add16, add32, sub32, add64, sub64, all_below, all_below_lem, count,
  count-append, nth, update, total, length-update, nth-lt, nth-bound, nth-set_self, set_same,
  nth-set_ne, total-set, total-update, le-total, All-nth, All-set, All-intro, ℕ, zero, suc, ◌+◌,
  ◌-◌, ◌*◌, ◌/◌, ◌%◌, ◌^◌, ◌≤◌, ◌<◌, min, max, ◌≡◌, refl, sym, ap, ap₂, subst, ◌∙◌, ◌≢◌, ◌↔◌, ◌⊎◌,
  inl, inr, Bool, true, false, not, ◌&&◌, ◌||◌, Option, none, some, List, [], ◌∷◌, ◌++◌, map,
  append-nil, append_assoc, arith, dec_lt, ℕ_discrete, mod-add-mod, mod-eq_of_lt, mod-eq-sub-mod,
  add-zero,
}
use mir_dev.Arch.{Arch}
use mir_dev.Dequeue as Dequeue
use mir_dev.Dequeue.{Dequeue, looks_empty, steal}
use mir_dev.Worker.Stats.{count_created, count_owned, count_stolen, count_inlined}
use mir_dev.Sched.{State, counted, pop_from, search}

-- The policy's state, and the tasks whose flag `taken` is set
pub record DequeState : Type 0 where
  pub policy : State Dequeue
  pub taken : ℕ → Bool

-- The owner takes a task at its end of the deque, the others at the other end.
unfoldable pub take_task : Bool → Dequeue → Option (Dequeue × ℕ)
take_task own queue = if own then Dequeue.pop queue else steal (suc queue.size) queue

-- The state after a task has left the queue at `i`, and its flag is set
unfoldable pub mark_taken : DequeState → ℕ → ℕ → Bool → Dequeue → ℕ → DequeState
mark_taken s worker i own queue task =
    let told =
      counted (if own then count_owned else count_stolen) worker
        (record s.policy { queues = set s.policy.queues i queue }) in
    record {
      policy = record told { num_tasks_waiting = sub32 s.policy.num_tasks_waiting 1 };
      taken = λ x. (x == task) || s.taken x;
    }

-- The body of the loops, for the queue at `i`: the task, or NULL if there is none to take.
unfoldable pub visit_deque : Bool → DequeState → ℕ → ℕ → Option (DequeState × ℕ)
visit_deque own s worker i = do
  queue ← nth s.policy.queues i
  if looks_empty queue then some (s, 0) else (do
    (queue', task) ← take_task own queue
    if (task == 0) || s.taken task
        then some
            (record s { policy = record s.policy { queues = set s.policy.queues i queue' } }, 0)
        else some (mark_taken s worker i own queue' task, task))

unfoldable pub pop_ws_de : DequeState → ℕ → Option (DequeState × ℕ)
pop_ws_de s worker =
    let n = length s.policy.queues in
    pop_from (λ s i. visit_deque (i == worker) s worker i) n (n + 1) s worker worker

-- `execute` is `mir_task_execute`.
unfoldable pub push_ws_de :
    (ℕ → DequeState → Option DequeState) → DequeState → ℕ → ℕ → Option (DequeState × Bool)
push_ws_de execute s worker task = do
  assert (not (task == 0))
  queue ← nth s.policy.queues worker
  (queue', pushed) ← Dequeue.push queue task
  let s' = record s.policy { queues = set s.policy.queues worker queue' }
  if pushed
      then some (
        record s {
          policy =
              counted count_created worker
                (record s' { num_tasks_waiting = add32 s'.num_tasks_waiting 1 });
        },
        true,
      )
      else (do
        s'' ← execute task (record s { policy = s' })
        some (record s'' { policy = counted count_inlined worker s''.policy }, false))

-- `push_ws_de_node`
unfoldable pub push_ws_de_node :
    (ℕ → DequeState → Option DequeState) → DequeState → ℕ → ℕ → Option (DequeState × Bool)
push_ws_de_node = push_ws_de

-- `n` numbers from `first` on
abbrev pub up_to : ℕ → ℕ → List ℕ
up_to first zero = []
up_to first (suc n) = first ∷ up_to (first + 1) n

module _ (a : Arch) (worker : ℕ) where
  -- "Worker outside this node, move on."
  unfoldable pub visit_own_node : ℕ → DequeState → ℕ → Option (DequeState × ℕ)
  visit_own_node node s i = do
    other ← a.node_of i
    if node == other then visit_deque (i == worker) s worker i else some (s, 0)

  unfoldable pub visit_node : DequeState → ℕ → Option (DequeState × ℕ)
  visit_node s node = do
    cpus ← a.cpus_of node
    search (λ s cpu. visit_deque false s worker cpu) cpus s

  unfoldable pub visit_hop : ℕ → DequeState → ℕ → Option (DequeState × ℕ)
  visit_hop node s d = search visit_node (a.vicinity_of node d) s

  -- `cpu_id` is the worker's.
  unfoldable pub pop_ws_de_node : DequeState → ℕ → Option (DequeState × ℕ)
  pop_ws_de_node s cpu_id = do
    node ← a.node_of cpu_id
    let n = length s.policy.queues
    (s', task) ← pop_from (visit_own_node node) n (n + 1) s worker worker
    let far = search (visit_hop node) (up_to 1 a.diameter) s'
    if task == 0 then far else some (s', task)
