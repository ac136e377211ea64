-- ===== src/Sched/Push.antt =====
-- src/scheduling/: a push into one of a policy's queues, and the pop of the central policies.
use mir_dev.Base.{
  ◌==◌, ◌>>=◌, length, set, add32, count, nth, nth-lt, set_same, total-set, All-nth, All-set, ℕ,
  suc, ◌+◌, ◌<◌, ◌≡◌, refl, ◌≢◌, ◌⊎◌, inl, inr, Bool, true, false, Option, some, [], ◌∷◌, arith,
  ℕ_discrete,
}
use mir_dev.Worker.Stats.{count_created, count_inlined}
use mir_dev.Sched.{Container, State, counted, push_to, push_central, push_ws, pop_central}
use mir_dev.Sched.Visit.{IsValid, times, Taken, counted_queues, visit_empty, visit_task}

module _ {Q : Type 0} (c : Container Q) (execute : ℕ → State Q → Option (State Q)) where
  -- The queue refuses the task, which `mir_task_execute` gets with the state as it was.
  abbrev pub Inlined : State Q → ℕ → ℕ → ℕ → Option (State Q × Bool) → Type 0
  Inlined s i worker task r =
      (q : Q) × (nth s.queues i ≡ some q)
      × (c.enqueue q task ≡ some (q, false))
      × (r ≡ (execute task s >>= λ s'. some (counted count_inlined worker s', false)))

  -- A task more waits, and nothing else changed.
  pub record Added (s s' : State Q) (task : ℕ) : Type 0 where
    pub valid : IsValid c s'
    pub private_same : s'.private_queues ≡ s.private_queues
    pub once_more : (x : ℕ) → times c x s' ≡ times c x s + count x (task ∷ [])

  abbrev grown : State Q → ℕ → ℕ → Q → State Q
  grown s i worker q' =
      counted count_created worker
        (record s { queues = set s.queues i q'; num_tasks_waiting = add32 s.num_tasks_waiting 1 })

  Added-grown :
      (s : State Q) (i worker task : ℕ) (q q' : Q)
      → IsValid c s
      → nth s.queues i ≡ some q
      → c.IsValid q'
      → ((x : ℕ) → count x (c.held q') ≡ count x (c.held q) + count x (task ∷ []))
      → c.size_of q' ≡ suc (c.size_of q)
      → Added s (grown s i worker q') task
  Added-grown s i worker task q q' v e valid more size =
      let s' : State Q = record s {
        queues = set s.queues i q';
        num_tasks_waiting = add32 s.num_tasks_waiting 1;
      } in
      let same = counted_queues c count_created worker s' in
      let grows = total-set c.size_of s.queues i q q' e in
      record {
        valid = record {
          each = rw same.0 (All-set c.IsValid s.queues i q' v.each valid);
          each_private = rw same.1 v.each_private;
          waiting = rw (same.0, same.1, same.2) (omega (arith, v.waiting));
        };
        private_same = same.1;
        once_more = λ x. rw same.0 (
            let t = total-set (λ r. count x (c.held r)) s.queues i q q' e in
            let m = more x in omega arith);
      }

  pub push_to_lem :
      (i : ℕ) (s : State Q) (worker task : ℕ)
      → IsValid c s
      → i < length s.queues
      → task ≢ 0
      → Inlined s i worker task (push_to c execute i s worker task)
        ⊎ ((s' : State Q) × (push_to c execute i s worker task ≡ some (s', true)) × Added s s' task)
  unfolding push_to
  push_to_lem i s worker task v p is_task =
      let (q, e) = nth-lt s.queues i p in
      let t : (task == 0) ≡ false = ground arith in
      elim (c.enqueue_lem q task (All-nth c.IsValid s.queues i q v.each e) is_task) [
        | inl full ↦ inl (q, e, full, rw (t, e, full, set_same s.queues i q e) refl)
        | inr (q', took, valid, more, size) ↦ inr (
          grown s i worker q',
          rw (t, e, took) refl,
          Added-grown s i worker task q q' v e valid more size,
        )
      ]

  -- `push_central` with at least one queue, in a valid state and for a task that is not NULL: if
  -- queue 0 refuses the task, the task is executed at once in the unchanged state and counted as
  -- inlined, and 0 returned; else 1 is returned, the tasks in the queues are one more of that task,
  -- `g_num_tasks_waiting` counts it and the state stays valid.
  pub push_central_lem :
      (s : State Q) (worker task : ℕ)
      → IsValid c s
      → 0 < length s.queues
      → task ≢ 0
      → Inlined s 0 worker task (push_central c execute s worker task)
        ⊎ ((s' : State Q) × (push_central c execute s worker task ≡ some (s', true))
            × Added s s' task)
  unfolding push_central
  push_central_lem s worker task v p is_task = push_to_lem 0 s worker task v p is_task

  -- `push_ws` of a worker with a queue of its own, in a valid state and for a task that is not NULL:
  -- if its queue refuses the task, the task is executed at once in the unchanged state and counted
  -- as inlined, and 0 returned; else 1 is returned, the tasks in the queues are one more of that
  -- task, `g_num_tasks_waiting` counts it and the state stays valid.
  pub push_ws_lem :
      (s : State Q) (worker task : ℕ)
      → IsValid c s
      → worker < length s.queues
      → task ≢ 0
      → Inlined s worker worker task (push_ws c execute s worker task)
        ⊎ ((s' : State Q) × (push_ws c execute s worker task ≡ some (s', true)) × Added s s' task)
  unfolding push_ws
  push_ws_lem s worker task v p is_task = push_to_lem worker s worker task v p is_task

-- `pop_central` with at least one queue, in a valid state: if queue 0 is empty, no task is returned
-- and nothing changes; else a task is taken from queue 0 by the queue's own operation, no other
-- queue changes, the tasks in the queues are one less of that task, `g_num_tasks_waiting` counts it
-- no more and the state stays valid.
pub pop_central_lem :
    {Q : Type 0} (c : Container Q) (s : State Q) (worker : ℕ)
    → IsValid c s
    → 0 < length s.queues
    → (q : Q) × (nth s.queues 0 ≡ some q)
      × (((c.size_of q ≡ 0) × (pop_central c s worker ≡ some (s, 0)))
          ⊎ ((s' : State Q) × (task : ℕ) × (pop_central c s worker ≡ some (s', task))
              × Taken c s s' 0 task))
unfolding pop_central
pop_central_lem c s worker v p =
    let (q, e) = nth-lt s.queues 0 p in
    (
      q,
      e,
      elim (ℕ_discrete (c.size_of q) 0) [
        | yes z ↦ inl (z, visit_empty c s worker 0 true q e z)
        | no full ↦ inr (visit_task c s worker 0 true q v e full)
      ],
    )
