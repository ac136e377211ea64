-- ===== src/Worker/Private.antt =====
-- src/mir_worker.c: the private queue of a worker, first in, first out.
use mir_dev.Base.{
  ◌==◌, length, set, sub32, nth, nth-lt, total-set, All-nth, All-set, ℕ, suc, ◌<◌, ◌≡◌, refl, sym,
  ap, ap₂, subst, ◌∙◌, ◌≢◌, ◌⊎◌, inl, inr, false, Option, some, List, [], ◌∷◌, arith, ℕ_discrete,
}
use mir_dev.Queue as Ring
use mir_dev.Queue.Fifo
use mir_dev.Queue.Inv.{contents}
use mir_dev.Queue.Inv as Inv
use mir_dev.Queue.Bag.{pop_bag}
use mir_dev.Queue.Refine.{pop_refines}
use mir_dev.TaskQueue as TaskQueue
use mir_dev.TaskQueue.{TaskQueue}
use mir_dev.TaskQueue.Refine.{pop-same}
use mir_dev.Worker.Stats.{count_owned}
use mir_dev.Worker.Work.{worker_pop, any_pop}
use mir_dev.Sched.{Container, State, counted}
use mir_dev.Sched.Visit.{IsValid, counted_queues}

fifo_step : (xs ys : List ℕ) (task : ℕ) → (ys, task) ≡ Fifo.pop xs 0 → task ≢ 0 → xs ≡ task ∷ ys
fifo_step [] ys task e p = absurd (p (ap (λ z. z.1) e))
fifo_step (x ∷ xs) ys task e p = sym (ap₂ ◌∷◌ (ap (λ z. z.1) e) (ap (λ z. z.0) e))

private_out :
    (q : TaskQueue)
    → Inv.IsValid q
    → TaskQueue.size_of q ≢ 0
    → (q' : TaskQueue) × (task : ℕ) × (TaskQueue.pop q ≡ some (q', task))
      × (task ≢ 0)
      × Inv.IsValid q'
      × (contents q ≡ task ∷ contents q')
      × (TaskQueue.size_of q ≡ suc (TaskQueue.size_of q'))
unfolding TaskQueue.size_of Ring.size_of
private_out q v full =
    let (q', task, e, is_task, v', more, size) = pop_bag q 0 v full in
    let (r, item, f, vr, room, answer) = pop_refines q 0 v in
    let same : r ≡ q' = cc in
    let same_task : item ≡ task = cc in
    let told : (contents q', task) ≡ Fifo.pop (contents q) 0 =
      subst (λ r. (contents r, task) ≡ Fifo.pop (contents q) 0) same
        (subst (λ i. (contents r, i) ≡ Fifo.pop (contents q) 0) same_task answer) in
    (
      q',
      task,
      pop-same q ∙ e,
      is_task,
      v',
      fifo_step (contents q) (contents q') task told is_task,
      size,
    )

module _ {Q : Type 0} (c : Container Q) where
  -- Of the queues, only the private queue of `w` changes, from `old` to `new`.
  pub record Moved (s s' : State Q) (w : ℕ) (old new : List ℕ) : Type 0 where
    pub valid : IsValid c s'
    pub queues_same : s'.queues ≡ s.queues
    pub before : TaskQueue
    pub before_at : nth s.private_queues w ≡ some before
    pub before_holds : contents before ≡ old
    pub now : TaskQueue
    pub changed : s'.private_queues ≡ set s.private_queues w now
    pub now_holds : contents now ≡ new

  abbrev popped : State Q → ℕ → TaskQueue → State Q
  popped s worker q' = counted count_owned worker (record s {
    private_queues = set s.private_queues worker q';
    num_tasks_waiting = sub32 s.num_tasks_waiting 1;
  })

  worker_pop_full :
      (s : State Q) (w task : ℕ) (q q' : TaskQueue)
      → nth s.private_queues w ≡ some q
      → TaskQueue.size_of q ≢ 0
      → TaskQueue.pop q ≡ some (q', task)
      → task ≢ 0
      → worker_pop s w ≡ some (popped s w q', task)
  unfolding worker_pop
  worker_pop_full s w task q q' e full out is_task =
      let t : (TaskQueue.size_of q == 0) ≡ false = ground arith in
      let n : (task == 0) ≡ false = ground arith in rw (e, t, out, n) refl

  worker_pop_none :
      (s : State Q) (w : ℕ) (q : TaskQueue)
      → nth s.private_queues w ≡ some q
      → TaskQueue.size_of q ≡ 0
      → worker_pop s w ≡ some (s, 0)
  unfolding worker_pop
  worker_pop_none s w q e z = rw (e, z) refl

  popped-IsValid :
      (s : State Q) (w : ℕ) (q q' : TaskQueue)
      → IsValid c s
      → nth s.private_queues w ≡ some q
      → Inv.IsValid q'
      → TaskQueue.size_of q ≡ suc (TaskQueue.size_of q')
      → IsValid c (popped s w q')
  popped-IsValid s w q q' v e valid size =
      let s' : State Q = record s {
        private_queues = set s.private_queues w q';
        num_tasks_waiting = sub32 s.num_tasks_waiting 1;
      } in
      let same = counted_queues c count_owned w s' in
      let fewer = total-set TaskQueue.size_of s.private_queues w q q' e in
      record {
        each = rw same.0 v.each;
        each_private = rw same.1 (All-set Inv.IsValid s.private_queues w q' v.each_private valid);
        waiting = rw (same.0, same.1, same.2) (omega (arith, v.waiting));
      }

  -- `mir_worker_pop` of a worker that has a private queue, in a valid state: if the queue is empty,
  -- no task is returned and nothing changes; else the oldest task is returned and leaves the queue,
  -- no other queue changes, `g_num_tasks_waiting` counts it no more and the state stays valid.
  pub worker_pop_oldest :
      (s : State Q) (w : ℕ)
      → IsValid c s
      → w < length s.private_queues
      → ((worker_pop s w ≡ some (s, 0))
          × (q : TaskQueue) × (nth s.private_queues w ≡ some q)
          × (TaskQueue.size_of q ≡ 0))
        ⊎ ((s' : State Q) × (task : ℕ) × (rest : List ℕ) × (worker_pop s w ≡ some (s', task))
            × (task ≢ 0)
            × Moved s s' w (task ∷ rest) rest)
  worker_pop_oldest s w v p =
      let (q, e) = nth-lt s.private_queues w p in
      elim (ℕ_discrete (TaskQueue.size_of q) 0) [
        | yes z ↦ inl (worker_pop_none s w q e z, q, e, z)
        | no full ↦
            let (q', task, out, is_task, valid, split, size) =
              private_out q (All-nth Inv.IsValid s.private_queues w q v.each_private e) full in
            let same = counted_queues c count_owned w (record s {
              private_queues = set s.private_queues w q';
              num_tasks_waiting = sub32 s.num_tasks_waiting 1;
            }) in
            inr (
              popped s w q',
              task,
              contents q',
              worker_pop_full s w task q q' e full out is_task,
              is_task,
              record {
                valid = popped-IsValid s w q q' v e valid size;
                queues_same = same.0;
                before = q;
                before_at = e;
                before_holds = split;
                now = q';
                changed = same.1;
                now_holds = refl;
              },
            )
      ]

  -- `mir_pop` of a worker that has a private queue, in a valid state, for any policy: if the private
  -- queue is empty, it is the policy's `pop` in the same state; else the policy is not asked, and the
  -- oldest task of the private queue is returned, with only that queue changed.
  pub any_pop_private_first :
      (pop : State Q → ℕ → Option (State Q × ℕ)) (s : State Q) (w : ℕ)
      → IsValid c s
      → w < length s.private_queues
      → ((any_pop pop s w ≡ pop s w)
          × (q : TaskQueue) × (nth s.private_queues w ≡ some q)
          × (TaskQueue.size_of q ≡ 0))
        ⊎ ((s' : State Q) × (task : ℕ) × (rest : List ℕ) × (any_pop pop s w ≡ some (s', task))
            × (task ≢ 0)
            × Moved s s' w (task ∷ rest) rest)
  unfolding any_pop
  any_pop_private_first pop s w v p = elim (worker_pop_oldest s w v p) [
    | inl (e, q, at, z) ↦ inl (rw e refl, q, at, z)
    | inr (s', task, rest, e, is_task, moved) ↦
        let t : (task == 0) ≡ false = ground arith in
        inr (s', task, rest, rw (e, t) refl, is_task, moved)
  ]
