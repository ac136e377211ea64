-- ===== src/Sched/Visit.antt =====
-- The invariant of the policies' state, and one queue's visit.
use mir_dev.Base.{
  ◌==◌, if◌then◌else◌, Bool-cases, set, All, u32_mod, sub32, count, nth, total, total-set, All-nth,
  All-set, ℕ, ◌+◌, ◌%◌, ◌≡◌, refl, ◌≢◌, inl, inr, Bool, false, Option, none, some, List, [], ◌∷◌,
  arith,
}
use mir_dev.TaskQueue as TaskQueue
use mir_dev.Queue.Inv as Inv
use mir_dev.Worker.Stats.{Stats, count_owned, count_stolen}
use mir_dev.Sched.{Container, State, counted, visit}

module _ {Q : Type 0} (c : Container Q) where
  abbrev pub num_held : State Q → ℕ
  num_held s = total c.size_of s.queues + total TaskQueue.size_of s.private_queues

  -- The queues are valid, and `g_num_tasks_waiting` is what they hold.
  pub record IsValid (s : State Q) : Type 0 where
    pub each : All c.IsValid s.queues
    pub each_private : All Inv.IsValid s.private_queues
    pub waiting : s.num_tasks_waiting ≡ num_held s % u32_mod

  abbrev pub held_of : Option Q → List ℕ
  held_of none = []
  held_of (some q) = c.held q

  abbrev pub held_at : State Q → ℕ → List ℕ
  held_at s i = held_of (nth s.queues i)

  -- How often a task is in the queues of the policy
  abbrev pub times : ℕ → State Q → ℕ
  times x s = total (λ q. count x (c.held q)) s.queues

  -- What a task's leaving does: only queue `i` changes, by the container's own operation.
  pub record Taken (s s' : State Q) (i task : ℕ) : Type 0 where
    pub valid : IsValid s'
    pub is_task : task ≢ 0
    pub old : Q
    pub new : Q
    pub at : nth s.queues i ≡ some old
    pub by_take : c.take_out old ≡ some (new, task)
    pub now : s'.queues ≡ set s.queues i new
    pub private_same : s'.private_queues ≡ s.private_queues
    pub once_less : (x : ℕ) → times x s ≡ times x s' + count x (task ∷ [])

  -- The statistics are no part of the invariant.
  pub counted_queues :
      (f : Stats → Stats) (w : ℕ) (s : State Q)
      → ((counted f w s).queues ≡ s.queues)
        × ((counted f w s).private_queues ≡ s.private_queues)
        × ((counted f w s).num_tasks_waiting ≡ s.num_tasks_waiting)
  unfolding counted
  counted_queues f w s = elim (Bool-cases s.worker_stats) [
    | inl e ↦ rw e (refl, refl, refl)
    | inr e ↦ rw e (refl, refl, refl)
  ]

  pub visit_empty :
      (s : State Q) (worker i : ℕ) (own : Bool) (q : Q)
      → nth s.queues i ≡ some q
      → c.size_of q ≡ 0
      → visit c s worker i own ≡ some (s, 0)
  unfolding visit
  visit_empty s worker i own q e z = rw (e, z) refl

  abbrev whose : Bool → Stats → Stats
  whose own = if own then count_owned else count_stolen

  abbrev left : State Q → ℕ → ℕ → Bool → Q → State Q
  left s worker i own q' =
      record (counted (whose own) worker (record s { queues = set s.queues i q' })) {
        num_tasks_waiting = sub32 s.num_tasks_waiting 1;
      }

  visit_out :
      (s : State Q) (worker i : ℕ) (own : Bool) (q q' : Q) (task : ℕ)
      → nth s.queues i ≡ some q
      → c.size_of q ≢ 0
      → c.take_out q ≡ some (q', task)
      → task ≢ 0
      → visit c s worker i own ≡ some (left s worker i own q', task)
  unfolding visit
  visit_out s worker i own q q' task e full out is_task =
      let t : (c.size_of q == 0) ≡ false = ground arith in
      let n : (task == 0) ≡ false = ground arith in rw (e, t, out, n) refl

  Taken-left :
      (s : State Q) (worker i : ℕ) (own : Bool) (q : Q)
      → IsValid s
      → nth s.queues i ≡ some q
      → c.size_of q ≢ 0
      → (q' : Q) × (task : ℕ) × (c.take_out q ≡ some (q', task))
        × (task ≢ 0)
        × Taken s (left s worker i own q') i task
  Taken-left s worker i own q v e full =
      let (q', task, out, is_task, valid, more, size) =
        c.take_out_lem q (All-nth c.IsValid s.queues i q v.each e) full in
      let s' : State Q = record s { queues = set s.queues i q' } in
      let same = counted_queues (whose own) worker s' in
      let fewer = total-set c.size_of s.queues i q q' e in
      (
        q',
        task,
        out,
        is_task,
        record {
          valid = record {
            each = rw same.0 (All-set c.IsValid s.queues i q' v.each valid);
            each_private = rw same.1 v.each_private;
            waiting = rw (same.0, same.1) (omega (arith, v.waiting));
          };
          is_task = is_task;
          old = q;
          new = q';
          at = e;
          by_take = out;
          now = same.0;
          private_same = same.1;
          once_less = λ x. rw same.0 (
              let t = total-set (λ r. count x (c.held r)) s.queues i q q' e in
              let m = more x in omega arith);
        },
      )

  pub visit_task :
      (s : State Q) (worker i : ℕ) (own : Bool) (q : Q)
      → IsValid s
      → nth s.queues i ≡ some q
      → c.size_of q ≢ 0
      → (s' : State Q) × (task : ℕ) × (visit c s worker i own ≡ some (s', task)) × Taken s s' i task
  visit_task s worker i own q v e full =
      let (q', task, out, is_task, t) = Taken-left s worker i own q v e full in
      (left s worker i own q', task, visit_out s worker i own q q' task e full out is_task, t)
