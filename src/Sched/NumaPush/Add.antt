-- ===== src/Sched/NumaPush/Add.antt =====
-- src/scheduling/mir_sched_pol_numa.c: what a push adds to one of the queues.
use mir_dev.Base.{
  Bool-cases, ◌>>=◌, length, set, All, add32, count, nth, total, nth-lt, set_same, total-set,
  All-nth, All-set, ℕ, suc, ◌+◌, ◌<◌, ◌≡◌, refl, ap, ◌≢◌, ◌⊎◌, inl, inr, Bool, true, false, not,
  Option, none, some, [], ◌∷◌, arith,
}
use mir_dev.TaskQueue as TaskQueue
use mir_dev.Worker.Stats.{count_created, count_inlined}
use mir_dev.Sched.{Container, counted}
use mir_dev.Sched.NumaPop.{NumaState, lane, set_lane}
use mir_dev.Sched.NumaPop.Take.{IsValid, lanes_total, both}
use mir_dev.Sched.NumaPush.{note_cost, push_at}

module _ {Q : Type 0} (c : Container Q) where
  abbrev grown : NumaState Q → ℕ → Bool → ℕ → Q → NumaState Q
  grown s worker alt node q' =
      let s' = set_lane alt s (set (lane alt s) node q') in
      record s' {
        policy =
            counted count_created worker
              (record s'.policy { num_tasks_waiting = add32 s'.policy.num_tasks_waiting 1 });
      }

  -- The queue refuses the task, which `mir_task_execute` gets with the state as it was.
  abbrev pub Inlined :
      (ℕ → NumaState Q → Option (NumaState Q))
      → NumaState Q
      → ℕ
      → ℕ
      → Bool
      → ℕ
      → Option (NumaState Q × Bool)
      → Type 0
  Inlined execute s worker task alt node r =
      (q : Q) × (nth (lane alt s) node ≡ some q)
      × (c.enqueue q task ≡ some (q, false))
      × (r ≡ (
          execute task s >>= λ u.
          some (record u { policy = counted count_inlined worker u.policy }, false)))

  -- One queue changes, and holds the task once more.
  pub record Added (s s' : NumaState Q) (alt : Bool) (node task : ℕ) : Type 0 where
    pub valid : IsValid c s'
    pub old : Q
    pub new : Q
    pub at : nth (lane alt s) node ≡ some old
    pub now : lane alt s' ≡ set (lane alt s) node new
    pub other_same : lane (not alt) s' ≡ lane (not alt) s
    pub private_same : s'.policy.private_queues ≡ s.policy.private_queues
    pub once_more : (x : ℕ) → count x (c.held new) ≡ count x (c.held old) + count x (task ∷ [])

  grown_same :
      (s : NumaState Q) (worker : ℕ) (alt : Bool) (node : ℕ) (q' : Q)
      → let s' = grown s worker alt node q' in
        (lane alt s' ≡ set (lane alt s) node q')
        × (lane (not alt) s' ≡ lane (not alt) s)
        × (s'.policy.private_queues ≡ s.policy.private_queues)
        × (s'.policy.num_tasks_waiting ≡ add32 s.policy.num_tasks_waiting 1)
  unfolding counted set_lane
  grown_same s worker true node q' = elim (Bool-cases s.policy.worker_stats) [
    | inl e ↦ rw e (refl, refl, refl, refl)
    | inr e ↦ rw e (refl, refl, refl, refl)
  ]
  grown_same s worker false node q' = elim (Bool-cases s.policy.worker_stats) [
    | inl e ↦ rw e (refl, refl, refl, refl)
    | inr e ↦ rw e (refl, refl, refl, refl)
  ]

  set_lane_same : (alt : Bool) (s : NumaState Q) → set_lane alt s (lane alt s) ≡ s
  unfolding set_lane
  set_lane_same true s = refl
  set_lane_same false s = refl

  grown-IsValid :
      (s s' : NumaState Q) (alt : Bool) (node : ℕ) (q q' : Q)
      → IsValid c s
      → nth (lane alt s) node ≡ some q
      → c.IsValid q'
      → c.size_of q' ≡ suc (c.size_of q)
      → lane alt s' ≡ set (lane alt s) node q'
      → lane (not alt) s' ≡ lane (not alt) s
      → s'.policy.private_queues ≡ s.policy.private_queues
      → s'.policy.num_tasks_waiting ≡ add32 s.policy.num_tasks_waiting 1
      → IsValid c s'
  grown-IsValid s s' alt node q q' v at valid size now other same waits =
      let t = total-set c.size_of (lane alt s) node q q' at in
      let before = lanes_total c alt s in
      let after = lanes_total c alt s' in
      let one = ap (total c.size_of) now in
      let two = ap (total c.size_of) other in
      let three = ap (total TaskQueue.size_of) same in
      record {
        each =
            both c alt (All c.IsValid) s'
              (rw now (All-set c.IsValid (lane alt s) node q' (v.each alt) valid))
              (rw other (v.each (not alt)));
        each_private = rw same v.each_private;
        waiting = omega (arith, v.waiting);
      }

  -- A push at a chosen queue
  pub push_at_lem :
      (execute : ℕ → NumaState Q → Option (NumaState Q)) (s : NumaState Q) (worker task : ℕ)
      (alt : Bool) (node : ℕ)
      → IsValid c s
      → task ≢ 0
      → node < length (lane alt s)
      → Inlined execute s worker task alt node (push_at c execute s worker task alt node)
        ⊎ ((s' : NumaState Q) × (push_at c execute s worker task alt node ≡ some (s', true))
            × Added s s' alt node task)
  unfolding push_at
  push_at_lem execute s worker task alt node v is_task p =
      let (q, e) = nth-lt (lane alt s) node p in
      elim (c.enqueue_lem q task (All-nth c.IsValid (lane alt s) node q (v.each alt) e) is_task) [
        | inl full ↦
            inl (q, e, full, rw (e, full, set_same (lane alt s) node q e, set_lane_same alt s) refl)
        | inr (q', took, valid, more, size) ↦
            let g = grown_same s worker alt node q' in
            inr (
              grown s worker alt node q',
              rw (e, took) refl,
              record {
                valid =
                    grown-IsValid s (grown s worker alt node q') alt node q q' v e valid size g.0
                      g.1 g.2 g.3;
                old = q;
                new = q';
                at = e;
                now = g.0;
                other_same = g.1;
                private_same = g.2;
                once_more = more;
              },
            )
      ]

  pub note_cost-IsValid :
      (task : ℕ) (cost : Option ℕ) (s : NumaState Q)
      → IsValid c s
      → IsValid c (note_cost task cost s)
  note_cost-IsValid task none s v = v
  note_cost-IsValid task (some cost) s v = record {
    each = each_too;
    each_private = v.each_private;
    waiting = v.waiting;
  }
    where
      each_too : (alt : Bool) → All c.IsValid (lane alt (note_cost task (some cost) s))
      each_too true = v.each true
      each_too false = v.each false
