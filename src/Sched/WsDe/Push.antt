-- ===== src/Sched/WsDe/Push.antt =====
-- src/scheduling/mir_sched_pol_ws_de.c: what a push adds.
use mir_dev.Base.{
  ◌==◌, Bool-cases, ◌>>=◌, length, set, length-append, add32, count, count-append, nth, total-set,
  All-nth, All-set, ℕ, ◌+◌, ◌^◌, ◌≤◌, ◌<◌, ◌≡◌, refl, sym, ap, ◌∙◌, ◌≢◌, ◌⊎◌, inl, inr, Bool, true,
  false, Option, some, List, [], ◌∷◌, ◌++◌, arith, ℕ_discrete,
}
use mir_dev.Dequeue as Dequeue
use mir_dev.Dequeue.{Dequeue}
use mir_dev.Dequeue.Inv.{contents}
use mir_dev.Dequeue.Inv as DequeInv
use mir_dev.Dequeue.Push.{spec_push, push_refines_deque}
use mir_dev.Worker.Stats.{count_created, count_inlined}
use mir_dev.Sched.{counted}
use mir_dev.Sched.WsDe.{DequeState, push_ws_de}
use mir_dev.Sched.WsDe.Take.{IsValid, times, held_by}

abbrev with_deque : DequeState → ℕ → Dequeue → DequeState
with_deque s w q = record s { policy = record s.policy { queues = set s.policy.queues w q } }

abbrev grown : DequeState → ℕ → Dequeue → DequeState
grown s w q = record s {
  policy = counted count_created w (record s.policy {
    queues = set s.policy.queues w q;
    num_tasks_waiting = add32 s.policy.num_tasks_waiting 1;
  });
}

pushed_true :
    (execute : ℕ → DequeState → Option DequeState) (s : DequeState) (w task : ℕ) (q q' : Dequeue)
    → task ≢ 0
    → nth s.policy.queues w ≡ some q
    → Dequeue.push q task ≡ some (q', true)
    → push_ws_de execute s w task ≡ some (grown s w q', true)
unfolding push_ws_de
pushed_true execute s w task q q' is_task e took =
    let t : (task == 0) ≡ false = ground arith in rw (t, e, took) refl

pushed_false :
    (execute : ℕ → DequeState → Option DequeState) (s : DequeState) (w task : ℕ) (q q' : Dequeue)
    → task ≢ 0
    → nth s.policy.queues w ≡ some q
    → Dequeue.push q task ≡ some (q', false)
    → push_ws_de execute s w task ≡ (
        execute task (with_deque s w q') >>= λ u.
        some (record u { policy = counted count_inlined w u.policy }, false))
unfolding push_ws_de
pushed_false execute s w task q q' is_task e refused =
    let t : (task == 0) ≡ false = ground arith in rw (t, e, refused) refl

grown_same :
    (s : DequeState) (w : ℕ) (q : Dequeue)
    → let s' = grown s w q in
      (s'.policy.queues ≡ set s.policy.queues w q)
      × (s'.policy.private_queues ≡ s.policy.private_queues)
      × (s'.policy.num_tasks_waiting ≡ add32 s.policy.num_tasks_waiting 1)
unfolding counted
grown_same s w q = elim (Bool-cases s.policy.worker_stats) [
  | inl e ↦ rw e (refl, refl, refl)
  | inr e ↦ rw e (refl, refl, refl)
]

-- What was added to the deque at `w`: nothing, or a task that is nowhere yet.
module _ (s s' : DequeState) (w : ℕ) (q q' : Dequeue) (v : IsValid s)
    (at : nth s.policy.queues w ≡ some q) (now : s'.policy.queues ≡ set s.policy.queues w q')
    (valid : DequeInv.IsValid q') where
  times_after :
      (more x : ℕ)
      → count x (contents q') ≡ count x (contents q) + more
      → times x s'.policy.queues ≡ times x s.policy.queues + more
  times_after more x e =
      rw now
        (let t = total-set (λ q. count x (contents q)) s.policy.queues w q q' at in omega arith)

  valid_after :
      (more : ℕ) (new : ℕ → ℕ)
      → s'.policy.private_queues ≡ s.policy.private_queues
      → s'.policy.num_tasks_waiting ≡ add32 s.policy.num_tasks_waiting more
      → length (contents q') ≡ length (contents q) + more
      → ((x : ℕ) → count x (contents q') ≡ count x (contents q) + new x)
      → ((x : ℕ) → times x s.policy.queues + new x ≤ 1)
      → ((x : ℕ) → s'.taken x ≡ true → (s.taken x ≡ true) × (new x ≡ 0))
      → IsValid s'
  valid_after more new private_same waits size counts single flags = record {
    each = rw now (All-set DequeInv.IsValid s.policy.queues w q' v.each valid);
    each_private = rw private_same v.each_private;
    waiting =
        rw (waits, now, private_same)
          (let t = total-set held_by s.policy.queues w q q' at in omega (arith, v.waiting));
    single = λ x. let t = times_after (new x) x (counts x) in let o = single x in omega arith;
    fresh = λ x taken.
        let (old, none_new) = flags x taken in
        let t = times_after (new x) x (counts x) in let z = v.fresh x old in omega arith;
  }

-- The deque is full: the task is executed at once, and counted as inlined.
pub Inlined :
    (ℕ → DequeState → Option DequeState) → DequeState → ℕ → ℕ → Option (DequeState × Bool) → Type 0
Inlined execute s w task r =
    (q : Dequeue) × (q' : Dequeue) × (nth s.policy.queues w ≡ some q)
    × (length (contents q) ≡ q.modulo_size)
    × (contents q' ≡ contents q)
    × IsValid (with_deque s w q')
    × (r ≡ (
        execute task (with_deque s w q') >>= λ u.
        some (record u { policy = counted count_inlined w u.policy }, false)))

-- The task is the newest in the worker's deque, and nothing else is new.
pub Added : DequeState → ℕ → ℕ → Option (DequeState × Bool) → Type 0
Added s w task r =
    (q : Dequeue) × (q' : Dequeue) × (s' : DequeState) × (nth s.policy.queues w ≡ some q)
    × (r ≡ some (s', true))
    × (s'.policy.queues ≡ set s.policy.queues w q')
    × (contents q' ≡ contents q ++ (task ∷ []))
    × ((x : ℕ) → s'.taken x ≡ s.taken x)
    × IsValid s'

split_push :
    (room task : ℕ) (done : Bool) (xs ys : List ℕ)
    → (ys, done) ≡ spec_push room xs task
    → ((done ≡ false) × (length xs ≡ room) × (ys ≡ xs)) ⊎ ((done ≡ true) × (ys ≡ xs ++ (task ∷ [])))
split_push room task done xs ys e = elim (Bool-cases (length xs == room)) [
  | inl full ↦
      let f : spec_push room xs task ≡ (xs, false) = rw full refl in
      inl (ap (λ z. z.1) (e ∙ f), ground arith, ap (λ z. z.0) (e ∙ f))
  | inr more ↦
      let f : spec_push room xs task ≡ (xs ++ (task ∷ []), true) = rw more refl in
      inr (ap (λ z. z.1) (e ∙ f), ap (λ z. z.0) (e ∙ f))
]

alone : (x task n : ℕ) → n ≤ 1 → (x ≡ task → n ≡ 0) → n + count x (task ∷ []) ≤ 1
alone x task n p z = elim (ℕ_discrete task x) [
  | yes same ↦
      let q = z (sym same) in let t : (task == x) ≡ true = ground arith in rw t (omega arith)
  | no other ↦ let t : (task == x) ≡ false = ground arith in rw t (omega arith)
]

elsewhere :
    (x task : ℕ) (flag : ℕ → Bool) → flag x ≡ true → flag task ≡ false → count x (task ∷ []) ≡ 0
elsewhere x task flag p q = elim (ℕ_discrete task x) [
  | yes same ↦ let r = ap flag same in absurd (ground arith)
  | no other ↦ ground arith
]

-- `push_ws_de` of a worker with a deque of its own, in a valid state, for a task that is not NULL, not
-- taken and in no deque, as long as the deque's `bottom + 1` is below 2^31: if the deque holds as many
-- tasks as it can, the task is executed at once, from a valid state with the same tasks, and 0
-- returned; else 1 is returned, the task is the newest in the deque, and the state stays valid.
pub push_ws_de_lem :
    (execute : ℕ → DequeState → Option DequeState) (s : DequeState) (w task : ℕ) (q : Dequeue)
    → IsValid s
    → nth s.policy.queues w ≡ some q
    → q.bottom + 1 < 2 ^ 31
    → task ≢ 0
    → s.taken task ≡ false
    → times task s.policy.queues ≡ 0
    → Inlined execute s w task (push_ws_de execute s w task)
      ⊎ Added s w task (push_ws_de execute s w task)
unfolding Inlined Added
push_ws_de_lem execute s w task q v at young is_task free new =
    let vq = All-nth DequeInv.IsValid s.policy.queues w q v.each at in
    let (q', done, e, vq', answer) = push_refines_deque q task vq is_task young in
    elim (split_push q.modulo_size task done (contents q) (contents q') answer) [
      | inl (refused, full, same) ↦ inl (
        q,
        q',
        at,
        full,
        same,
        valid_after s (with_deque s w q') w q q' v at refl vq' 0 (λ x. 0) refl
            (omega (arith, v.waiting)) (ap length same ∙ omega arith)
            (λ x. ap (count x) same ∙ omega arith) (λ x. let o = v.single x in omega arith)
            (λ x taken. (taken, refl)),
        pushed_false execute s w task q q' is_task at (e ∙ ap (λ b. some (q', b)) refused),
      )
      | inr (took, more) ↦
          let g = grown_same s w q' in
          let absent : (x : ℕ) → s.taken x ≡ true → count x (task ∷ []) ≡ 0 =
            λ x taken. elsewhere x task s.taken taken free in
          inr (
            q,
            q',
            grown s w q',
            at,
            pushed_true execute s w task q q' is_task at (e ∙ ap (λ b. some (q', b)) took),
            g.0,
            more,
            (λ x. refl),
            valid_after s (grown s w q') w q q' v at g.0 vq' 1 (λ x. count x (task ∷ [])) g.1 g.2
                (ap length more ∙ length-append (contents q) (task ∷ []))
                (λ x. ap (count x) more ∙ count-append x (contents q) (task ∷ []))
                (λ x.
                  alone x task (times x s.policy.queues) (v.single x)
                    (λ e. ap (λ x. times x s.policy.queues) e ∙ new))
                (λ x taken. (taken, absent x taken)),
          )
    ]
