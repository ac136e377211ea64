-- ===== src/Sched/WsDe/Take.antt =====
-- What one visit of a deque takes.
use mir_dev.Base.{
  leb, ◌==◌, if◌then◌else◌, Bool-cases, length, set, length-append, All, u32_mod, sub32, count,
  count-append, nth, total, nth-lt, total-set, le-total, All-nth, All-set, ℕ, suc, ◌+◌, ◌%◌, ◌≤◌,
  ◌<◌, ◌≡◌, refl, sym, ap, ◌∙◌, ◌≢◌, inl, inr, Bool, true, false, ◌||◌, some, List, [], ◌∷◌, ◌++◌,
  arith, dec_lt, ℕ_discrete,
}
use mir_dev.Dequeue.{Dequeue, looks_empty}
use mir_dev.Dequeue.Inv.{contents, length-contents, empty_slots}
use mir_dev.Dequeue.Inv as DequeInv
use mir_dev.Dequeue.Pop.{pop_refines_deque}
use mir_dev.Dequeue.Steal.{steal_refines}
use mir_dev.Queue.Inv as Inv
use mir_dev.TaskQueue as TaskQueue
use mir_dev.Worker.Stats.{Stats, count_owned, count_stolen}
use mir_dev.Sched.{counted}
use mir_dev.Sched.Round.{Outcome}
use mir_dev.Sched.WsDe.{DequeState, take_task, mark_taken, visit_deque}

abbrev pub held_by : Dequeue → ℕ
held_by q = length (contents q)

abbrev pub times : ℕ → List Dequeue → ℕ
times x qs = total (λ q. count x (contents q)) qs

-- The deques are valid, `g_num_tasks_waiting` is what the deques and the private queues hold, no task
-- is in the deques twice, and the tasks in them are not taken.
pub record IsValid (s : DequeState) : Type 0 where
  pub each : All DequeInv.IsValid s.policy.queues
  pub each_private : All Inv.IsValid s.policy.private_queues
  pub waiting :
      s.policy.num_tasks_waiting
      ≡ (total held_by s.policy.queues + total TaskQueue.size_of s.policy.private_queues) % u32_mod
  pub single : (x : ℕ) → times x s.policy.queues ≤ 1
  pub fresh : (x : ℕ) → s.taken x ≡ true → times x s.policy.queues ≡ 0

-- Where a task leaves: the owner's end is the last.
abbrev pub Leaves : Bool → List ℕ → ℕ → List ℕ → Type 0
Leaves own items task rest = if own then items ≡ rest ++ (task ∷ []) else items ≡ task ∷ rest

-- Only the deque at `i` changes, which `task` leaves; it was not taken, and is now.
pub record Took (s s' : DequeState) (i : ℕ) (own : Bool) (task : ℕ) : Type 0 where
  pub valid : IsValid s'
  pub old : Dequeue
  pub rest : Dequeue
  pub at : nth s.policy.queues i ≡ some old
  pub leaves : Leaves own (contents old) task (contents rest)
  pub now : s'.policy.queues ≡ set s.policy.queues i rest
  pub private_same : s'.policy.private_queues ≡ s.policy.private_queues
  pub was_free : s.taken task ≡ false
  pub flags : (x : ℕ) → s'.taken x ≡ ((x == task) || s.taken x)

take_lem :
    (own : Bool) (q : Dequeue)
    → DequeInv.IsValid q
    → q.top < q.bottom
    → (q' : Dequeue) × (task : ℕ) × (take_task own q ≡ some (q', task))
      × DequeInv.IsValid q'
      × (task ≢ 0)
      × Leaves own (contents q) task (contents q')
unfolding take_task
take_lem true q v p =
    let (q', task, e, v', answer) = pop_refines_deque q v (λ z. absurd (omega arith)) in
    elim answer [
      | inl (none_in, _, _) ↦
          let l = length-contents q in
          let z : length (contents q) ≡ 0 = ap length none_in in absurd (omega arith)
      | inr (split, is_task) ↦ (q', task, e, v', is_task, split)
    ]
take_lem false q v p =
    let (q', task, e, v', answer) = steal_refines q.size q v in
    elim answer [
      | inl (none_in, _, _) ↦
          let l = length-contents q in
          let z : length (contents q) ≡ 0 = ap length none_in in absurd (omega arith)
      | inr (split, is_task) ↦ (q', task, e, v', is_task, split)
    ]

Leaves-count :
    (own : Bool) (items : List ℕ) (task : ℕ) (rest : List ℕ) (x : ℕ)
    → Leaves own items task rest
    → count x items ≡ count x rest + count x (task ∷ [])
Leaves-count true items task rest x h = ap (count x) h ∙ count-append x rest (task ∷ [])
Leaves-count false items task rest x h = ap (count x) h ∙ omega arith

Leaves-length :
    (own : Bool) (items : List ℕ) (task : ℕ) (rest : List ℕ)
    → Leaves own items task rest
    → length items ≡ suc (length rest)
Leaves-length true items task rest h = ap length h ∙ length-append rest (task ∷ []) ∙ omega arith
Leaves-length false items task rest h = ap length h

visit_deque-empty :
    (own : Bool) (s : DequeState) (worker i : ℕ) (q : Dequeue)
    → nth s.policy.queues i ≡ some q
    → q.bottom ≤ q.top
    → visit_deque own s worker i ≡ some (s, 0)
unfolding visit_deque looks_empty
visit_deque-empty own s worker i q e p = rw e (ground arith)

visit_deque-full :
    (own : Bool) (s : DequeState) (worker i : ℕ) (q q' : Dequeue) (task : ℕ)
    → nth s.policy.queues i ≡ some q
    → q.top < q.bottom
    → take_task own q ≡ some (q', task)
    → task ≢ 0
    → s.taken task ≡ false
    → visit_deque own s worker i ≡ some (mark_taken s worker i own q' task, task)
unfolding visit_deque looks_empty
visit_deque-full own s worker i q q' task e p out is_task free =
    let l : leb q.bottom q.top ≡ false = ground arith in
    let t : (task == 0) ≡ false = ground arith in rw (e, l, out, t, free) refl

whose : Bool → Stats → Stats
whose own = if own then count_owned else count_stolen

marked_same :
    (s : DequeState) (worker i : ℕ) (own : Bool) (q : Dequeue) (task : ℕ)
    → let s' = mark_taken s worker i own q task in
      (s'.policy.queues ≡ set s.policy.queues i q)
      × (s'.policy.private_queues ≡ s.policy.private_queues)
      × (s'.policy.num_tasks_waiting ≡ sub32 s.policy.num_tasks_waiting 1)
unfolding mark_taken counted
marked_same s worker i own q task = elim (Bool-cases s.policy.worker_stats) [
  | inl e ↦ rw e (refl, refl, refl)
  | inr e ↦ rw e (refl, refl, refl)
]

marked_flags :
    (s : DequeState) (worker i : ℕ) (own : Bool) (q : Dequeue) (task x : ℕ)
    → (mark_taken s worker i own q task).taken x ≡ ((x == task) || s.taken x)
unfolding mark_taken
marked_flags s worker i own q task x = refl

-- A task that is in one of the deques is not taken.
free_at :
    (s : DequeState) (i : ℕ) (q : Dequeue) (task : ℕ)
    → IsValid s
    → nth s.policy.queues i ≡ some q
    → 0 < count task (contents q)
    → s.taken task ≡ false
free_at s i q task v e p = elim (Bool-cases (s.taken task)) [
  | inr free ↦ free
  | inl taken ↦
      let few = le-total (λ q. count task (contents q)) s.policy.queues i q e in
      let z = v.fresh task taken in absurd (omega arith)
]

count_self : (x : ℕ) → count x (x ∷ []) ≡ 1
count_self x = ground arith

count_other : (x y : ℕ) → x ≢ y → count x (y ∷ []) ≡ 0
count_other x y p = ground arith

module _ (s s' : DequeState) (i task : ℕ) (own : Bool) (q q' : Dequeue) (v : IsValid s)
    (at : nth s.policy.queues i ≡ some q) (now : s'.policy.queues ≡ set s.policy.queues i q')
    (split : Leaves own (contents q) task (contents q')) where
  fewer : (x : ℕ) → times x s.policy.queues ≡ times x s'.policy.queues + count x (task ∷ [])
  fewer x = rw now (
      let t = total-set (λ q. count x (contents q)) s.policy.queues i q q' at in
      let m = Leaves-count own (contents q) task (contents q') x split in omega arith)

  fresh_after :
      ((x : ℕ) → s'.taken x ≡ ((x == task) || s.taken x))
      → (x : ℕ) → s'.taken x ≡ true
      → times x s'.policy.queues ≡ 0
  fresh_after flags x taken = elim (ℕ_discrete x task) [
    | yes same ↦
        let f = fewer x in
        let one : count x (task ∷ []) ≡ 1 = rw same (count_self task) in
        let few = v.single x in omega arith
    | no other ↦
        let f = fewer x in
        let differs : (x == task) ≡ false = ground arith in
        let old_flag : s.taken x ≡ true =
          ap (λ b. b || s.taken x) (sym differs) ∙ sym (flags x) ∙ taken in
        let z = v.fresh x old_flag in omega arith
  ]

  valid_after :
      (s'.policy.private_queues ≡ s.policy.private_queues)
      → s'.policy.num_tasks_waiting ≡ sub32 s.policy.num_tasks_waiting 1
      → ((x : ℕ) → s'.taken x ≡ ((x == task) || s.taken x))
      → DequeInv.IsValid q'
      → IsValid s'
  valid_after private_same waits flags valid = record {
    each = rw now (All-set DequeInv.IsValid s.policy.queues i q' v.each valid);
    each_private = rw private_same v.each_private;
    waiting =
        rw (waits, now, private_same)
          (let t = total-set held_by s.policy.queues i q q' at in
            let l = Leaves-length own (contents q) task (contents q') split in
            omega (arith, v.waiting));
    single = λ x. let f = fewer x in let few = v.single x in omega arith;
    fresh = fresh_after flags;
  }

abbrev pub EmptyAt : DequeState → ℕ → Type 0
EmptyAt s i = (q : Dequeue) × (nth s.policy.queues i ≡ some q) × (contents q ≡ [])

-- In a valid state, the visit of a worker takes a task or finds the deque empty.
pub visit_deque_lem :
    (own : Bool) (s : DequeState) (worker i : ℕ)
    → IsValid s
    → i < length s.policy.queues
    → Outcome (visit_deque own s worker i) s (EmptyAt s i) (λ s' task. Took s s' i own task)
visit_deque_lem own s worker i v p =
    let (q, at) = nth-lt s.policy.queues i p in
    let vq = All-nth DequeInv.IsValid s.policy.queues i q v.each at in
    elim (dec_lt q.top q.bottom) [
      | no empty ↦
          let e : q.bottom ≤ q.top = omega arith in
          inl (visit_deque-empty own s worker i q at e, (q, at, empty_slots q e))
      | yes full ↦
          let (q', task, out, vq', is_task, split) = take_lem own q vq full in
          let c = Leaves-count own (contents q) task (contents q') task split in
          let one = count_self task in
          let free = free_at s i q task v at (omega arith) in
          let s' = mark_taken s worker i own q' task in
          let same = marked_same s worker i own q' task in
          inr (
            s',
            task,
            visit_deque-full own s worker i q q' task at full out is_task free,
            is_task,
            record {
              valid =
                  valid_after s s' i task own q q' v at same.0 split same.1 same.2
                    (marked_flags s worker i own q' task) vq';
              old = q;
              rest = q';
              at = at;
              leaves = split;
              now = same.0;
              private_same = same.1;
              was_free = free;
              flags = marked_flags s worker i own q' task;
            },
          )
    ]
