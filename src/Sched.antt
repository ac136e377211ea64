-- ===== src/Sched.antt =====
-- src/scheduling/mir_sched_pol.h: what the scheduling policies have in common, in the build without
-- MIR_MEM_POL_ENABLE. A policy keeps an array of queues; the tasks that wait in them and in the
-- private queues of the workers are counted in `g_num_tasks_waiting`.
pub mod Round
pub mod Visit
pub mod Push
pub mod Conserve
pub mod Fill
pub mod Numa
pub mod WsDe
pub mod NumaPop
pub mod NumaPush
pub mod Policy
mod Tests
use mir_dev.Base.{
  ltb, leb, ◌==◌, if◌then◌else◌, ltb→lt, lt→ltb, leb→le, ==_iff, Bool-cases, Option-cases, ◌>>=◌,
  ◌>>◌, assert, length, get_or, set, replicate, length-append, length-replicate, length-set,
  get_or-set_self, get_or-set_ne, AllSet, AllSet-snoc, AllSet-init, AllSet-cons, All, u16_mod,
  u32_mod, u64_mod, add16, add32, sub32, add64, sub64, all_below, all_below_lem, count, nth, update,
  total, length-update, nth-lt, nth-bound, nth-set_self, nth-set_ne, total-set, All-nth, All-set, ℕ,
  zero, suc, ◌+◌, ◌-◌, ◌*◌, ◌/◌, ◌%◌, ◌^◌, ◌≤◌, ◌<◌, min, max, ◌≡◌, refl, sym, ap, ap₂, subst, ◌∙◌,
  ◌≢◌, ◌↔◌, ◌⊎◌, inl, inr, Bool, true, false, not, ◌&&◌, ◌||◌, Option, none, some, List, [], ◌∷◌,
  ◌++◌, map, append-nil, append_assoc, arith, dec_lt, ℕ_discrete, mod-add-mod, mod-eq_of_lt,
  mod-eq-sub-mod, add-zero,
}
use mir_dev.TaskQueue.{TaskQueue}
use mir_dev.Worker.Stats.{Stats, count_created, count_owned, count_stolen, count_inlined}

-- What a policy needs of the queues it keeps: a task is a pointer, and NULL is 0. The laws say that
-- a queue is full or takes a task, and is empty or gives one of the tasks it holds.
pub record Container (Q : Type 0) : Type 1 where
  pub enqueue : Q → ℕ → Option (Q × Bool)
  pub size_of : Q → ℕ
  pub take_out : Q → Option (Q × ℕ)
  pub IsValid : Q → Type 0
  pub held : Q → List ℕ
  pub size-held : (q : Q) → IsValid q → size_of q ≡ length (held q)
  pub enqueue_lem :
      (q : Q) (task : ℕ)
      → IsValid q
      → task ≢ 0
      → (enqueue q task ≡ some (q, false))
        ⊎ ((q' : Q) × (enqueue q task ≡ some (q', true))
            × IsValid q'
            × ((x : ℕ) → count x (held q') ≡ count x (held q) + count x (task ∷ []))
            × (size_of q' ≡ suc (size_of q)))
  pub take_out_lem :
      (q : Q)
      → IsValid q
      → size_of q ≢ 0
      → (q' : Q) × (task : ℕ) × (take_out q ≡ some (q', task))
        × (task ≢ 0)
        × IsValid q'
        × ((x : ℕ) → count x (held q) ≡ count x (held q') + count x (task ∷ []))
        × (size_of q ≡ suc (size_of q'))

-- `worker_stats` is `runtime->enable_worker_stats == 1`. The workers' statistics and private queues
-- are listed by worker id.
pub record State (Q : Type 0) : Type 0 where
  pub queues : List Q
  pub private_queues : List TaskQueue
  pub num_tasks_waiting : ℕ
  pub statistics : List Stats
  pub worker_stats : Bool

-- The loops by which a policy looks for a task. `visit` looks into one queue, and returns the task it
-- took, or NULL.
module _ {S : Type 0} (visit_at : S → ℕ → Option (S × ℕ)) where
  -- The `do` loop of `pop_ws`, `pop_ws_de` and `pop_ws_de_node`: the `n` queues in turn, from the
  -- worker's own on. `ctr` is a `uint16_t`. The loop ends by `return 0`, or by `break`, in worker 0
  -- at the last queue, and by its condition in the other workers.
  unfoldable pub pop_from : ℕ → ℕ → S → ℕ → ℕ → Option (S × ℕ)
  pop_from n zero s worker ctr = none
  pop_from n (suc fuel) s worker ctr = if (ctr == n) && (worker == 0) then some (s, 0) else (do
    let i = if ctr == n then 0 else ctr
    (s', task) ← visit_at s i
    let rest = if add16 i 1 == worker then some (s', 0) else pop_from n fuel s' worker (add16 i 1)
    if task == 0 then rest else some (s', task))

  -- A `for` loop that ends when a task is found
  unfoldable pub search : List ℕ → S → Option (S × ℕ)
  search [] s = some (s, 0)
  search (i ∷ more) s = do
    (s', task) ← visit_at s i
    let rest = search more s'
    if task == 0 then rest else some (s', task)

module _ {Q : Type 0} where
  unfoldable pub counted : (Stats → Stats) → ℕ → State Q → State Q
  counted f worker s =
      if s.worker_stats then record s { statistics = update s.statistics worker f } else s

  module _ (c : Container Q) where
    -- The body of `pop`, for the queue at `i`: the task, or NULL if the queue has none to give. The
    -- task's field `queue_size_at_pop` is left out.
    unfoldable pub visit : State Q → ℕ → ℕ → Bool → Option (State Q × ℕ)
    visit s worker i own = do
      queue ← nth s.queues i
      if c.size_of queue == 0 then some (s, 0) else (do
        (queue', task) ← c.take_out queue
        let s' = record s { queues = set s.queues i queue' }
        let told = counted (if own then count_owned else count_stolen) worker s'
        if task == 0
            then some (s', 0)
            else some (record told { num_tasks_waiting = sub32 s'.num_tasks_waiting 1 }, task))

    -- `pop_central` and `pop_central_stack`
    unfoldable pub pop_central : State Q → ℕ → Option (State Q × ℕ)
    pop_central s worker = visit s worker 0 true

    unfoldable pub pop_ws : State Q → ℕ → Option (State Q × ℕ)
    pop_ws s worker =
        pop_from (λ s i. visit s worker i (i == worker)) (length s.queues) (length s.queues + 1) s
          worker worker

    -- `push`, to the queue at `i`; `execute` is `mir_task_execute`, which may push further tasks.
    unfoldable pub push_to :
        (ℕ → State Q → Option (State Q)) → ℕ → State Q → ℕ → ℕ → Option (State Q × Bool)
    push_to execute i s worker task = do
      assert (not (task == 0))
      queue ← nth s.queues i
      (queue', pushed) ← c.enqueue queue task
      let s' = record s { queues = set s.queues i queue' }
      if pushed
          then some (
            counted count_created worker
                (record s' { num_tasks_waiting = add32 s'.num_tasks_waiting 1 }),
            true,
          )
          else (do s'' ← execute task s'; some (counted count_inlined worker s'', false))

    -- `push_central` and `push_central_stack`, and `push_ws`
    unfoldable pub push_central :
        (ℕ → State Q → Option (State Q)) → State Q → ℕ → ℕ → Option (State Q × Bool)
    push_central execute = push_to execute 0

    unfoldable pub push_ws :
        (ℕ → State Q → Option (State Q)) → State Q → ℕ → ℕ → Option (State Q × Bool)
    push_ws execute s worker = push_to execute worker s worker
