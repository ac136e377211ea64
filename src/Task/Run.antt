-- ===== src/Task/Run.antt =====
-- src/mir_task.c: scheduling, execution and waiting, with the recorder and the handshake with the
-- profiler switched off.
use mir_dev.Base.{
  ltb, leb, ◌==◌, if◌then◌else◌, ◌>>=◌, ◌>>◌, assert, set, add32, add64, sub64, nth, update, ℕ,
  zero, suc, ◌/◌, Bool, true, false, Option, none, some, ◌∷◌,
}
use mir_dev.Twc.{finish, reduce, pass}
use mir_dev.Task.{Argument, Task, State, on_task, elapsed_execution_time}
use mir_dev.Task.Create.{Request, create_common}

-- `runtime->task_inlining_limit`, and whether the policy is `numa`
unfoldable pub inline_necessary : ℕ → Bool → ℕ → ℕ → Bool
inline_necessary limit is_numa num_tasks_waiting num_workers =
    if limit == 0
    then false
    else if limit == 1
    then true
    else if is_numa
    then false
    else leb limit (num_tasks_waiting / num_workers)

abbrev pub stop_clock : ℕ → Task → Task
stop_clock now t = record t { exec_cycles = elapsed_execution_time t now }

abbrev pub start_clock : ℕ → Task → Task
start_clock now t = record t { exec_resume_instant = now }

abbrev pub add_overhead : ℕ → ℕ → Task → Task
add_overhead start end t = record t { overhead_cycles = add64 t.overhead_cycles (sub64 end start) }

-- The new task's fields: `before` is the task that the worker executed.
abbrev pub begin_task : Option ℕ → ℕ → Task → Task
begin_task before now t = record t {
  predecessor = before;
  exec_cycles = 0;
  exec_resume_instant = now;
  overhead_cycles = 0;
}

-- The instants are those of the stop of the current task and of the start of the new one.
unfoldable pub prolog : State → ℕ → ℕ → ℕ → Option State
prolog s i stop start = do
  _ ← nth s.tasks i
  some (record s {
    tasks =
        update (on_task s.current_task (stop_clock stop) s.tasks) i
          (begin_task s.current_task start);
    current_task = some i;
  })

abbrev pub end_task : State → ℕ → ℕ → ℕ → Task → Task
end_task s passes ended stop t = record t {
  cpu_id = s.cpu;
  exec_end_instant = sub64 ended s.init_time;
  exec_cycles = elapsed_execution_time t stop;
  sync_pass = passes;
}

-- The instants are those of the end, of the stop of the task, and of the resumption of the one that
-- the worker executed before.
unfoldable pub epilog : State → ℕ → ℕ → ℕ → ℕ → Option State
epilog s i ended stop resume = do
  t ← nth s.tasks i
  twc ← nth s.twcs t.twc
  twc' ← finish twc s.worker
  some (record s {
    tasks =
        update
          (on_task t.predecessor (start_clock resume)
            (update s.tasks i (end_task s twc.num_passes ended stop)))
          i (λ t. record t { is_done = 1 });
    twcs = set s.twcs t.twc twc';
    current_task = t.predecessor;
    task_list = if s.task_stats then i ∷ s.task_list else s.task_list;
  })

-- The five instants of an execution, in order
pub record Instants : Type 0 where
  pub stop : ℕ
  pub start : ℕ
  pub ended : ℕ
  pub finish_at : ℕ
  pub resume : ℕ

-- `call` is the call of a task's function. The epilog is for the task that the worker executes then,
-- "since task can be chained with fake tasks".
unfoldable pub execute : (ℕ → Argument → State → Option State) → State → ℕ → Instants → Option State
execute call s i t = do
  s' ← prolog s i t.stop t.start
  task ← nth s'.tasks i
  s'' ← call task.func task.argument s'
  current ← s''.current_task
  epilog s'' current t.ended t.finish_at t.resume

-- `to_policy` is the policy's `push`, and `to_worker` is `mir_worker_push`, which ends the process
-- if the private queue is full. `target` is the worker's id, or none if that is negative.
module _ (to_policy : State → ℕ → Option (State × Bool))
    (to_worker : State → ℕ → ℕ → Option State) where
  abbrev pub push_task : State → ℕ → Option ℕ → Option (State × Bool)
  push_task s i none = to_policy s i
  push_task s i (some w) = do assert (ltb w s.num_workers); s' ← to_worker s w i; some (s', true)

  unfoldable pub schedule_on_worker : State → ℕ → Option ℕ → ℕ → ℕ → Option State
  schedule_on_worker s i target start end = do
    _ ← nth s.tasks i
    (s', pushed) ← push_task s i target
    let tasks' =
        if pushed then on_task s'.current_task (add_overhead start end) s'.tasks else s'.tasks
    some (record s' { tasks = tasks' })

  -- `num_tasks_waiting` is the global counter. An inlined function is called at once, within the
  -- worker's current task.
  unfoldable pub create_on_worker :
      (ℕ → ℕ → State → Option State)
      → State
      → ℕ
      → Request
      → Option ℕ
      → (start end now : ℕ) → (schedule_start schedule_end : ℕ) → Option State
  create_on_worker call s num_tasks_waiting r target start end now schedule_start schedule_end =
      let inlined = inline_necessary s.inlining_limit s.is_numa num_tasks_waiting s.num_workers in
      if (elim target [ none ↦ inlined | some w ↦ false ])
      then (do
        s' ← call r.func r.pointer s
        let n = if s'.worker_stats then add32 s'.num_tasks_inlined 1 else s'.num_tasks_inlined
        some (record s' { num_tasks_inlined = n }))
      else (do
        (s', i) ← create_common s r s.current_task start end now
        schedule_on_worker s' i target schedule_start schedule_end)

-- `work` is `mir_worker_do_work`, which may execute a task; `now` is the instant when the loop of
-- `mir_task_wait_int` ends. On fuel: each round is one look for work.
unfoldable pub wait_loop : (State → Option State) → ℕ → State → ℕ → Option State
wait_loop work zero s twc = none
wait_loop work (suc fuel) s twc = do
  t ← nth s.twcs twc
  over ← reduce t
  let more = (do s' ← work s; wait_loop work fuel s' twc)
  if over then some s else more

abbrev pub elapsed_of : State → ℕ → Option ℕ
elapsed_of s now = do i ← s.current_task; t ← nth s.tasks i; some (elapsed_execution_time t now)

unfoldable pub wait_int : (State → Option State) → ℕ → State → ℕ → ℕ → ℕ → Option State
wait_int work fuel s twc newval now = do
  t ← nth s.twcs twc
  if t.count == 0 then some s else (do
    s' ← wait_loop work fuel s twc
    t' ← nth s'.twcs twc
    some (record s' { twcs = set s'.twcs twc (pass t' (elapsed_of s' now) newval) }))

-- `mir_task_wait`
unfoldable pub wait : (State → Option State) → ℕ → State → ℕ → Option State
wait work fuel s now = do
  twc ← elim s.current_task [ none ↦ some 0 | some i ↦ (do t ← nth s.tasks i; some t.ctwc) ]
  wait_int work fuel s twc 0 now
