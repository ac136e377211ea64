-- ===== src/Worker/Work.antt =====
-- src/mir_worker.c: what a worker does when it looks for work.
use mir_dev.Base.{
  ltb, ◌==◌, if◌then◌else◌, ◌>>=◌, ◌>>◌, assert, set, u32_mod, add32, sub32, nth, ℕ, ◌+◌, ◌*◌, ◌%◌,
  not, Option, some,
}
use mir_dev.TaskQueue as TaskQueue
use mir_dev.TaskQueue.{TaskQueue}
use mir_dev.Worker.Stats.{count_created, count_owned}
use mir_dev.Sched.{State, counted}

-- `MIR_WORKER_EXP_BOFF_RESET`, `MIR_WORKER_EXP_BOFF_SCALE` and `MIR_WORKER_EXP_BOFF_ROOF`
abbrev pub boff_reset : ℕ
boff_reset = 1

abbrev pub boff_scale : ℕ
boff_scale = 2

abbrev pub boff_roof : ℕ
boff_roof = 128

-- The next `backoff_us`, after a sleep
unfoldable pub backoff : ℕ → ℕ
backoff backoff_us =
    if ltb backoff_us boff_roof then backoff_us * boff_scale % u32_mod else backoff_us

unfoldable pub update_bias : ℕ → ℕ → ℕ
update_bias bias num_workers = (bias + 1) % num_workers

module _ {Q : Type 0} where
  -- `from` is the calling worker. A full private queue ends the process.
  unfoldable pub worker_push : State Q → ℕ → ℕ → ℕ → Option (State Q)
  worker_push s from worker task = do
    assert (not (task == 0))
    queue ← nth s.private_queues worker
    (queue', pushed) ← TaskQueue.push queue task
    assert pushed
    some (
        counted count_created from (record s {
          private_queues = set s.private_queues worker queue';
          num_tasks_waiting = add32 s.num_tasks_waiting 1;
        }))

  -- The oldest task, or NULL
  unfoldable pub worker_pop : State Q → ℕ → Option (State Q × ℕ)
  worker_pop s worker = do
    queue ← nth s.private_queues worker
    if TaskQueue.size_of queue == 0 then some (s, 0) else (do
      (queue', task) ← TaskQueue.pop queue
      assert (not (task == 0))
      some (
        counted count_owned worker (record s {
          private_queues = set s.private_queues worker queue';
          num_tasks_waiting = sub32 s.num_tasks_waiting 1;
        }),
        task,
      ))

  -- `mir_pop`: the private queue first; `pop` is the policy's, which returns NULL for no task.
  unfoldable pub any_pop : (State Q → ℕ → Option (State Q × ℕ)) → State Q → ℕ → Option (State Q × ℕ)
  any_pop pop s worker = do
    (s', task) ← worker_pop s worker
    if not (task == 0) then some (s', task) else pop s' worker
