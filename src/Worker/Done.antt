-- ===== src/Worker/Done.antt =====
-- src/mir_worker.c: the counters by which the runtime finds out, before it ends, that no task is left.
-- The steps are the accesses to what the workers share, in the order in which `mir_worker_do_work`,
-- `mir_pop` and the pushes make them.
use mir_dev.Base.{
  set, replicate, u32_mod, add32, sub32, nth, total, ℕ, suc, ◌+◌, ◌%◌, ◌<◌, ◌≡◌, some, List,
}

-- Between its steps a worker is settled, or has put a task into a queue and not counted it, or has
-- taken one out and still counts it, or holds one that it counts no more and does not execute yet.
pub data Phase : Type 0 where
  settled pushed popped held : Phase

-- `depth` is the number of tasks the worker executes, one inside the other.
pub record Worker : Type 0 where
  pub depth : ℕ
  pub phase : Phase

-- `g_num_tasks_waiting` and `g_worker_status_board`, the tasks in all queues, and the workers
pub record Shared : Type 0 where
  pub waiting : ℕ
  pub board : ℕ
  pub queued : ℕ
  pub workers : List Worker

abbrev pub at : ℕ → Phase → Worker
at depth phase = record { depth = depth; phase = phase }

pub data Step : Shared → Shared → Type 0 where
  push_in :
      (a b q : ℕ) (ws : List Worker) (i d : ℕ)
      → nth ws i ≡ some (at d settled)
      → Step
          (record { waiting = a; board = b; queued = q; workers = ws })
          (record { waiting = a; board = b; queued = suc q; workers = set ws i (at d pushed) })
  push_count :
      (a b q : ℕ) (ws : List Worker) (i d : ℕ)
      → nth ws i ≡ some (at d pushed)
      → Step
          (record { waiting = a; board = b; queued = q; workers = ws })
          (record { waiting = add32 a 1; board = b; queued = q; workers = set ws i (at d settled) })
  pop_out :
      (a b q : ℕ) (ws : List Worker) (i d : ℕ)
      → nth ws i ≡ some (at d settled)
      → Step
          (record { waiting = a; board = b; queued = suc q; workers = ws })
          (record { waiting = a; board = b; queued = q; workers = set ws i (at d popped) })
  pop_count :
      (a b q : ℕ) (ws : List Worker) (i d : ℕ)
      → nth ws i ≡ some (at d popped)
      → Step
          (record { waiting = a; board = b; queued = q; workers = ws })
          (record { waiting = sub32 a 1; board = b; queued = q; workers = set ws i (at d held) })
  enter :
      (a b q : ℕ) (ws : List Worker) (i d : ℕ)
      → nth ws i ≡ some (at d held)
      → Step
          (record { waiting = a; board = b; queued = q; workers = ws })
          (record {
            waiting = a;
            board = add32 b 1;
            queued = q;
            workers = set ws i (at (suc d) settled);
          })
  leave :
      (a b q : ℕ) (ws : List Worker) (i d : ℕ)
      → nth ws i ≡ some (at (suc d) settled)
      → Step
          (record { waiting = a; board = b; queued = q; workers = ws })
          (record { waiting = a; board = sub32 b 1; queued = q; workers = set ws i (at d settled) })

pub data Reach (num_workers : ℕ) : Shared → Type 0 where
  start : Reach num_workers (record {
    waiting = 0;
    board = 0;
    queued = 0;
    workers = replicate num_workers (at 0 settled);
  })
  then_step : {s t : Shared} → Reach num_workers s → Step s t → Reach num_workers t

abbrev uncounted : Worker → ℕ
uncounted w = elim w.phase [ pushed ↦ 1 | _ ↦ 0 ]

abbrev overcounted : Worker → ℕ
overcounted w = elim w.phase [ popped ↦ 1 | _ ↦ 0 ]

-- The workers that have put in a task and not counted it, and those that have taken out one and still
-- count it
abbrev pub pushing : Shared → ℕ
pushing s = total uncounted s.workers

abbrev pub popping : Shared → ℕ
popping s = total overcounted s.workers

-- The tasks in execution
abbrev pub depths : Shared → ℕ
depths s = total (λ (w : Worker). w.depth) s.workers

record Counts (s : Shared) : Type 0 where
  tasks :
      (s.waiting + total uncounted s.workers) % u32_mod
      ≡ (s.queued + total overcounted s.workers) % u32_mod
  word : s.waiting < u32_mod
  running : s.board ≡ depths s % u32_mod
