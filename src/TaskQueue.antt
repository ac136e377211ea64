-- ===== src/TaskQueue.antt =====
-- src/mir_task_queue.c and src/mir_task_queue.h, in the build without MIR_GPL: the queue of tasks.
-- The struct has the fields of `struct mir_queue_t` in the same order, and the scheduling policies
-- call `mir_queue_pop` on it by a cast, so the model shares the type.
pub mod Refine
use mir_dev.Base.{
  ltb, leb, ◌==◌, if◌then◌else◌, ltb→lt, lt→ltb, leb→le, ==_iff, Bool-cases, Option-cases, ◌>>=◌,
  ◌>>◌, assert, length, get_or, set, replicate, length-append, length-replicate, length-set,
  get_or-set_self, get_or-set_ne, AllSet, AllSet-snoc, AllSet-init, AllSet-cons, All, u16_mod,
  u32_mod, u64_mod, add16, add32, sub32, add64, sub64, all_below, all_below_lem, count, ℕ, zero,
  suc, ◌+◌, ◌-◌, ◌*◌, ◌/◌, ◌%◌, ◌^◌, ◌≤◌, ◌<◌, min, max, ◌≡◌, refl, sym, ap, ap₂, subst, ◌∙◌, ◌≢◌,
  ◌↔◌, ◌⊎◌, inl, inr, Bool, true, false, not, ◌&&◌, ◌||◌, Option, none, some, List, [], ◌∷◌, ◌++◌,
  map, append-nil, append_assoc, arith, dec_lt, ℕ_discrete, mod-add-mod, mod-eq_of_lt,
  mod-eq-sub-mod, add-zero,
}
use mir_dev.Queue.{Queue, advance}

abbrev pub TaskQueue : Type 0
TaskQueue = Queue

-- `TASK_QUEUE_FULL` and `TASK_QUEUE_EMPTY`
pub is_full : TaskQueue → Bool
is_full q = q.size == q.capacity

pub is_empty : TaskQueue → Bool
is_empty q = q.size == 0

unfoldable pub create : ℕ → Option TaskQueue
create capacity = do
  assert (ltb 0 capacity)
  some (record {
    buffer = replicate capacity 0;
    capacity = capacity;
    size = 0;
    in_pos = 0;
    out_pos = 0;
  })

unfoldable pub push : TaskQueue → ℕ → Option (TaskQueue × Bool)
unfolding is_full
push q task = do
  assert (not (task == 0))
  if is_full q
      then some (q, false)
      else some (
        record q {
          buffer = set q.buffer q.in_pos task;
          in_pos = advance q.in_pos q.capacity;
          size = add32 q.size 1;
        },
        true,
      )

-- The task, or NULL from an empty queue
unfoldable pub pop : TaskQueue → Option (TaskQueue × ℕ)
unfolding is_empty
pop q = if is_empty q then some (q, 0) else (do
  let task = get_or q.buffer q.out_pos 0
  assert (not (task == 0))
  some (record q { size = sub32 q.size 1; out_pos = advance q.out_pos q.capacity }, task))

unfoldable pub size_of : TaskQueue → ℕ
size_of q = q.size
