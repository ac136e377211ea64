-- ===== src/Sched/Fill.antt =====
-- The queues that the policies keep: `central` pushes with `mir_task_queue_push` and pops with
-- `mir_queue_pop`, `ws` uses `mir_queue_push` and `mir_queue_pop`, `central-stack` the task stack.
use mir_dev.Base.{ℕ, Bool, Option}
use mir_dev.Queue as Ring
use mir_dev.Queue.{Queue}
use mir_dev.Queue.Inv as RingInv
use mir_dev.Queue.Bag as RingBag
use mir_dev.Stack as StackRing
use mir_dev.Stack.{Stack}
use mir_dev.Stack.Refine as StackInv
use mir_dev.Stack.Bag as StackBag
use mir_dev.TaskQueue as TaskQueue
use mir_dev.TaskQueue.Refine.{push-same}
use mir_dev.TaskStack as TaskStack
use mir_dev.TaskStack.Refine as TaskStackSame
use mir_dev.Sched.{Container, State, push_central, pop_central}

-- `ws`
abbrev pub ws_queues : Container Queue
ws_queues = record {
  enqueue = Ring.push;
  size_of = Ring.size_of;
  take_out = λ q. Ring.pop q 0;
  IsValid = RingInv.IsValid;
  held = RingInv.contents;
  size-held = λ q v. RingBag.size_of-length q;
  enqueue_lem = RingBag.push_bag;
  take_out_lem = λ q v. RingBag.pop_bag q 0 v;
}

-- `central`
abbrev pub central_queues : Container Queue
central_queues = record {
  enqueue = TaskQueue.push;
  size_of = Ring.size_of;
  take_out = λ q. Ring.pop q 0;
  IsValid = RingInv.IsValid;
  held = RingInv.contents;
  size-held = λ q v. RingBag.size_of-length q;
  enqueue_lem = λ q task v is_task. rw (push-same q task) (RingBag.push_bag q task v is_task);
  take_out_lem = λ q v. RingBag.pop_bag q 0 v;
}

-- `central-stack`
unfoldable pub central_stacks : Container Stack
unfolding TaskStack.size_of StackRing.size_of
central_stacks = record {
  enqueue = TaskStack.push;
  size_of = TaskStack.size_of;
  take_out = λ s. TaskStack.pop s 0;
  IsValid = StackInv.IsValid;
  held = StackInv.contents;
  size-held = λ s v. StackBag.size_of-length s;
  enqueue_lem =
      λ s task v is_task. rw (TaskStackSame.push-same s task) (StackBag.push_bag s task v is_task);
  take_out_lem = λ s v full. rw (TaskStackSame.pop-same s 0) (StackBag.pop_bag s 0 v full);
}

-- The policy `central-stack` is that of `central` on stacks. Its `pop` gets the worker first, and
-- counts the task in the statistics after its communication cost.
pub push_central_stack :
    (ℕ → State Stack → Option (State Stack)) → State Stack → ℕ → ℕ → Option (State Stack × Bool)
push_central_stack = push_central central_stacks

pub pop_central_stack : State Stack → ℕ → Option (State Stack × ℕ)
pop_central_stack = pop_central central_stacks
