-- ===== src/TaskStack/Refine.antt =====
-- src/mir_task_stack.c against src/mir_stack.c.
use mir_dev.Base.{ℕ, ◌≡◌, refl}
use mir_dev.Stack as S
use mir_dev.TaskStack.{TaskStack, push, pop}

pub push-same : (s : TaskStack) (task : ℕ) → push s task ≡ S.push s task
unfolding push S.push
push-same s task = refl

pub pop-same : (s : TaskStack) (out : ℕ) → pop s out ≡ S.pop s out
unfolding pop S.pop
pop-same s out = refl
