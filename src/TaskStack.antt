-- ===== src/TaskStack.antt =====
-- src/mir_task_stack.c and src/mir_task_stack.h, in the build without MIR_GPL: the stack of tasks,
-- with the fields of `struct mir_stack_t`.
pub mod Refine
use mir_dev.Base.{
  ltb, leb, ◌==◌, if◌then◌else◌, ltb→lt, lt→ltb, leb→le, ==_iff, Bool-cases, Option-cases, ◌>>=◌,
  ◌>>◌, assert, length, get_or, set, replicate, length-append, length-replicate, length-set,
  get_or-set_self, get_or-set_ne, AllSet, AllSet-snoc, AllSet-init, AllSet-cons, All, u16_mod,
  u32_mod, u64_mod, add16, add32, sub32, add64, sub64, all_below, all_below_lem, count, ℕ, zero,
  suc, ◌+◌, ◌-◌, ◌*◌, ◌/◌, ◌%◌, ◌^◌, ◌≤◌, ◌<◌, min, max, ◌≡◌, refl, sym, ap, ap₂, subst, ◌∙◌, ◌≢◌,
  ◌↔◌, ◌⊎◌, inl, inr, Bool, true, false, not, ◌&&◌, ◌||◌, Option, none, some, List, [], ◌∷◌, ◌++◌,
  map, append-nil, append_assoc, arith, dec_lt, ℕ_discrete, mod-add-mod, mod-eq_of_lt,
  mod-eq-sub-mod, add-zero,
}
use mir_dev.Stack.{Stack}

abbrev pub TaskStack : Type 0
TaskStack = Stack

-- `TASK_STACK_FULL` and `TASK_STACK_EMPTY`
pub is_full : TaskStack → Bool
is_full s = s.head == s.capacity

pub is_empty : TaskStack → Bool
is_empty s = s.head == 0

unfoldable pub create : ℕ → Option TaskStack
create capacity = some (record { buffer = replicate capacity 0; capacity = capacity; head = 0 })

unfoldable pub push : TaskStack → ℕ → Option (TaskStack × Bool)
unfolding is_full
push s task = do
  assert (not (task == 0))
  if is_full s
      then some (s, false)
      else some (record s { buffer = set s.buffer s.head task; head = add32 s.head 1 }, true)

-- `out` is what `*data` holds before the call; an empty stack leaves it.
unfoldable pub pop : TaskStack → ℕ → Option (TaskStack × ℕ)
unfolding is_empty
pop s out = if is_empty s then some (s, out) else (do
  let task = get_or s.buffer (sub32 s.head 1) 0
  assert (not (task == 0))
  some (record s { head = sub32 s.head 1 }, task))

unfoldable pub size_of : TaskStack → ℕ
size_of s = s.head
