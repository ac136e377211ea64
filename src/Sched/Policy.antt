-- ===== src/Sched/Policy.antt =====
-- src/scheduling/mir_sched_pol.c: the policies by their names, and what each creates.
pub mod Name
pub mod Start
mod Tests
use mir_dev.Base.{
  ltb, leb, ◌==◌, if◌then◌else◌, ltb→lt, lt→ltb, leb→le, ==_iff, Bool-cases, Option-cases, ◌>>=◌,
  ◌>>◌, assert, length, get_or, set, replicate, length-append, length_zero, length-replicate,
  length-set, get_or-set_self, get_or-set_ne, AllSet, AllSet-snoc, AllSet-init, AllSet-cons, All,
  u16_mod, u32_mod, u64_mod, add16, add32, sub32, add64, sub64, all_below, all_below_lem, count,
  count-append, nth, update, total, length-update, nth-lt, nth-bound, nth-update_self,
  nth-update_ne, nth-update_absent, nth-append_left, nth-append_last, nth-append_cases,
  nth-update_cases, nth-set_self, set_same, nth-set_ne, total-set, total-update, le-total, All-nth,
  All-set, All-intro, ℕ, zero, suc, ◌+◌, ◌-◌, ◌*◌, ◌/◌, ◌%◌, ◌^◌, ◌≤◌, ◌<◌, min, max, ◌≡◌, refl,
  sym, ap, ap₂, subst, ◌∙◌, ◌≢◌, ◌↔◌, ◌⊎◌, inl, inr, Bool, true, false, not, ◌&&◌, ◌||◌, Option,
  none, some, List, [], ◌∷◌, ◌++◌, map, append-nil, append_assoc, arith, dec_lt, ℕ_discrete,
  mod-add-mod, mod-eq_of_lt, mod-eq-sub-mod, add-zero,
}
use mir_dev.Dequeue as Dequeue
use mir_dev.Dequeue.{Dequeue}
use mir_dev.Queue.{Queue}
use mir_dev.Stack.{Stack}
use mir_dev.TaskQueue as TaskQueue
use mir_dev.TaskStack as TaskStack

-- The variables `policy_central`, `policy_ws` and so on
pub data Policy : Type 0 where
  policy_central policy_ws policy_numa policy_central_stack policy_ws_de policy_ws_de_node : Policy

-- The strings, by their characters: "central", "-stack", "ws", "-de", "-node" and "numa"
abbrev pub central_text : List ℕ
central_text = 99 ∷ 101 ∷ 110 ∷ 116 ∷ 114 ∷ 97 ∷ 108 ∷ []

abbrev pub stack_text : List ℕ
stack_text = 45 ∷ 115 ∷ 116 ∷ 97 ∷ 99 ∷ 107 ∷ []

abbrev pub ws_text : List ℕ
ws_text = 119 ∷ 115 ∷ []

abbrev pub de_text : List ℕ
de_text = 45 ∷ 100 ∷ 101 ∷ []

abbrev pub node_text : List ℕ
node_text = 45 ∷ 110 ∷ 111 ∷ 100 ∷ 101 ∷ []

abbrev pub numa_text : List ℕ
numa_text = 110 ∷ 117 ∷ 109 ∷ 97 ∷ []

-- The field `name`
abbrev pub name_of : Policy → List ℕ
name_of policy_central = central_text
name_of policy_ws = ws_text
name_of policy_numa = numa_text
name_of policy_central_stack = central_text ++ stack_text
name_of policy_ws_de = ws_text ++ de_text
name_of policy_ws_de_node = ws_text ++ (de_text ++ node_text)

-- `0 == strcmp(a, b)`
abbrev pub same_text : List ℕ → List ℕ → Bool
same_text [] [] = true
same_text (x ∷ xs) (y ∷ ys) = (x == y) && same_text xs ys
same_text _ _ = false

-- `mem_pol` is whether MIR_MEM_POL_ENABLE is defined.
unfoldable pub get_by_name : Bool → List ℕ → Option Policy
get_by_name mem_pol name =
    if same_text name central_text
    then some policy_central
    else if same_text name ws_text
    then some policy_ws
    else if mem_pol && same_text name numa_text
    then some policy_numa
    else if same_text name (central_text ++ stack_text)
    then some policy_central_stack
    else if same_text name (ws_text ++ de_text)
    then some policy_ws_de
    else if same_text name (ws_text ++ (de_text ++ node_text))
    then some policy_ws_de_node
    else none

-- The loop that creates the queues of a policy; `make` ends the process if it cannot.
unfoldable pub create_queues : {Q : Type 0} → (ℕ → Option Q) → ℕ → ℕ → Option (List Q)
create_queues make queue_capacity zero = some []
create_queues make queue_capacity (suc n) = do
  queue ← make queue_capacity
  queues ← create_queues make queue_capacity n
  some (queue ∷ queues)

-- `num_queues` is 1 in the policies with a central queue, and else set to the number of workers or
-- nodes.
unfoldable pub create_central : ℕ → Option (List Queue)
create_central queue_capacity = create_queues TaskQueue.create queue_capacity 1

unfoldable pub create_central_stack : ℕ → Option (List Stack)
create_central_stack queue_capacity = create_queues TaskStack.create queue_capacity 1

unfoldable pub create_ws : ℕ → ℕ → Option (List Queue)
create_ws queue_capacity num_workers = create_queues TaskQueue.create queue_capacity num_workers

unfoldable pub create_ws_de : ℕ → ℕ → Option (List Dequeue)
create_ws_de queue_capacity num_workers = create_queues Dequeue.new queue_capacity num_workers

unfoldable pub create_ws_de_node : ℕ → ℕ → Option (List Dequeue)
create_ws_de_node queue_capacity num_workers = create_queues Dequeue.new queue_capacity num_workers

-- The queues, then the alternate queues
unfoldable pub create_numa : ℕ → ℕ → Option (List Queue × List Queue)
create_numa queue_capacity num_nodes = do
  queues ← create_queues TaskQueue.create queue_capacity num_nodes
  alt_queues ← create_queues TaskQueue.create queue_capacity num_nodes
  some (queues, alt_queues)
