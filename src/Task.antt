-- ===== src/Task.antt =====
-- src/mir_task.c: tasks, as one worker sees them. A task and a wait counter are known by their place
-- in a list; a pointer that may be NULL is an `Option`. The instants that `mir_get_cycles` gives are
-- arguments.
pub mod Create
pub mod Run
pub mod Numbers
pub mod Context
pub mod Time
pub mod Dist
mod Tests
use mir_dev.Base.{
  ltb, leb, ◌==◌, if◌then◌else◌, ltb→lt, lt→ltb, leb→le, ==_iff, Bool-cases, Option-cases, ◌>>=◌,
  ◌>>◌, assert, length, get_or, set, replicate, length-append, length_zero, length-replicate,
  length-set, get_or-set_self, get_or-set_ne, AllSet, AllSet-snoc, AllSet-init, AllSet-cons, All,
  u16_mod, u32_mod, u64_mod, add16, add32, sub32, add64, sub64, all_below, all_below_lem, count,
  count-append, nth, update, total, length-update, nth-lt, nth-bound, nth-update_self,
  nth-update_ne, nth-update_absent, nth-append_left, nth-append_last, nth-append_cases,
  nth-update_cases, nth-set_self, set_same, nth-set_ne, total-set, total-update, le-total, All-nth,
  All-set, All-intro, ℕ, zero, suc, ◌+◌, ◌-◌, ◌*◌, ◌/◌, ◌%◌, ◌^◌, ◌≤◌, ◌<◌, min, max, ◌≡◌, refl,
  sym, ap, ap₂, subst, ◌∙◌, ◌≢◌, ◌↔◌, ◌⊎◌, inl, inr, Bool, true, false, not, ◌&&◌, ◌||◌, Option,
  none, some, List, [], ◌∷◌, ◌++◌, map, append-nil, append_assoc, arith, dec_lt, ℕ_discrete,
  mod-add-mod, mod-eq_of_lt, mod-eq-sub-mod, add-zero,
}
use mir_dev.Twc as Twc
use mir_dev.Twc.{Twc, link, finish}

-- The argument of a task's function: a copy of the caller's data, or its pointer if it has no size
pub data Argument : Type 0 where
  copied : List ℕ → Argument
  pointed : ℕ → Argument

-- `struct mir_data_footprint_t`
pub record Footprint : Type 0 where
  pub base : ℕ
  pub kind : ℕ
  pub start : ℕ
  pub last : ℕ
  pub row_sz : ℕ
  pub data_access : ℕ
  pub part_of : ℕ

-- `struct mir_task_t`. A string is the list of its characters.
pub record Task : Type 0 where
  pub func : ℕ
  pub argument : Argument
  pub data_size : ℕ
  pub uid : ℕ
  pub child_number : ℕ
  pub num_children : ℕ
  pub sync_pass : ℕ
  pub twc : ℕ
  pub ctwc : ℕ
  pub comm_cost : ℕ
  pub name : List ℕ
  pub metadata : List ℕ
  pub parent : Option ℕ
  pub predecessor : Option ℕ
  pub cpu_id : ℕ
  pub create_instant : ℕ
  pub exec_resume_instant : ℕ
  pub exec_end_instant : ℕ
  pub exec_cycles : ℕ
  pub creation_cycles : ℕ
  pub overhead_cycles : ℕ
  pub queue_size_at_pop : ℕ
  pub loop : ℕ
  pub team : ℕ
  pub is_done : ℕ
  pub is_taken : ℕ
  pub data_footprints : List Footprint
  pub dist_by_access_type : List (Option (List ℕ))

-- What the calls of a worker use: the tasks and the wait counters, of which the first is the
-- runtime's own, some fields of `runtime`, and the worker's. `is_numa` is the test of the policy's
-- name, and `num_tasks_inlined` a field of the worker's statistics.
pub record State : Type 0 where
  pub tasks : List Task
  pub twcs : List Twc
  pub tasks_uidc : ℕ
  pub num_children_tasks : ℕ
  pub num_workers : ℕ
  pub init_time : ℕ
  pub task_stats : Bool
  pub worker_stats : Bool
  pub inlining_limit : ℕ
  pub is_numa : Bool
  pub worker : ℕ
  pub cpu : ℕ
  pub current_task : Option ℕ
  pub task_list : List ℕ
  pub num_tasks_inlined : ℕ

abbrev pub short_name_len : ℕ
short_name_len = 32

abbrev pub data_max_size : ℕ
data_max_size = 256

-- "nameless_task"
abbrev pub default_name : List ℕ
default_name = 110 ∷ 97 ∷ 109 ∷ 101 ∷ 108 ∷ 101 ∷ 115 ∷ 115 ∷ 95 ∷ 116 ∷ 97 ∷ 115 ∷ 107 ∷ []

-- "NA"
abbrev pub no_metadata : List ℕ
no_metadata = 78 ∷ 65 ∷ []

-- A write through a pointer that may be NULL, which does nothing then
abbrev pub on_task : Option ℕ → (Task → Task) → List Task → List Task
on_task none f tasks = tasks
on_task (some i) f tasks = update tasks i f

unfoldable pub elapsed_execution_time : Task → ℕ → ℕ
elapsed_execution_time t now = add64 t.exec_cycles (sub64 now t.exec_resume_instant)

unfoldable pub write_metadata : Task → Option (List ℕ) → Option Task
write_metadata t none = some (record t { metadata = no_metadata })
write_metadata t (some metadata) = do
  assert (ltb (length metadata) short_name_len)
  some (record t { metadata = metadata })
