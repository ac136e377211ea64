-- ===== src/Task/Tests.antt =====
-- The theorems at concrete tasks.
use mir_dev.Base.{
  if◌then◌else◌, All, u64_mod, nth, ℕ, zero, suc, ◌+◌, ◌-◌, ◌<◌, ◌≡◌, refl, ap, false, none, some,
  [], ◌∷◌, arith,
}
use mir_dev.Twc as Twc
use mir_dev.Twc.{Twc, link, finish}
use mir_dev.Task.{pointed, Task, State, elapsed_execution_time, default_name, no_metadata}
use mir_dev.Task.Create.{Request, create_common}
use mir_dev.Task.Run.{prolog, epilog}
use mir_dev.Task.Numbers.{IsNumbered}
use mir_dev.Task.Numbers.New.{IsRequest, IsNew}
use mir_dev.Task.Numbers.Keep.{create_common-IsNumbered}
use mir_dev.Task.Context.{Chained, clock_at}
use mir_dev.Twc.{reduce, pass}
use mir_dev.Task.Time.{Runs, works, nests}
use mir_dev.Task.Time.Elapsed.{Runs-elapsed}

abbrev a_task : Task
a_task = record {
  func = 100;
  argument = pointed 0;
  data_size = 0;
  uid = 1;
  child_number = 1;
  num_children = 0;
  sync_pass = 0;
  twc = 0;
  ctwc = 1;
  comm_cost = u64_mod - 1;
  name = default_name;
  metadata = no_metadata;
  parent = none;
  predecessor = none;
  cpu_id = 0;
  create_instant = 0;
  exec_resume_instant = 10;
  exec_end_instant = 0;
  exec_cycles = 5;
  creation_cycles = 0;
  overhead_cycles = 0;
  queue_size_at_pop = 0;
  loop = 0;
  team = 0;
  is_done = 0;
  is_taken = 0;
  data_footprints = [];
  dist_by_access_type = none ∷ none ∷ [];
}

abbrev a_child : Task
a_child = record a_task {
  uid = 2;
  twc = 1;
  ctwc = 2;
  parent = some 0;
  exec_resume_instant = 0;
  exec_cycles = 0;
}

abbrev a_twc : Twc
a_twc = record { count = 1; num_passes = 0; pass_time = 0 ∷ []; count_per_worker = 0 ∷ 0 ∷ [] }

-- The worker executes the first task.
abbrev start : State
start = record {
  tasks = a_task ∷ a_child ∷ [];
  twcs = a_twc ∷ a_twc ∷ a_twc ∷ [];
  tasks_uidc = 3;
  num_children_tasks = 1;
  num_workers = 2;
  init_time = 0;
  task_stats = false;
  worker_stats = false;
  inlining_limit = 0;
  is_numa = false;
  worker = 1;
  cpu = 1;
  current_task = some 0;
  task_list = [];
  num_tasks_inlined = 0;
}

abbrev in_child : State
in_child = record start {
  tasks =
      record a_task { exec_cycles = 15 }
      ∷ record a_child { predecessor = some 0; exec_resume_instant = 21 }
      ∷ [];
  current_task = some 1;
}

abbrev back : State
back = record start {
  tasks =
      record a_task { exec_cycles = 15; exec_resume_instant = 35 }
      ∷ record a_child {
        predecessor = some 0;
        exec_resume_instant = 21;
        exec_cycles = 10;
        exec_end_instant = 30;
        cpu_id = 1;
        is_done = 1;
      }
      ∷ [];
  twcs = a_twc ∷ record a_twc { count_per_worker = 0 ∷ 1 ∷ [] } ∷ a_twc ∷ [];
}

prolog_child : prolog start 1 20 21 ≡ some in_child
unfolding prolog elapsed_execution_time
prolog_child = refl

epilog_child : epilog in_child 1 30 31 35 ≡ some back
unfolding epilog elapsed_execution_time finish
epilog_child = refl

-- The first task works up to instant 20, executes the second up to 35, and works up to 50.
nested_run : Runs (0 ∷ []) start back 12 50 15
nested_run =
    nests 1 1 20 21 30 31 35 (omega arith) (omega arith) ((λ e. absurd (omega arith)), tt)
      prolog_child (works (omega arith)) refl epilog_child (omega arith) (works (omega arith))

Runs-elapsed_example :
    (t' : Task) × (nth back.tasks 0 ≡ some t')
    × (elapsed_execution_time t' 50 + 15 ≡ elapsed_execution_time a_task 50)
    × Chained (clock_at back) back.current_task (0 ∷ [])
    × All (λ q. clock_at back q ≡ clock_at start q) []
Runs-elapsed_example =
    Runs-elapsed 0 [] start back 12 50 15 a_task nested_run (tt, tt) (refl, none, refl, refl) refl
      (omega arith) (omega arith) (omega arith)

abbrev one_task : State
one_task = record start {
  tasks = a_task ∷ [];
  twcs = a_twc ∷ a_twc ∷ [];
  tasks_uidc = 2;
  current_task = none;
}

abbrev request : Request
request = record {
  func = 101;
  pointer = 0;
  bytes = 7 ∷ [];
  footprints = [];
  name = none;
  team = 0;
  loop = 0;
}

one_task-IsNumbered : IsNumbered one_task
one_task-IsNumbered = record {
  next = refl;
  numbered = (refl, refl, tt);
  of_runtime = refl;
  of_task = each;
  of_new = λ p le. ground arith;
  of_waits = omega arith;
}
  where
    each :
        (p : ℕ) (t : Task)
        → nth one_task.tasks p ≡ some t
        → (t.num_children ≡ (if false then 1 else 0) + 0) × (t.ctwc < 2) × (t.twc < 2)
    each zero t e =
        let same : a_task ≡ t = cc in
        let n = ap (λ (t : Task). t.num_children) same in
        let c = ap (λ (t : Task). t.ctwc) same in
        let w = ap (λ (t : Task). t.twc) same in (omega arith, omega arith, omega arith)
    each (suc p) t e = absurd (ground arith)

request-IsRequest : IsRequest request
request-IsRequest = record {
  has_function = omega arith;
  small_data = omega arith;
  short_name = λ name e. absurd (ground arith);
}

create_common-IsNumbered_example :
    (s' : State) × (task : Task) × (w : Twc) × (create_common one_task request (some 0) 40 42 43
      ≡ some (s', 1))
    × (nth s'.tasks 1 ≡ some task)
    × IsNew one_task (some 0) task
    × (nth one_task.twcs task.twc ≡ some w)
    × (nth s'.twcs task.twc ≡ some (link w))
    × (nth s'.twcs task.ctwc ≡ some (Twc.create 2))
    × IsNumbered s'
create_common-IsNumbered_example =
    create_common-IsNumbered one_task request (some 0) 40 42 43 one_task-IsNumbered
      request-IsRequest (omega arith) (omega arith)
