-- ===== src/Task/Create.antt =====
-- src/mir_task.c: the creation of a task.
use mir_dev.Base.{
  ltb, leb, ◌==◌, ◌>>=◌, ◌>>◌, assert, length, set, u64_mod, add32, add64, sub64, nth, update, ℕ,
  ◌-◌, not, Option, none, some, List, [], ◌∷◌, ◌++◌, map,
}
use mir_dev.Twc as Twc
use mir_dev.Twc.{Twc, link}
use mir_dev.Task.{
  Argument, copied, pointed, Footprint, Task, State, on_task, default_name, no_metadata,
  short_name_len, data_max_size, elapsed_execution_time, write_metadata,
}

-- The caller's data: what stands at the pointer, if `data_size` is not 0
unfoldable pub take_argument : ℕ → List ℕ → Option Argument
take_argument pointer [] = some (pointed pointer)
take_argument pointer (b ∷ bytes) = do
  assert (leb (length (b ∷ bytes)) data_max_size)
  some (copied (b ∷ bytes))

abbrev pub take_name : Option (List ℕ) → Option (List ℕ)
take_name none = some default_name
take_name (some name) = do assert (ltb (length name) short_name_len); some name

-- The wait counter a new task is linked to
abbrev pub twc_of : State → Option ℕ → Option ℕ
twc_of s none = some 0
twc_of s (some p) = do parent ← nth s.tasks p; some parent.ctwc

-- `num_children` of the parent, or of the runtime
abbrev pub children_of : State → Option ℕ → Option ℕ
children_of s none = some s.num_children_tasks
children_of s (some p) = do parent ← nth s.tasks p; some parent.num_children

-- The parent's elapsed time at the creation, after its new overhead
abbrev pub instant_of : State → Option ℕ → ℕ → Option ℕ
instant_of s none now = some 0
instant_of s (some p) now = do parent ← nth s.tasks p; some (elapsed_execution_time parent now)

-- What a child's creation does to its parent
abbrev pub with_child : ℕ → Task → Task
with_child cycles t = record t {
  num_children = add32 t.num_children 1;
  overhead_cycles = add64 t.overhead_cycles cycles;
}

-- `struct mir_data_footprint_t data_footprints[]` is copied one by one.
unfoldable pub footprint_copy : Footprint → Footprint
footprint_copy f = record {
  base = f.base;
  kind = f.kind;
  start = f.start;
  last = f.last;
  row_sz = f.row_sz;
  data_access = f.data_access;
  part_of = f.part_of;
}

-- The arguments that creation gets from its caller
pub record Request : Type 0 where
  pub func : ℕ
  pub pointer : ℕ
  pub bytes : List ℕ
  pub footprints : List Footprint
  pub name : Option (List ℕ)
  pub team : ℕ
  pub loop : ℕ

-- The new task, from what creation computes; a field that is not set is 0 here.
abbrev pub made_task : State → Request → Option ℕ → ℕ → Argument → List ℕ → ℕ → ℕ → ℕ → Task
made_task s r parent cycles argument name twc children instant = record {
  func = r.func;
  argument = argument;
  data_size = length r.bytes;
  uid = s.tasks_uidc;
  child_number = add32 children 1;
  num_children = 0;
  sync_pass = 0;
  twc = twc;
  ctwc = length s.twcs;
  comm_cost = u64_mod - 1;
  name = name;
  metadata = no_metadata;
  parent = parent;
  predecessor = none;
  cpu_id = 0;
  create_instant = instant;
  exec_resume_instant = 0;
  exec_end_instant = 0;
  exec_cycles = 0;
  creation_cycles = cycles;
  overhead_cycles = 0;
  queue_size_at_pop = 0;
  loop = r.loop;
  team = r.team;
  is_done = 0;
  is_taken = 0;
  data_footprints = map footprint_copy r.footprints;
  dist_by_access_type = none ∷ none ∷ [];
}

-- The three instants are those of the entry, of the end of the creation, and of the record of the
-- creation's instant.
unfoldable pub new_task : State → Request → Option ℕ → ℕ → ℕ → ℕ → Option Task
new_task s r parent start end now = do
  assert (not (r.func == 0))
  argument ← take_argument r.pointer r.bytes
  name ← take_name r.name
  twc ← twc_of s parent
  _ ← nth s.twcs twc
  children ← children_of s parent
  instant ← instant_of s parent now
  some (made_task s r parent (sub64 end start) argument name twc children instant)

-- What the creation does to the parent, the wait counter and the counters
unfoldable pub add_task : State → Option ℕ → Task → State
add_task s parent task = record s {
  tasks = on_task parent (with_child task.creation_cycles) s.tasks ++ (task ∷ []);
  twcs = update s.twcs task.twc link ++ (Twc.create s.num_workers ∷ []);
  tasks_uidc = add64 s.tasks_uidc 1;
  num_children_tasks = elim parent [
    | none ↦ add32 s.num_children_tasks 1
    | some p ↦ s.num_children_tasks
  ];
}

-- The new task is the last of the list.
unfoldable pub create_common : State → Request → Option ℕ → ℕ → ℕ → ℕ → Option (State × ℕ)
create_common s r parent start end now = do
  task ← new_task s r parent start end now
  some (add_task s parent task, length s.tasks)

abbrev pointer_of : Argument → ℕ
pointer_of (copied bytes) = 0
pointer_of (pointed p) = p

abbrev bytes_of : Argument → List ℕ
bytes_of (copied bytes) = bytes
bytes_of (pointed p) = []

unfoldable pub create_twin :
    State → Option (List ℕ) → ℕ → Option (List ℕ) → ℕ → ℕ → ℕ → Option (State × ℕ)
create_twin s name i metadata start end now = do
  t ← nth s.tasks i
  let r : Request = record {
    func = t.func;
    pointer = pointer_of t.argument;
    bytes = bytes_of t.argument;
    footprints = t.data_footprints;
    name = name;
    team = t.team;
    loop = t.loop;
  }
  (s', twin) ← create_common s r t.parent start end now
  made ← nth s'.tasks twin
  made' ← write_metadata made metadata
  some (record s' { tasks = set s'.tasks twin made' }, twin)
