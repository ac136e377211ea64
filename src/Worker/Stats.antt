-- ===== src/Worker/Stats.antt =====
-- src/mir_worker.c: the statistics of a worker.
use mir_dev.Base.{
  ltb, if◌then◌else◌, replicate, u64_mod, add32, add64, ℕ, ◌-◌, ◌/◌, Bool, ◌&&◌, List, [],
}

-- `struct mir_worker_statistics_t`. A NULL array is an empty list.
pub record Stats : Type 0 where
  pub id : ℕ
  pub num_tasks_created : ℕ
  pub num_tasks_owned : ℕ
  pub num_tasks_stolen : ℕ
  pub num_tasks_inlined : ℕ
  pub num_comm_tasks : ℕ
  pub total_comm_cost : ℕ
  pub lowest_comm_cost : ℕ
  pub highest_comm_cost : ℕ
  pub num_comm_tasks_stolen_by_diameter : List ℕ

-- `is_numa` is the comparison of the policy's name. The lowest cost starts at -1 as an
-- `unsigned long`.
unfoldable pub init : ℕ → Bool → ℕ → Stats
init worker_id is_numa diameter = record {
  id = worker_id;
  num_tasks_created = 0;
  num_tasks_owned = 0;
  num_tasks_stolen = 0;
  num_tasks_inlined = 0;
  num_comm_tasks = 0;
  total_comm_cost = 0;
  lowest_comm_cost = u64_mod - 1;
  highest_comm_cost = 0;
  num_comm_tasks_stolen_by_diameter =
      if is_numa && ltb 0 diameter then replicate diameter 0 else [];
}

unfoldable pub update_comm_cost : Stats → ℕ → Stats
update_comm_cost s comm_cost = record s {
  num_comm_tasks = add32 s.num_comm_tasks 1;
  total_comm_cost = add64 s.total_comm_cost comm_cost;
  lowest_comm_cost = if ltb comm_cost s.lowest_comm_cost then comm_cost else s.lowest_comm_cost;
  highest_comm_cost = if ltb s.highest_comm_cost comm_cost then comm_cost else s.highest_comm_cost;
}

-- The average that is written to the file
unfoldable pub avg_comm_cost : Stats → ℕ
avg_comm_cost s =
    if ltb 1 s.num_comm_tasks then s.total_comm_cost / s.num_comm_tasks else s.total_comm_cost

pub count_created : Stats → Stats
count_created s = record s { num_tasks_created = add32 s.num_tasks_created 1 }

pub count_owned : Stats → Stats
count_owned s = record s { num_tasks_owned = add32 s.num_tasks_owned 1 }

pub count_stolen : Stats → Stats
count_stolen s = record s { num_tasks_stolen = add32 s.num_tasks_stolen 1 }

pub count_inlined : Stats → Stats
count_inlined s = record s { num_tasks_inlined = add32 s.num_tasks_inlined 1 }
