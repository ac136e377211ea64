-- ===== src/Task/Dist/Tests.antt =====
-- The theorems on data footprints at a concrete task.
use mir_dev.Base.{
  ◌==◌, length, u64_mod, ℕ, ◌+◌, ◌-◌, ◌≡◌, refl, ◌≢◌, false, none, some, List, [], ◌∷◌, arith,
}
use mir_dev.MemPol.{get_node_of, get_node_from_system}
use mir_dev.MemPol.Pages.{sum}
use mir_dev.Task.{Footprint, Task, pointed, default_name, no_metadata}
use mir_dev.Task.Dist.{row_base, task_dist}
use mir_dev.Task.Dist.Bytes.{Readable, task_dist_lem}

-- A square of four rows of four elements, which is read, and a row of ten, which is written
abbrev square : Footprint
square = record {
  base = 4096;
  kind = 8;
  start = 0;
  last = 3;
  row_sz = 4;
  data_access = 0;
  part_of = 0;
}

abbrev row : Footprint
row = record square { base = 8192; last = 9; row_sz = 1; data_access = 1 }

abbrev reader : Task
reader = record {
  func = 100;
  argument = pointed 0;
  data_size = 0;
  uid = 1;
  child_number = 1;
  num_children = 0;
  sync_pass = 0;
  twc = 0;
  ctwc = 1;
  comm_cost = u64_mod - 1;
  name = default_name;
  metadata = no_metadata;
  parent = none;
  predecessor = none;
  cpu_id = 0;
  create_instant = 0;
  exec_resume_instant = 0;
  exec_end_instant = 0;
  exec_cycles = 0;
  creation_cycles = 0;
  overhead_cycles = 0;
  queue_size_at_pop = 0;
  loop = 0;
  team = 0;
  is_done = 0;
  is_taken = 0;
  data_footprints = square ∷ row ∷ [];
  dist_by_access_type = none ∷ none ∷ [];
}

at_one : (addr : ℕ) → addr ≢ 0 → get_node_of (λ addr. 1) 3 [] 4096 addr 0 ≡ some 1
unfolding get_node_of get_node_from_system
at_one addr p = let t : (addr == 0) ≡ false = ground arith in rw t refl

square-Readable : Readable 77 [] (λ addr. 1) 3 4096 square
square-Readable = record {
  order = omega arith;
  square = λ t. refl;
  ends = omega arith;
  some_bytes = omega arith;
  fits = omega arith;
  row = λ t. absurd (ground arith);
  each_row = λ t brow q. (
    (λ e. absurd (omega arith)),
    λ i p. (1, at_one (row_base square brow + i) (λ e. omega arith), omega arith),
  );
}

task_dist_lem_example :
    (t' : Task) × (dist : List ℕ) × (task_dist 77 [] (λ addr. 1) 3 4096 reader 0
      ≡ some (t', some dist))
    × (length dist ≡ 3)
    × (sum dist ≡ 128)
    × (task_dist 77 [] (λ addr. 1) 3 4096 t' 0 ≡ some (t', some dist))
task_dist_lem_example =
    task_dist_lem 77 [] (λ addr. 1) 3 4096 tt (omega arith) (omega arith) reader 0 (omega arith)
      refl ((λ e. square-Readable), ((λ e. absurd (omega arith)), tt)) (omega arith)
