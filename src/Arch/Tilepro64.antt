-- ===== src/Arch/Tilepro64.antt =====
-- src/arch/mir_arch_tilepro64.c: 64 cores, each a node of its own, on an 8 by 8 mesh.
use mir_dev.Base.{
  ltb, ◌==◌, if◌then◌else◌, u16_mod, ℕ, ◌+◌, ◌-◌, ◌*◌, ◌/◌, ◌%◌, Option, none, some, List, [], ◌∷◌,
}
use mir_dev.Arch.{Arch}

unfoldable pub sys_cpu_of : ℕ → Option ℕ
sys_cpu_of cpuid = some cpuid

unfoldable pub node_of : ℕ → Option ℕ
node_of cpuid = if ltb 63 cpuid then none else some cpuid

unfoldable pub cpus_of : ℕ → Option (List ℕ)
cpus_of nodeid = if ltb 63 nodeid then none else some (nodeid ∷ [])

unfoldable pub vicinity_of : ℕ → ℕ → List ℕ
vicinity_of nodeid diameter = []

-- `abs(a - b)` of two small numbers
abbrev pub gap : ℕ → ℕ → ℕ
gap a b = (a - b) + (b - a)

unfoldable pub hops : ℕ → ℕ → ℕ
hops from_nodeid to_nodeid =
    let row_hop = gap (from_nodeid / 8) (to_nodeid / 8) in
    let col_hop = gap (from_nodeid % 8) (to_nodeid % 8) in row_hop + col_hop

unfoldable pub comm_cost_of : ℕ → ℕ → ℕ
unfolding hops
comm_cost_of from_nodeid to_nodeid =
    if from_nodeid == to_nodeid then 10 else (38 + 2 * hops from_nodeid to_nodeid) % u16_mod

abbrev pub tilepro64 : Arch
tilepro64 = record {
  num_cores = 64;
  num_nodes = 64;
  diameter = 14;
  llc_size_kb = 64;
  sys_cpu_of = sys_cpu_of;
  node_of = node_of;
  cpus_of = cpus_of;
  vicinity_of = vicinity_of;
  comm_cost_of = comm_cost_of;
}
