-- ===== src/Arch/OneNode.antt =====
-- src/arch/mir_arch_firenze.c and src/arch/mir_arch_adk.c: machines of a single node, whose system
-- numbers differ from the logical ones.
use mir_dev.Base.{◌==◌, if◌then◌else◌, ℕ, ◌||◌, Option, none, some, List, [], ◌∷◌}
use mir_dev.Arch.{Arch, row, look_up}

unfoldable pub sys_cpu_of_firenze : ℕ → Option ℕ
sys_cpu_of_firenze cpuid = look_up (row 0 0 0 0 0 ∷ row 1 2 1 0 0 ∷ []) cpuid cpuid

unfoldable pub node_of_firenze : ℕ → Option ℕ
node_of_firenze cpuid = if cpuid == 0 || cpuid == 1 then some 0 else none

unfoldable pub cpus_of_firenze : ℕ → Option (List ℕ)
cpus_of_firenze nodeid = if nodeid == 0 then some (0 ∷ 1 ∷ []) else none

unfoldable pub vicinity_of_firenze : ℕ → ℕ → List ℕ
vicinity_of_firenze nodeid diameter = []

unfoldable pub comm_cost_of_firenze : ℕ → ℕ → ℕ
comm_cost_of_firenze from_nodeid to_nodeid = 10

abbrev pub firenze : Arch
firenze = record {
  num_cores = 2;
  num_nodes = 1;
  diameter = 0;
  llc_size_kb = 3072;
  sys_cpu_of = sys_cpu_of_firenze;
  node_of = node_of_firenze;
  cpus_of = cpus_of_firenze;
  vicinity_of = vicinity_of_firenze;
  comm_cost_of = comm_cost_of_firenze;
}

unfoldable pub sys_cpu_of_adk : ℕ → Option ℕ
sys_cpu_of_adk cpuid =
    look_up (row 0 0 0 0 0 ∷ row 1 2 1 0 0 ∷ row 2 3 2 0 0 ∷ row 3 6 3 0 0 ∷ []) cpuid cpuid

unfoldable pub node_of_adk : ℕ → Option ℕ
node_of_adk cpuid = if cpuid == 0 || cpuid == 1 || cpuid == 2 || cpuid == 3 then some 0 else none

unfoldable pub cpus_of_adk : ℕ → Option (List ℕ)
cpus_of_adk nodeid = if nodeid == 0 then some (0 ∷ 1 ∷ 2 ∷ 3 ∷ []) else none

unfoldable pub vicinity_of_adk : ℕ → ℕ → List ℕ
vicinity_of_adk nodeid diameter = []

unfoldable pub comm_cost_of_adk : ℕ → ℕ → ℕ
comm_cost_of_adk from_nodeid to_nodeid = 10

abbrev pub adk : Arch
adk = record {
  num_cores = 4;
  num_nodes = 1;
  diameter = 0;
  llc_size_kb = 4096;
  sys_cpu_of = sys_cpu_of_adk;
  node_of = node_of_adk;
  cpus_of = cpus_of_adk;
  vicinity_of = vicinity_of_adk;
  comm_cost_of = comm_cost_of_adk;
}
