-- ===== src/Arch.antt =====
-- src/arch/mir_arch.h: what the runtime asks of a machine description, and what it relies on.
pub mod Gothmog
pub mod Tilepro64
pub mod OneNode
pub mod Consistent
pub mod Vicinity
mod Tests
use mir_dev.Base.{
  ltb, leb, ◌==◌, if◌then◌else◌, ltb→lt, lt→ltb, leb→le, ==_iff, Bool-cases, Option-cases, ◌>>=◌,
  ◌>>◌, assert, length, get_or, set, replicate, length-append, length-replicate, length-set,
  get_or-set_self, get_or-set_ne, AllSet, AllSet-snoc, AllSet-init, AllSet-cons, All, u16_mod,
  u32_mod, u64_mod, add16, add32, sub32, add64, sub64, all_below, all_below_lem, count, ℕ, zero,
  suc, ◌+◌, ◌-◌, ◌*◌, ◌/◌, ◌%◌, ◌^◌, ◌≤◌, ◌<◌, min, max, ◌≡◌, refl, sym, ap, ap₂, subst, ◌∙◌, ◌≢◌,
  ◌↔◌, ◌⊎◌, inl, inr, Bool, true, false, not, ◌&&◌, ◌||◌, Option, none, some, List, [], ◌∷◌, ◌++◌,
  map, append-nil, append_assoc, arith, dec_lt, ℕ_discrete, mod-add-mod, mod-eq_of_lt,
  mod-eq-sub-mod, add-zero,
}

-- `struct mir_arch_topology_t`
pub record Topology : Type 0 where
  pub log_cpu : ℕ
  pub sys_cpu : ℕ
  pub core : ℕ
  pub socket : ℕ
  pub node : ℕ

-- The logical, system and core number are one in most tables.
abbrev pub row : ℕ → ℕ → ℕ → ℕ → ℕ → Topology
row log_cpu sys_cpu core socket node = record {
  log_cpu = log_cpu;
  sys_cpu = sys_cpu;
  core = core;
  socket = socket;
  node = node;
}

-- `struct mir_arch_t`. A call that ends the process is `none`; `cpus_of` and `vicinity_of` return
-- the part of the caller's array that they fill.
pub record Arch : Type 0 where
  pub num_cores : ℕ
  pub num_nodes : ℕ
  pub diameter : ℕ
  pub llc_size_kb : ℕ
  pub sys_cpu_of : ℕ → Option ℕ
  pub node_of : ℕ → Option ℕ
  pub cpus_of : ℕ → Option (List ℕ)
  pub vicinity_of : ℕ → ℕ → List ℕ
  pub comm_cost_of : ℕ → ℕ → ℕ

-- `MIR_ASSERT(topology[cpuid].log_cpu == cpuid); return topology[cpuid].sys_cpu;`, where a row out
-- of the table is a fault
unfoldable pub look_up : List Topology → ℕ → ℕ → Option ℕ
look_up [] i cpuid = none
look_up (r ∷ rows) zero cpuid = if r.log_cpu == cpuid then some r.sys_cpu else none
look_up (r ∷ rows) (suc i) cpuid = look_up rows i cpuid

-- What the scheduling policies rely on: each core has a node, each node lists cores of its own and
-- knows neighbours that are nodes, and local memory is the cheapest, at the same cost both ways.
pub record IsConsistent (a : Arch) : Type 0 where
  pub some_node : 0 < a.num_nodes
  pub cpu_known : (c : ℕ) → c < a.num_cores → (s : ℕ) × (a.sys_cpu_of c ≡ some s)
  pub node_in : (c : ℕ) → c < a.num_cores → (n : ℕ) × (a.node_of c ≡ some n) × (n < a.num_nodes)
  pub own_cpus :
      (n : ℕ)
      → n < a.num_nodes
      → (cs : List ℕ) × (a.cpus_of n ≡ some cs)
        × All (λ c. (a.node_of c ≡ some n) × (c < a.num_cores)) cs
        × ((c : ℕ) → c < a.num_cores → a.node_of c ≡ some n → count c cs ≡ 1)
  pub near : (n d : ℕ) → All (λ m. m < a.num_nodes) (a.vicinity_of n d)
  pub cost_comm : (n m : ℕ) → a.comm_cost_of n m ≡ a.comm_cost_of m n
  pub local_cheapest :
      (n m : ℕ) → n < a.num_nodes → m < a.num_nodes → a.comm_cost_of n n ≤ a.comm_cost_of n m
