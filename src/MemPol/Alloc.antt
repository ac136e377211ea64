-- ===== src/MemPol/Alloc.antt =====
-- src/mir_mem_pol.c, second part: the allocation policies, in the build for x86 with
-- MIR_MEM_POL_CACHE_NODES and MIR_MEM_POL_RESTRICT, as mir_defines.h has it. The recorder's states
-- and the calls that bind pages to nodes are left out; where the block lies is a parameter.
use mir_dev.Base.{
  ltb, ◌==◌, if◌then◌else◌, ◌>>=◌, ◌>>◌, assert, add16, add64, sub64, ℕ, zero, suc, ◌+◌, ◌-◌, ◌*◌,
  ◌/◌, ◌%◌, Bool, true, false, not, Option, none, some, List, [], ◌∷◌,
}
use mir_dev.MemPol.{Header, Headers, get_node_of}

-- The functions that `mir_mem_pol_config` puts into the struct
pub data Policy : Type 0 where
  fine coarse in_system in_local : Policy

-- `struct mir_mem_pol_t` without its lock and its list of nodes; `resets` tells whether `reset` is
-- `reset_coarse`. `headers` is the memory before the blocks.
pub record MemPol : Type 0 where
  pub node : ℕ
  pub total_allocated : ℕ
  pub policy : Policy
  pub resets : Bool
  pub headers : Headers

-- What the policies ask of the rest: `worker_nodes` are the nodes of the workers, the calling one's
-- being `own_node`; `alloc` is `malloc` or one of libnuma's functions, and NULL is `none`.
pub record Machine : Type 0 where
  pub init_time : ℕ
  pub num_nodes : ℕ
  pub page_size : ℕ
  pub worker_nodes : List ℕ
  pub own_node : ℕ
  pub alloc : Policy → ℕ → Option ℕ
  pub system : ℕ → ℕ

-- `sizeof(struct mem_header_t)`
abbrev pub header_size : ℕ
header_size = 32

-- `mir_mem_pol_create`, then `mir_mem_pol_init` with the node of the first worker
unfoldable pub create : MemPol
create = record { node = 0; total_allocated = 0; policy = in_system; resets = false; headers = [] }

unfoldable pub init : MemPol → ℕ → MemPol
init m first_node = record m { node = first_node }

-- `mir_mem_pol_config`; a name that is not one of these ends the process.
unfoldable pub config : MemPol → Policy → MemPol
config m fine = record m { policy = fine }
config m coarse = record m { policy = coarse; resets = true }
config m in_system = record m { policy = in_system }
config m in_local = record m { policy = in_local }

unfoldable pub reset : MemPol → MemPol
reset m = if m.resets then record m { node = 0 } else m

abbrev pub has : ℕ → List ℕ → Bool
has n [] = false
has n (m ∷ ms) = if m == n then true else has n ms

-- The loop of `advance_node`, on fuel for the nodes that no worker is on
unfoldable pub advance : ℕ → ℕ → List ℕ → ℕ → Option ℕ
advance num_nodes zero worker_nodes node = none
advance num_nodes (suc fuel) worker_nodes node =
    let next = add16 node 1 % num_nodes in
    let rest = advance num_nodes fuel worker_nodes next in
    if has next worker_nodes then some next else rest

unfoldable pub advance_node : Machine → MemPol → Option MemPol
advance_node k m = do
  node' ← advance k.num_nodes k.num_nodes k.worker_nodes m.node
  some (record m { node = node' })

-- The nodes of the pages of a block
pub cache_from : Machine → Headers → ℕ → ℕ → ℕ → Option (List ℕ)
cache_from k hs addr zero i = some []
cache_from k hs addr (suc pages) i = do
  n ← get_node_of k.system k.num_nodes hs k.page_size (addr + i * k.page_size) 0
  rest ← cache_from k hs addr pages (suc i)
  some (n ∷ rest)

abbrev pub num_pages : Machine → ℕ → ℕ
num_pages k new_sz = (new_sz + k.page_size - 1) / k.page_size

abbrev pub with_header : MemPol → ℕ → Header → MemPol
with_header m addr h = record m { headers = (addr + header_size, h) ∷ m.headers }

abbrev pub grow : ℕ → MemPol → MemPol
grow new_sz m = record m { total_allocated = add64 m.total_allocated new_sz }

-- Each allocation returns the state and the address after the header.
unfoldable pub allocate_coarse : Machine → MemPol → ℕ → Option (MemPol × ℕ)
allocate_coarse k m sz = do
  assert (ltb 0 sz)
  addr ← k.alloc coarse (add64 sz header_size)
  let h : Header = record { magic = k.init_time; sz = sz; nodeid = m.node; node_cache = none }
  m' ← advance_node k (with_header m addr h)
  some (grow (add64 sz header_size) m', addr + header_size)

unfoldable pub allocate_fine : Machine → MemPol → ℕ → Option (MemPol × ℕ)
allocate_fine k m sz = do
  assert (ltb 0 sz)
  let new_sz = add64 sz header_size
  addr ← k.alloc fine new_sz
  cache ← cache_from k m.headers addr (num_pages k new_sz) 0
  let h : Header = record {
    magic = 0;
    sz = sz;
    nodeid = add16 k.num_nodes 1;
    node_cache = some cache;
  }
  some (grow new_sz (with_header m addr h), addr + header_size)

unfoldable pub allocate_system : Machine → MemPol → ℕ → Option (MemPol × ℕ)
allocate_system k m sz = do
  assert (ltb 0 sz)
  addr ← k.alloc in_system (add64 sz header_size)
  let h : Header = record { magic = 0; sz = sz; nodeid = add16 k.num_nodes 1; node_cache = none }
  some (with_header m addr h, addr + header_size)

unfoldable pub allocate_local : Machine → MemPol → ℕ → Option (MemPol × ℕ)
allocate_local k m sz = do
  assert (ltb 0 sz)
  addr ← k.alloc in_local (add64 sz header_size)
  let h : Header = record { magic = k.init_time; sz = sz; nodeid = k.own_node; node_cache = none }
  some (grow (add64 sz header_size) (with_header m addr h), addr + header_size)

unfoldable pub allocate_by : Policy → Machine → MemPol → ℕ → Option (MemPol × ℕ)
allocate_by fine = allocate_fine
allocate_by coarse = allocate_coarse
allocate_by in_system = allocate_system
allocate_by in_local = allocate_local

-- `mir_mem_pol_allocate`
unfoldable pub allocate : Machine → MemPol → ℕ → Option (MemPol × ℕ)
allocate k m sz = allocate_by m.policy k m sz

abbrev pub without : Headers → ℕ → Headers
without [] addr = []
without ((a, h) ∷ hs) addr = if a == addr then hs else (a, h) ∷ without hs addr

-- `release_fine` and `release_local` check their arguments and call `release_coarse`.
unfoldable pub release_coarse : MemPol → ℕ → ℕ → Option MemPol
release_coarse m addr sz = do
  assert (not (addr == 0))
  assert (ltb 0 sz)
  some (record m {
    total_allocated = sub64 m.total_allocated (add64 sz header_size);
    headers = without m.headers addr;
  })

unfoldable pub release_system : MemPol → ℕ → ℕ → Option MemPol
release_system m addr sz = do
  assert (not (addr == 0))
  assert (ltb 0 sz)
  some (record m { headers = without m.headers addr })

unfoldable pub release_by : Policy → MemPol → ℕ → ℕ → Option MemPol
release_by fine = release_coarse
release_by coarse = release_coarse
release_by in_system = release_system
release_by in_local = release_coarse

-- `mir_mem_pol_release`
unfoldable pub release : MemPol → ℕ → ℕ → Option MemPol
release m addr sz = release_by m.policy m addr sz
