-- ===== src/MemPol/Round.antt =====
-- src/mir_mem_pol.c: a block's way from its allocation with the policy `coarse` to its release.
use mir_dev.Base.{
  ◌==◌, lt→ltb, u16_mod, u64_mod, add64, sub64, ℕ, suc, ◌+◌, ◌<◌, ◌≡◌, refl, ap, ◌∙◌, true, false,
  none, some, List, ◌∷◌, arith,
}
use mir_dev.MemPol.{Header, Headers, get_mem_header}
use mir_dev.MemPol.Alloc.{
  coarse, MemPol, Machine, header_size, allocate, release, allocate_by, allocate_coarse, release_by,
  release_coarse, advance_node, advance, without, has,
}
use mir_dev.MemPol.Dist.{add_at, get_mem_node_dist}
use mir_dev.MemPol.Node.{step_on, steps, Unused, advance_next}

abbrev block_header : Machine → MemPol → ℕ → Header
block_header k m sz = record { magic = k.init_time; sz = sz; nodeid = m.node; node_cache = none }

abbrev taken : Machine → MemPol → ℕ → ℕ → ℕ → MemPol
taken k m sz addr node' = record m {
  node = node';
  total_allocated = add64 m.total_allocated (add64 sz header_size);
  headers = (addr + header_size, block_header k m sz) ∷ m.headers;
}

allocate-taken :
    (k : Machine) (m : MemPol) (sz addr node' : ℕ)
    → m.policy ≡ coarse
    → 0 < sz
    → k.alloc coarse (add64 sz header_size) ≡ some addr
    → advance k.num_nodes k.num_nodes k.worker_nodes m.node ≡ some node'
    → allocate k m sz ≡ some (taken k m sz addr node', addr + header_size)
unfolding allocate allocate_by allocate_coarse advance_node
allocate-taken k m sz addr node' p z e f =
    let t = lt→ltb 0 sz z in ap (λ policy. allocate_by policy k m sz) p ∙ rw (t, e, f) refl

freed : (hs : Headers) (a : ℕ) (h : Header) → without ((a, h) ∷ hs) a ≡ hs
freed hs a h = let t : (a == a) ≡ true = ground arith in rw t refl

release-taken :
    (k : Machine) (m : MemPol) (sz addr node' : ℕ)
    → m.policy ≡ coarse
    → 0 < sz
    → m.total_allocated < u64_mod
    → release (taken k m sz addr node') (addr + header_size) sz ≡ some (record m { node = node' })
unfolding release release_by release_coarse
release-taken k m sz addr node' p z small =
    let t = lt→ltb 0 sz z in
    let u : (addr + header_size == 0) ≡ false = ground arith in
    let w : (addr + header_size == addr + header_size) ≡ true = ground arith in
    let back : sub64 (add64 m.total_allocated (add64 sz header_size)) (add64 sz header_size)
        ≡ m.total_allocated =
      omega arith in
    ap (λ policy. release_by policy (taken k m sz addr node') (addr + header_size) sz) p
    ∙ rw (t, u, w, back) refl

counted_at :
    (k : Machine) (m : MemPol) (sz addr node' bytes : ℕ) (dist : List ℕ)
    → 0 < bytes
    → get_mem_node_dist k.init_time
        (taken k m sz addr node').headers
        k.system
        k.num_nodes
        k.page_size
        dist
        (addr + header_size)
        bytes
        0
      ≡ add_at dist m.node bytes
unfolding get_mem_node_dist get_mem_header
counted_at k m sz addr node' bytes dist p =
    let t : (bytes == 0) ≡ false = ground arith in
    let u : (addr + header_size == 0) ≡ false = ground arith in
    let w : (addr + header_size == addr + header_size) ≡ true = ground arith in
    let magic : (k.init_time == k.init_time) ≡ true = ground arith in rw (t, u, w, magic) refl

-- With the policy `coarse`, for a block of `sz` bytes, 0 left out, that the system has, in a state
-- whose node is below the number of nodes and whose total is below 2^64, and a worker on some node:
-- `mir_mem_pol_allocate` does not abort, and moves on to the first node after it, in the round of the
-- nodes, that a worker is on: no worker is on those in between. The distribution of any bytes of the block, taken from its address, counts them all on the node the
-- state had before. The release of the block restores all but that node: the total, the headers and
-- the policy.
pub allocate_round :
    (k : Machine) (m : MemPol) (sz addr used bytes : ℕ) (dist : List ℕ)
    → m.policy ≡ coarse
    → 0 < sz
    → k.alloc coarse (add64 sz header_size) ≡ some addr
    → m.total_allocated < u64_mod
    → m.node < k.num_nodes
    → k.num_nodes < u16_mod
    → used < k.num_nodes
    → has used k.worker_nodes ≡ true
    → 0 < bytes
    → (m' : MemPol) × (j : ℕ) × (allocate k m sz ≡ some (m', addr + header_size))
      × (j < k.num_nodes)
      × (m'.node ≡ step_on k.num_nodes m.node (suc j))
      × (has m'.node k.worker_nodes ≡ true)
      × Unused k.worker_nodes (steps k.num_nodes m.node j)
      × (get_mem_node_dist k.init_time m'.headers k.system k.num_nodes k.page_size dist
            (addr + header_size)
            bytes
            0
          ≡ add_at dist m.node bytes)
      × (release m' (addr + header_size) sz ≡ some (record m { node = m'.node }))
allocate_round k m sz addr used bytes dist p z e small own few in_range on b =
    let (j, less, f, there, unused) =
      advance_next k.num_nodes m.node used k.worker_nodes own few in_range on in
    let node' = step_on k.num_nodes m.node (suc j) in
    (
      taken k m sz addr node',
      j,
      allocate-taken k m sz addr node' p z e f,
      less,
      refl,
      there,
      unused,
      counted_at k m sz addr node' bytes dist b,
      release-taken k m sz addr node' p z small,
    )
