-- ===== src/MemPol/Dist.antt =====
-- src/mir_mem_pol.c: how many bytes of some memory are on each node.
use mir_dev.Base.{
  ltb, leb, ◌==◌, if◌then◌else◌, ◌>>=◌, ◌>>◌, assert, length, replicate, add16, add64, nth, update,
  ℕ, zero, suc, ◌+◌, ◌-◌, ◌*◌, not, ◌&&◌, Option, none, some, List, [], ◌∷◌,
}
use mir_dev.MemPol.{Headers, get_mem_header, get_node_of}

-- `mir_mem_node_dist_create`
unfoldable pub create : ℕ → List ℕ
create num_nodes = replicate num_nodes 0

-- `dist->buf[node] += sz;`, where a node out of the array is a fault
unfoldable pub add_at : List ℕ → ℕ → ℕ → Option (List ℕ)
add_at dist node sz = do _ ← nth dist node; some (update dist node (λ v. add64 v sz))

-- The loop over the pages, from offset `i` on: `node` holds the bytes from `ifrom` on, which are
-- added when the node changes. The result is the array, `node`, `ifrom` and `new_node`. The fuel is
-- a bound on the number of pages.
unfoldable pub page_loop :
    (ℕ → Option ℕ) → ℕ → ℕ → ℕ → List ℕ → ℕ → ℕ → ℕ → ℕ → Option (List ℕ × ℕ × ℕ × ℕ)
page_loop node_at page_size sz zero dist node ifrom new_node i = none
page_loop node_at page_size sz (suc fuel) dist node ifrom new_node i =
    if not (ltb i sz) then some (dist, node, ifrom, new_node) else (do
      new_node' ← node_at i
      if new_node' == node
          then page_loop node_at page_size sz fuel dist node ifrom new_node' (i + page_size)
          else (do
            dist' ← add_at dist node (i - ifrom)
            page_loop node_at page_size sz fuel dist' new_node' i new_node' (i + page_size)))

-- The costly route: `node_at` is `get_node_of` at an offset.
unfoldable pub by_pages : (ℕ → Option ℕ) → ℕ → ℕ → List ℕ → ℕ → Option (List ℕ)
by_pages node_at num_nodes page_size dist sz = do
  node ← node_at 0
  dist' ← if leb sz page_size then add_at dist node sz else some dist
  (dist'', last, ifrom, new_node) ←
      page_loop node_at page_size sz (suc sz) dist' node 0 (add16 num_nodes 1) page_size
  if new_node == last then add_at dist'' last (sz - ifrom) else some dist''

unfoldable pub get_mem_node_dist :
    ℕ → Headers → (ℕ → ℕ) → ℕ → ℕ → List ℕ → ℕ → ℕ → ℕ → Option (List ℕ)
get_mem_node_dist init_time hs system num_nodes page_size dist addr sz part_of = do
  assert (not (addr == 0) && not (sz == 0))
  whole ← if part_of == 0 then some none else get_mem_header init_time hs part_of
  elim whole [
    | some h ↦ add_at dist h.nodeid sz
    | none ↦ do
      header ← get_mem_header init_time hs addr
      elim header [
        | some h ↦ add_at dist h.nodeid sz
        | none ↦
            by_pages (λ i. get_node_of system num_nodes hs page_size (addr + i) part_of) num_nodes
              page_size dist sz
      ]
  ]

-- `mir_mem_node_dist_get_comm_cost`, `cost_of` being the architecture's `comm_cost_of`
unfoldable pub cost_from : (ℕ → ℕ → ℕ) → ℕ → List ℕ → ℕ → ℕ → ℕ
cost_from cost_of from_node [] i comm_cost = comm_cost
cost_from cost_of from_node (v ∷ vs) i comm_cost =
    cost_from cost_of from_node vs (suc i) (add64 comm_cost (v * cost_of from_node i))

unfoldable pub get_comm_cost : (ℕ → ℕ → ℕ) → List ℕ → ℕ → Option ℕ
get_comm_cost cost_of dist from_node = do
  assert (ltb from_node (length dist))
  some (cost_from cost_of from_node dist 0 0)
