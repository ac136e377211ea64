-- ===== src/MemPol/Cost.antt =====
-- src/mir_mem_pol.c: the bytes of some memory by node, and what it costs to reach them.
use mir_dev.Base.{
  ◌==◌, if◌then◌else◌, lt→ltb, Bool-cases, Option-cases, ◌>>=◌, length, All, u16_mod, u64_mod,
  add64, ℕ, suc, ◌+◌, ◌*◌, ◌≤◌, ◌<◌, ◌≡◌, refl, subst, ◌≢◌, ◌⊎◌, inl, inr, true, false, none, some,
  List, [], ◌∷◌, arith, ℕ_discrete,
}
use native.Mathlib.Nat.{mul-le-mul_left}
use mir_dev.MemPol.{Header, Headers, header_at, get_mem_header, get_node_of}
use mir_dev.MemPol.Dist.{add_at, by_pages, get_mem_node_dist, get_comm_cost, cost_from}
use mir_dev.MemPol.Pages.{sum, Adds, add_at_lem, by_pages_lem}

-- The nodes in the headers are nodes.
abbrev pub KnownNodes : ℕ → Headers → Type 0
KnownNodes nodes hs = All (λ (z : ℕ × Header). z.1.nodeid < nodes) hs

header_at-lt :
    (nodes : ℕ) (hs : Headers) (addr : ℕ) (h : Header)
    → KnownNodes nodes hs
    → header_at hs addr ≡ some h
    → h.nodeid < nodes
header_at-lt nodes [] addr h k e = ground arith
header_at-lt nodes ((a, g) ∷ hs) addr h k e = elim (ℕ_discrete a addr) [
  | yes same ↦
      let t : (a == addr) ≡ true = ground arith in
      let f : some g ≡ some h =
        subst (λ b. (if b then some g else header_at hs addr) ≡ some h) t e in
      let u : g ≡ h = cc in subst (λ h. h.nodeid < nodes) u k.0
  | no other ↦ header_at-lt nodes hs addr h k.1 (ground arith)
]

get_mem_header_lem :
    (init_time nodes : ℕ) (hs : Headers) (addr : ℕ)
    → KnownNodes nodes hs
    → addr ≢ 0
    → (get_mem_header init_time hs addr ≡ some none)
      ⊎ ((h : Header) × (get_mem_header init_time hs addr ≡ some (some h)) × (h.nodeid < nodes))
unfolding get_mem_header
get_mem_header_lem init_time nodes hs addr k p =
    let t : (addr == 0) ≡ false = ground arith in
    elim (Option-cases (header_at hs addr)) [
      | inl e ↦ inl (rw (t, e) refl)
      | inr (h, e) ↦ elim (Bool-cases (h.magic == init_time)) [
        | inl m ↦ inr (h, rw (t, e, m) refl, header_at-lt nodes hs addr h k e)
        | inr m ↦ inl (rw (t, e, m) refl)
      ]
    ]

module _ (init_time nodes page_size addr sz part_of : ℕ) (hs : Headers) (system : ℕ → ℕ)
    (headers : KnownNodes nodes hs)
    (known : (i : ℕ)
      → i < sz
      → (n : ℕ) × (get_node_of system nodes hs page_size (addr + i) part_of ≡ some n) × (n < nodes))
    (some_addr : addr ≢ 0) (z : 0 < sz) (page : 0 < page_size) (few : nodes + 1 < u16_mod) where
  from_addr :
      (dist : List ℕ)
      → length dist ≡ nodes
      → sum dist + sz < u64_mod
      → (dist' : List ℕ) × ((get_mem_header init_time hs addr >>= λ header. elim header [
        | some h ↦ add_at dist h.nodeid sz
        | none ↦
            by_pages
              (λ i. get_node_of system nodes hs page_size (addr + i) part_of)
              nodes
              page_size
              dist
              sz
      ])
          ≡ some dist')
        × Adds dist dist' sz
  from_addr dist l small = elim (get_mem_header_lem init_time nodes hs addr headers some_addr) [
    | inl e ↦ rw e (
        by_pages_lem (λ i. get_node_of system nodes hs page_size (addr + i) part_of) page_size sz
          nodes page known dist z l few small)
    | inr (h, e, q) ↦ rw e (add_at_lem dist h.nodeid sz (omega arith) small)
  ]

  -- For memory of `sz` bytes, 0 left out, at an address that is not NULL, whose pages are on nodes
  -- below the number of nodes, as the nodes in the headers are, if the page size in 16 bits is not 0
  -- and neither the number of nodes nor the bytes counted wrap: `mir_mem_get_mem_node_dist` neither
  -- aborts nor runs on, and adds `sz` bytes in all to a distribution with an entry for each node,
  -- with no entry lost or made.
  pub get_mem_node_dist_lem :
      (dist : List ℕ)
      → length dist ≡ nodes
      → sum dist + sz < u64_mod
      → (dist' : List ℕ) × (get_mem_node_dist init_time hs system nodes page_size dist addr sz
            part_of
          ≡ some dist')
        × Adds dist dist' sz
  unfolding get_mem_node_dist
  get_mem_node_dist_lem dist l small =
      let t : (addr == 0) ≡ false = ground arith in
      let u : (sz == 0) ≡ false = ground arith in
      elim (ℕ_discrete part_of 0) [
        | yes alone ↦
            let w : (part_of == 0) ≡ true = ground arith in rw (t, u, w) (from_addr dist l small)
        | no base ↦
            let w : (part_of == 0) ≡ false = ground arith in
            elim (get_mem_header_lem init_time nodes hs part_of headers base) [
              | inl e ↦ rw (t, u, w, e) (from_addr dist l small)
              | inr (h, e, q) ↦ rw (t, u, w, e) (add_at_lem dist h.nodeid sz (omega arith) small)
            ]
      ]

cost_from-bounds :
    (cost_of : ℕ → ℕ → ℕ) (low high from_node : ℕ) (dist : List ℕ) (i acc : ℕ)
    → ((n : ℕ) → (low ≤ cost_of from_node n) × (cost_of from_node n ≤ high))
    → acc + sum dist * high < u64_mod
    → (acc + sum dist * low ≤ cost_from cost_of from_node dist i acc)
      × (cost_from cost_of from_node dist i acc ≤ acc + sum dist * high)
unfolding cost_from
cost_from-bounds cost_of low high from_node [] i acc h small = (omega arith, omega arith)
cost_from-bounds cost_of low high from_node (v ∷ vs) i acc h small =
    let a = mul-le-mul_left v (h i).0 in
    let b = mul-le-mul_left v (h i).1 in
    let fits : add64 acc (v * cost_of from_node i) ≡ acc + v * cost_of from_node i = omega arith in
    let r =
      cost_from-bounds cost_of low high from_node vs (suc i) (acc + v * cost_of from_node i) h
        (omega arith) in
    rw fits (omega arith, omega arith)

-- For a distribution with an entry for the node asked from, costs between `low` and `high` from that
-- node, and no wrap: `mir_mem_node_dist_get_comm_cost` does not abort, and the cost is at least
-- `low` and at most `high` for each byte of the distribution.
pub get_comm_cost_bounds :
    (cost_of : ℕ → ℕ → ℕ) (low high from_node : ℕ) (dist : List ℕ)
    → ((n : ℕ) → (low ≤ cost_of from_node n) × (cost_of from_node n ≤ high))
    → from_node < length dist
    → sum dist * high < u64_mod
    → (comm_cost : ℕ) × (get_comm_cost cost_of dist from_node ≡ some comm_cost)
      × (sum dist * low ≤ comm_cost)
      × (comm_cost ≤ sum dist * high)
unfolding get_comm_cost
get_comm_cost_bounds cost_of low high from_node dist h p small =
    let t = lt→ltb from_node (length dist) p in
    let r = cost_from-bounds cost_of low high from_node dist 0 0 h (omega arith) in
    (cost_from cost_of from_node dist 0 0, rw t refl, omega arith, omega arith)
