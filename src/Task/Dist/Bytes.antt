-- ===== src/Task/Dist/Bytes.antt =====
-- src/mir_task.c: the bytes of a task's data footprints.
use mir_dev.Base.{
  ltb, ◌==◌, if◌then◌else◌, lt→ltb, Bool-cases, length, set, replicate, length-replicate, All,
  u16_mod, u64_mod, add64, sub64, nth, nth-bound, nth-set_self, ℕ, zero, suc, ◌+◌, ◌-◌, ◌*◌, ◌≤◌,
  ◌<◌, ◌≡◌, refl, sym, ap, subst, ◌∙◌, ◌≢◌, inl, inr, true, false, Option, none, some, List, [],
  ◌∷◌, arith, mod-eq_of_lt,
}
use native.Mathlib.Nat.{mul-le-mul_left}
use mir_dev.MemPol.{Headers, get_node_of}
use mir_dev.MemPol.Dist as MemDist
use mir_dev.MemPol.Dist.{get_mem_node_dist}
use mir_dev.MemPol.Pages.{sum, Adds}
use mir_dev.MemPol.Cost.{KnownNodes, get_mem_node_dist_lem}
use mir_dev.Task.{Footprint, Task}
use mir_dev.Task.Dist.{
  row_bytes, row_base, add_row, row_loop, footprint_dist, footprints_loop, task_dist,
}

-- What a footprint means: the elements from `start` to `last` of one row, or a square block with as
-- many rows as a row has elements.
abbrev side : Footprint → ℕ
side f = f.last - f.start + 1

abbrev rows : Footprint → ℕ
rows f = if ltb 1 f.row_sz then side f else 1

abbrev pub footprint_bytes : Footprint → ℕ
footprint_bytes f = rows f * (side f * f.kind)

abbrev pub bytes_of_kind : ℕ → List Footprint → ℕ
bytes_of_kind access [] = 0
bytes_of_kind access (f ∷ fs) =
    (if f.data_access == access then footprint_bytes f else 0) + bytes_of_kind access fs

one_more : (n w : ℕ) → suc n * w ≡ w + n * w
one_more n w = omega arith

sum-zeros : (n : ℕ) → sum (replicate n 0) ≡ 0
sum-zeros zero = refl
sum-zeros (suc n) = let r = sum-zeros n in omega arith

same_bytes :
    (f : Footprint)
    → f.start ≤ f.last
    → f.last + 1 < u64_mod
    → (f.last - f.start + 1) * f.kind < u64_mod
    → row_bytes f ≡ (f.last - f.start + 1) * f.kind
same_bytes f order ends fits =
    let a : sub64 f.last f.start ≡ f.last - f.start = omega arith in
    let b : add64 (f.last - f.start) 1 ≡ f.last - f.start + 1 = omega arith in
    rw (a, b) (mod-eq_of_lt fits)

module _ (init_time : ℕ) (hs : Headers) (system : ℕ → ℕ) (num_nodes page_size : ℕ) where
  -- A row at an address that is not NULL, with its pages on nodes that exist
  abbrev RowKnown : Footprint → ℕ → Type 0
  RowKnown f base =
      (base ≢ 0)
      × ((i : ℕ)
          → i < row_bytes f
          → (n : ℕ) × (get_node_of system num_nodes hs page_size (base + i) f.part_of ≡ some n)
            × (n < num_nodes))

  -- Indices in order, from 0 in a block of rows, elements of some bytes, sizes within a word, and rows that are known
  pub record Readable (f : Footprint) : Type 0 where
    pub order : f.start ≤ f.last
    pub square : ltb 1 f.row_sz ≡ true → f.start ≡ 0
    pub ends : f.last + 1 < u64_mod
    pub some_bytes : 0 < f.kind
    pub fits : (f.last - f.start + 1) * f.kind < u64_mod
    pub row : ltb 1 f.row_sz ≡ false → RowKnown f f.base
    pub each_row : ltb 1 f.row_sz ≡ true → (brow : ℕ) → brow ≤ f.last → RowKnown f (row_base f brow)

  abbrev loop_of : Footprint → List ℕ → Option (List ℕ)
  loop_of f dist = row_loop init_time hs system num_nodes page_size f (f.last + 2) dist 0

  as_square :
      (f : Footprint) (dist : List ℕ)
      → ltb 1 f.row_sz ≡ true
      → footprint_dist init_time hs system num_nodes page_size f dist ≡ loop_of f dist
  unfolding footprint_dist
  as_square f dist t = rw t refl

  as_row :
      (f : Footprint) (dist : List ℕ)
      → ltb 1 f.row_sz ≡ false
      → footprint_dist init_time hs system num_nodes page_size f dist
        ≡ add_row init_time hs system num_nodes page_size f dist f.base
  unfolding footprint_dist
  as_row f dist t = rw t refl

  abbrev loop_over : ℕ → List Footprint → List ℕ → Option (List ℕ)
  loop_over = footprints_loop init_time hs system num_nodes page_size

  add_first :
      (access : ℕ) (f : Footprint) (fs : List Footprint) (dist d : List ℕ)
      → (f.data_access == access) ≡ true
      → footprint_dist init_time hs system num_nodes page_size f dist ≡ some d
      → loop_over access (f ∷ fs) dist ≡ loop_over access fs d
  unfolding footprints_loop
  add_first access f fs dist d t e = rw (t, e) refl

  skip_first :
      (access : ℕ) (f : Footprint) (fs : List Footprint) (dist : List ℕ)
      → (f.data_access == access) ≡ false
      → loop_over access (f ∷ fs) dist ≡ loop_over access fs dist
  unfolding footprints_loop
  skip_first access f fs dist t = rw t refl

  module _ (headers : KnownNodes num_nodes hs) (page : 0 < page_size)
      (few : num_nodes + 1 < u16_mod) where
    add_row_lem :
        (f : Footprint) (dist : List ℕ) (base : ℕ)
        → Readable f
        → RowKnown f base
        → length dist ≡ num_nodes
        → sum dist + (f.last - f.start + 1) * f.kind < u64_mod
        → (dist' : List ℕ) × (add_row init_time hs system num_nodes page_size f dist base
            ≡ some dist')
          × Adds dist dist' ((f.last - f.start + 1) * f.kind)
    add_row_lem f dist base r known len small =
        let e = same_bytes f r.order r.ends r.fits in
        let more : 0 < (f.last - f.start + 1) * f.kind =
          let m = mul-le-mul_left (f.last - f.start + 1) r.some_bytes in omega arith in
        let (dist', g, adds) =
          get_mem_node_dist_lem init_time num_nodes page_size base (row_bytes f) f.part_of hs system
            headers known.1 known.0 (omega (arith, e, more)) page few dist len
            (omega (arith, e, small)) in
        (dist', g, subst (Adds dist dist') e adds)

    row_loop_lem :
        (f : Footprint) (fuel left : ℕ) (dist : List ℕ) (brow : ℕ)
        → Readable f
        → ltb 1 f.row_sz ≡ true
        → brow + left ≡ f.last + 1
        → left < fuel
        → length dist ≡ num_nodes
        → sum dist + left * ((f.last - f.start + 1) * f.kind) < u64_mod
        → (dist' : List ℕ) × (row_loop init_time hs system num_nodes page_size f fuel dist brow
            ≡ some dist')
          × Adds dist dist' (left * ((f.last - f.start + 1) * f.kind))
    unfolding row_loop
    row_loop_lem f zero left dist brow r sq at p len small = absurd (omega arith)
    row_loop_lem f (suc fuel) zero dist brow r sq at p len small =
        let t : ltb f.last brow ≡ true = lt→ltb f.last brow (omega arith) in
        (dist, rw t refl, record { nodes = refl; bytes = omega arith })
    row_loop_lem f (suc fuel) (suc left) dist brow r sq at p len small =
        let t : ltb f.last brow ≡ false = ground arith in
        let more = one_more left ((f.last - f.start + 1) * f.kind) in
        let (d, e, adds) =
          add_row_lem f dist (row_base f brow) r (r.each_row sq brow (omega arith)) len
            (omega (arith, more, small)) in
        let next : add64 brow 1 ≡ brow + 1 = let u = r.ends in omega arith in
        let len' : length d ≡ num_nodes = adds.nodes ∙ len in
        let (d', g, adds') =
          row_loop_lem f fuel left d (brow + 1) r sq (omega arith) (omega arith) len'
            (omega (arith, more, adds.bytes, small)) in
        (
          d',
          rw (t, e) (ap (row_loop init_time hs system num_nodes page_size f fuel d) next ∙ g),
          record {
            nodes = adds'.nodes ∙ adds.nodes;
            bytes = omega (arith, more, adds.bytes, adds'.bytes);
          },
        )

    footprint_dist_lem :
        (f : Footprint) (dist : List ℕ)
        → Readable f
        → length dist ≡ num_nodes
        → sum dist + footprint_bytes f < u64_mod
        → (dist' : List ℕ) × (footprint_dist init_time hs system num_nodes page_size f dist
            ≡ some dist')
          × Adds dist dist' (footprint_bytes f)
    footprint_dist_lem f dist r len small =
        let w = (f.last - f.start + 1) * f.kind in
        elim (Bool-cases (ltb 1 f.row_sz)) [
          | inl t ↦
              let zero_start = r.square t in
              let e : rows f ≡ f.last + 1 =
                ap (λ b. if b then side f else 1) t ∙ omega (arith, zero_start) in
              let (d, g, adds) =
                row_loop_lem f (f.last + 2) (f.last + 1) dist 0 r t (omega arith) (omega arith) len
                  (subst (λ n. sum dist + n * w < u64_mod) e small) in
              (d, as_square f dist t ∙ g, subst (λ n. Adds dist d (n * w)) (sym e) adds)
          | inr t ↦
              let e : rows f ≡ 1 = ap (λ b. if b then side f else 1) t in
              let less : sum dist + 1 * w < u64_mod =
                subst (λ n. sum dist + n * w < u64_mod) e small in
              let (d, g, adds) = add_row_lem f dist f.base r (r.row t) len (omega (arith, less)) in
              let once : w ≡ 1 * w = omega arith in
              (
                d,
                as_row f dist t ∙ g,
                subst (λ n. Adds dist d (n * w)) (sym e) (subst (Adds dist d) once adds),
              )
        ]

    footprints_loop_lem :
        (access : ℕ) (fs : List Footprint) (dist : List ℕ)
        → All (λ f. f.data_access ≡ access → Readable f) fs
        → length dist ≡ num_nodes
        → sum dist + bytes_of_kind access fs < u64_mod
        → (dist' : List ℕ) × (loop_over access fs dist ≡ some dist')
          × Adds dist dist' (bytes_of_kind access fs)
    unfolding footprints_loop
    footprints_loop_lem access [] dist h len small =
        (dist, refl, record { nodes = refl; bytes = omega arith })
    footprints_loop_lem access (f ∷ fs) dist h len small =
        elim (Bool-cases (f.data_access == access)) [
          | inl t ↦
              let same : f.data_access ≡ access = ground arith in
              let e : bytes_of_kind access (f ∷ fs) ≡ footprint_bytes f + bytes_of_kind access fs =
                ap (λ b. (if b then footprint_bytes f else 0) + bytes_of_kind access fs) t in
              let (d, g, adds) =
                footprint_dist_lem f dist (h.0 same) len (omega (arith, e, small)) in
              let (d', g', adds') =
                footprints_loop_lem access fs d h.1 (adds.nodes ∙ len)
                  (omega (arith, e, small, adds.bytes)) in
              (
                d',
                add_first access f fs dist d t g ∙ g',
                record {
                  nodes = adds'.nodes ∙ adds.nodes;
                  bytes = omega (arith, e, adds.bytes, adds'.bytes);
                },
              )
          | inr t ↦
              let e : bytes_of_kind access (f ∷ fs) ≡ bytes_of_kind access fs =
                ap (λ b. (if b then footprint_bytes f else 0) + bytes_of_kind access fs) t
                ∙ omega arith in
              let (d', g', adds') =
                footprints_loop_lem access fs dist h.1 len (omega (arith, e, small)) in
              (d', skip_first access f fs dist t ∙ g', subst (Adds dist d') (sym e) adds')
        ]

    found :
        (t : Task) (access : ℕ) (dist : List ℕ)
        → 0 < length t.data_footprints
        → nth t.dist_by_access_type access ≡ some (some dist)
        → task_dist init_time hs system num_nodes page_size t access ≡ some (t, some dist)
    unfolding task_dist
    found t access dist p e =
        let z : (length t.data_footprints == 0) ≡ false = ground arith in rw (z, e) refl

    computed :
        (t : Task) (access : ℕ) (dist : List ℕ)
        → 0 < length t.data_footprints
        → nth t.dist_by_access_type access ≡ some none
        → loop_over access t.data_footprints (MemDist.create num_nodes) ≡ some dist
        → task_dist init_time hs system num_nodes page_size t access
          ≡ some (
            record t { dist_by_access_type = set t.dist_by_access_type access (some dist) },
            some dist,
          )
    unfolding task_dist
    computed t access dist p e g =
        let z : (length t.data_footprints == 0) ≡ false = ground arith in rw (z, e, g) refl

    start : (length (MemDist.create num_nodes) ≡ num_nodes) × (sum (MemDist.create num_nodes) ≡ 0)
    unfolding MemDist.create
    start = (length-replicate num_nodes 0, sum-zeros num_nodes)

    -- For a task with at least one footprint, whose distribution for an access has not been computed
    -- yet, and whose footprints with that access have indices in order, from 0 on if there is more
    -- than one row, elements of some bytes, and rows at addresses that are not NULL and on nodes that
    -- exist, if nothing wraps, the nodes in the headers exist and the page size in 16 bits is not 0:
    -- `mir_task_get_mem_node_dist` returns a distribution with an entry for each node, which counts
    -- in all the bytes of these footprints, a footprint of rows being a square block. A second call
    -- returns the same distribution, and changes nothing.
    pub task_dist_lem :
        (t : Task) (access : ℕ)
        → 0 < length t.data_footprints
        → nth t.dist_by_access_type access ≡ some none
        → All (λ f. f.data_access ≡ access → Readable f) t.data_footprints
        → bytes_of_kind access t.data_footprints < u64_mod
        → (t' : Task) × (dist : List ℕ) × (task_dist init_time hs system num_nodes page_size t
              access
            ≡ some (t', some dist))
          × (length dist ≡ num_nodes)
          × (sum dist ≡ bytes_of_kind access t.data_footprints)
          × (task_dist init_time hs system num_nodes page_size t' access ≡ some (t', some dist))
    task_dist_lem t access p e h small =
        let (len, none_yet) = start in
        let (d, g, adds) =
          footprints_loop_lem access t.data_footprints (MemDist.create num_nodes) h len
            (omega (arith, none_yet, small)) in
        let kept =
          nth-set_self t.dist_by_access_type access (some d)
            (nth-bound t.dist_by_access_type access none e) in
        let t' = record t { dist_by_access_type = set t.dist_by_access_type access (some d) } in
        (
          t',
          d,
          computed t access d p e g,
          adds.nodes ∙ len,
          omega (arith, none_yet, adds.bytes),
          found t' access d p kept,
        )
