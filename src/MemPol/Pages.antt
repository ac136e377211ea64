-- ===== src/MemPol/Pages.antt =====
-- src/mir_mem_pol.c: the bytes that a distribution counts.
use mir_dev.Base.{
  ltb, leb, ◌==◌, lt→ltb, ==_iff, length, u16_mod, u64_mod, add16, add64, update, total,
  length-update, nth-lt, total-update, le-total, ℕ, zero, suc, ◌+◌, ◌-◌, ◌≤◌, ◌<◌, ◌≡◌, refl, ◌∙◌,
  ◌⊎◌, inl, inr, true, false, Option, some, List, arith, dec_lt, ℕ_discrete,
}
use mir_dev.MemPol.Dist.{add_at, page_loop, by_pages}

abbrev pub sum : List ℕ → ℕ
sum = total (λ v. v)

pub record Adds (dist dist' : List ℕ) (sz : ℕ) : Type 0 where
  pub nodes : length dist' ≡ length dist
  pub bytes : sum dist' ≡ sum dist + sz

pub add_at_lem :
    (dist : List ℕ) (node sz : ℕ)
    → node < length dist
    → sum dist + sz < u64_mod
    → (dist' : List ℕ) × (add_at dist node sz ≡ some dist') × Adds dist dist' sz
unfolding add_at
add_at_lem dist node sz p q =
    let (v, e) = nth-lt dist node p in
    let few = le-total (λ v. v) dist node v e in
    let more = total-update (λ v. v) dist node v (λ v. add64 v sz) e in
    (
      update dist node (λ v. add64 v sz),
      rw e refl,
      record { nodes = length-update dist node (λ v. add64 v sz); bytes = omega arith },
    )

module _ (node_at : ℕ → Option ℕ) (page_size sz nodes : ℕ) (page : 0 < page_size)
    (known : (i : ℕ) → i < sz → (n : ℕ) × (node_at i ≡ some n) × (n < nodes)) where
  -- What the loop has counted when it ends
  record Ends (dist : List ℕ) (ifrom : ℕ) (r : List ℕ × ℕ × ℕ × ℕ) : Type 0 where
    upto : ifrom ≤ r.2
    within : r.2 ≤ sz
    adds : Adds dist r.0 (r.2 - ifrom)
    last_in : r.1 < nodes
    same_node : r.3 ≡ r.1

  ended :
      (dist : List ℕ) (node ifrom new_node : ℕ)
      → ifrom ≤ sz
      → node < nodes
      → new_node ≡ node
      → Ends dist ifrom (dist, node, ifrom, new_node)
  ended dist node ifrom new_node q own same = record {
    upto = omega arith;
    within = q;
    adds = record { nodes = refl; bytes = omega arith };
    last_in = own;
    same_node = same;
  }

  joined :
      (dist dist' : List ℕ) (ifrom i : ℕ) (r : List ℕ × ℕ × ℕ × ℕ)
      → ifrom ≤ i
      → Adds dist dist' (i - ifrom)
      → Ends dist' i r
      → Ends dist ifrom r
  joined dist dist' ifrom i r p adds ends = record {
    upto = omega (arith, ends.upto);
    within = ends.within;
    adds = record {
      nodes = ends.adds.nodes ∙ adds.nodes;
      bytes = omega (arith, ends.adds.bytes, adds.bytes, ends.upto);
    };
    last_in = ends.last_in;
    same_node = ends.same_node;
  }

  page_loop-Ends :
      (fuel : ℕ) (dist : List ℕ) (node ifrom new_node i : ℕ)
      → 0 < fuel
      → sz < fuel + i
      → ifrom ≤ i
      → ifrom ≤ sz
      → node < nodes
      → length dist ≡ nodes
      → sum dist + (sz - ifrom) < u64_mod
      → (i < sz) ⊎ (new_node ≡ node)
      → (r : List ℕ × ℕ × ℕ × ℕ) × (page_loop node_at page_size sz fuel dist node ifrom new_node i
          ≡ some r)
        × Ends dist ifrom r
  unfolding page_loop
  page_loop-Ends zero dist node ifrom new_node i f g p q own l small any = absurd (omega arith)
  page_loop-Ends (suc fuel) dist node ifrom new_node i f g p q own l small any =
      elim (dec_lt i sz) [
        | no done ↦
            let t : ltb i sz ≡ false = ground arith in
            (
              (dist, node, ifrom, new_node),
              rw t refl,
              ended dist node ifrom new_node q own
                  (elim any [ inl more ↦ absurd (done more) | inr same ↦ same ]),
            )
        | yes more ↦
            let (n, e, in_range) = known i more in
            let t = lt→ltb i sz more in
            elim (ℕ_discrete n node) [
              | yes same ↦
                  let s : (n == node) ≡ true = ground arith in
                  rw (t, e, s)
                    (page_loop-Ends fuel dist node ifrom n (i + page_size) (omega arith)
                      (omega arith) (omega arith) q own l small (inr same))
              | no other ↦
                  let s : (n == node) ≡ false = ground arith in
                  let (dist', added, adds) =
                    add_at_lem dist node (i - ifrom) (omega arith) (omega arith) in
                  let (r, out, ends) =
                    page_loop-Ends fuel dist' n i n (i + page_size) (omega arith) (omega arith)
                      (omega arith) (omega arith) in_range (adds.nodes ∙ l)
                      (omega (arith, adds.bytes)) (inr refl) in
                  (r, rw (t, e, s, added) out, joined dist dist' ifrom i r p adds ends)
            ]
      ]

  more_pages :
      (dist : List ℕ)
      → page_size < sz
      → length dist ≡ nodes
      → sum dist + sz < u64_mod
      → (dist' : List ℕ) × (by_pages node_at nodes page_size dist sz ≡ some dist')
        × Adds dist dist' sz
  unfolding by_pages
  more_pages dist many l small =
      let (n, e, in_range) = known 0 (omega arith) in
      let t : leb sz page_size ≡ false = ground arith in
      let (r, out, ends) =
        page_loop-Ends (suc sz) dist n 0 (add16 nodes 1) page_size (omega arith) (omega arith)
          (omega arith) (omega arith) in_range l (omega arith) (inl many) in
      let s = (==_iff (r.3) (r.1)).1 ends.same_node in
      let (dist', added, adds) =
        add_at_lem r.0 r.1 (sz - r.2) (omega (arith, ends.last_in, ends.adds.nodes))
          (omega (arith, ends.adds.bytes, ends.within)) in
      (
        dist',
        rw (e, t, out, s) added,
        record {
          nodes = adds.nodes ∙ ends.adds.nodes;
          bytes = omega (arith, adds.bytes, ends.adds.bytes, ends.within);
        },
      )

  pub by_pages_lem :
      (dist : List ℕ)
      → 0 < sz
      → length dist ≡ nodes
      → nodes + 1 < u16_mod
      → sum dist + sz < u64_mod
      → (dist' : List ℕ) × (by_pages node_at nodes page_size dist sz ≡ some dist')
        × Adds dist dist' sz
  unfolding by_pages page_loop
  by_pages_lem dist z l few small =
      let (n, e, in_range) = known 0 z in
      elim (dec_lt page_size sz) [
        | no one_page ↦
            let t : leb sz page_size ≡ true = ground arith in
            let (dist', added, adds) = add_at_lem dist n sz (omega arith) small in
            let stop : ltb page_size sz ≡ false = ground arith in
            let new : (add16 nodes 1 == n) ≡ false = ground arith in
            (dist', rw (e, t, added, stop, new) refl, adds)
        | yes many ↦ more_pages dist many l small
      ]
