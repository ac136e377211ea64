-- ===== src/Sched/Numa.antt =====
-- src/scheduling/mir_sched_pol_numa.c: the worker to whose node a task with a significant
-- distribution is pushed. `nodes` are the nodes of the workers, and `cost` is what
-- `mir_mem_node_dist_get_comm_cost` tells of the task's distribution from a node.
use mir_dev.Base.{
  ltb, ◌==◌, if◌then◌else◌, ltb→lt, ==_iff, Bool-cases, ◌>>=◌, length, get_or, All, u16_mod,
  u64_mod, add16, nth, nth-bound, All-intro, ℕ, zero, suc, ◌+◌, ◌-◌, ◌%◌, ◌≤◌, ◌<◌, ◌≡◌, refl, sym,
  ap₂, subst, ◌∙◌, ◌≢◌, ◌⊎◌, inl, inr, true, false, not, ◌&&◌, Option, none, some, List, [], ◌∷◌,
  arith, dec_lt, ℕ_discrete, mod-eq_of_lt,
}
use native.Mathlib.Nat.{mod_self}
use mir_dev.Sched.Round.{slot, visited}
use mir_dev.Sched.Conserve.{turn, slot-turn, visited-All}

-- The loop over the workers from `bias` on, on fuel for their number: the worker of least cost so
-- far, if any, and that cost. A node that was looked at just before is skipped.
unfoldable pub least_loop : List ℕ → (ℕ → ℕ) → ℕ → ℕ → ℕ → ℕ → Option ℕ → ℕ → Option (Option ℕ × ℕ)
least_loop nodes cost bias zero i prev_node who least = none
least_loop nodes cost bias (suc fuel) i prev_node who least = do
  node ← nth nodes i
  let is_new = not (node == prev_node)
  let better = is_new && ltb (cost node) least
  let who' = if better then some i else who
  let least' = if better then cost node else least
  let next = (i + 1) % length nodes
  let rest = least_loop nodes cost bias fuel next (if is_new then node else prev_node) who' least'
  if next == bias then some (who', least') else rest

unfoldable pub least_cost_worker : List ℕ → (ℕ → ℕ) → ℕ → ℕ → Option (Option ℕ × ℕ)
least_cost_worker nodes cost num_nodes bias =
    least_loop nodes cost bias (length nodes) bias (add16 num_nodes 1) none (u64_mod - 1)

next_slot :
    (n b k : ℕ)
    → b < n
    → k < n
    → (slot n b k + 1) % n ≡ (if suc k == n then b else slot n b (suc k))
next_slot n b k p q = elim (dec_lt (slot n b k + 1) n) [
  | yes r ↦ mod-eq_of_lt r ∙ ground arith
  | no r ↦ let e : slot n b k + 1 ≡ n = ground arith in rw e (mod_self n ∙ ground arith)
]

slot-start : (n b k : ℕ) → b < n → suc k < n → slot n b (suc k) ≢ b
slot-start n b k p q = ground arith

get_or-nth : (xs : List ℕ) (i : ℕ) → i < length xs → nth xs i ≡ some (get_or xs i 0)
get_or-nth [] i p = absurd (omega arith)
get_or-nth (x ∷ xs) zero p = refl
get_or-nth (x ∷ xs) (suc i) p = get_or-nth xs i (omega arith)

lower-All :
    (f : ℕ → ℕ) (low least : ℕ) (xs : List ℕ)
    → low ≤ least
    → All (λ j. least ≤ f j) xs
    → All (λ j. low ≤ f j) xs
lower-All f low least [] p h = tt
lower-All f low least (x ∷ xs) p h = (omega (arith, h.0), lower-All f low least xs p h.1)

module _ (nodes : List ℕ) (cost : ℕ → ℕ) (num_nodes bias : ℕ) where
  abbrev pub cost_at : ℕ → ℕ
  cost_at j = cost (get_or nodes j 0)

  -- After `k` workers
  record Best (k prev_node : ℕ) (who : Option ℕ) (least : ℕ) : Type 0 where
    lower : All (λ j. least ≤ cost_at j) (visited (length nodes) bias k)
    before : ((k ≡ 0) × (prev_node ≡ add16 num_nodes 1)) ⊎ (least ≤ cost prev_node)
    who_is :
        ((who ≡ none) × (k ≡ 0) × (least ≡ u64_mod - 1))
        ⊎ ((w : ℕ) × (who ≡ some w) × (w < length nodes) × (least ≡ cost_at w))

  module _ (own : bias < length nodes) (known : (j : ℕ) → get_or nodes j 0 < num_nodes)
      (few : num_nodes + 1 < u16_mod) (payable : (m : ℕ) → cost m < u64_mod - 1) where
    better_step :
        (k prev_node : ℕ) (who : Option ℕ) (least : ℕ)
        → Best k prev_node who least
        → k < length nodes
        → cost_at (slot (length nodes) bias k) < least
        → Best
            (suc k)
            (get_or nodes (slot (length nodes) bias k) 0)
            (some (slot (length nodes) bias k))
            (cost_at (slot (length nodes) bias k))
    better_step k prev_node who least b p q = record {
      lower = (
        omega arith,
        lower-All cost_at (cost_at (slot (length nodes) bias k)) least
            (visited (length nodes) bias k) (omega arith) b.lower,
      );
      before = inr (omega arith);
      who_is = inr (slot (length nodes) bias k, refl, ground arith, refl);
    }

    kept_step :
        (k prev_node last : ℕ) (who : Option ℕ) (least : ℕ)
        → Best k prev_node who least
        → k < length nodes
        → least ≤ cost_at (slot (length nodes) bias k)
        → least ≤ cost last
        → Best (suc k) last who least
    kept_step k prev_node last who least b p q r = record {
      lower = (q, b.lower);
      before = inr r;
      who_is = elim b.who_is [
        | inl z ↦
            let c = payable (get_or nodes (slot (length nodes) bias k) 0) in
            absurd (omega (arith, z.2))
        | inr w ↦ inr w
      ];
    }

    -- What the loop returns: a worker of least cost
    abbrev pub Least : Option (Option ℕ × ℕ) → Type 0
    Least r =
        (w : ℕ) × (w < length nodes)
        × (r ≡ some (some w, cost_at w))
        × All (λ j. cost_at w ≤ cost_at j) (visited (length nodes) bias (length nodes))

    at_end :
        (k prev_node : ℕ) (who : Option ℕ) (least : ℕ)
        → Best k prev_node who least
        → k ≡ length nodes
        → Least (some (who, least))
    at_end k prev_node who least b e = elim b.who_is [
      | inl z ↦ absurd (omega (arith, z.1))
      | inr (w, f, p, l) ↦ (
        w,
        p,
        ap₂ (λ a c. some (a, c)) f l,
        subst (λ c. All (λ j. c ≤ cost_at j) (visited (length nodes) bias (length nodes))) l
            (subst (λ k. All (λ j. least ≤ cost_at j) (visited (length nodes) bias k)) e b.lower),
      )
    ]

    go_on :
        (fuel k prev_node : ℕ) (who : Option ℕ) (least : ℕ)
        → Best (suc k) prev_node who least
        → k < length nodes
        → (suc k < length nodes
            → Least (
                least_loop nodes cost bias fuel
                  (slot (length nodes) bias (suc k))
                  prev_node
                  who
                  least))
        → Least (
            if (slot (length nodes) bias k + 1) % length nodes == bias
            then some (who, least)
            else least_loop nodes cost bias fuel
                ((slot (length nodes) bias k + 1) % length nodes)
                prev_node
                who
                least)
    go_on fuel k prev_node who least b p again =
        let next = next_slot (length nodes) bias k own p in
        elim (ℕ_discrete (suc k) (length nodes)) [
          | yes full ↦
              let t : (suc k == length nodes) ≡ true = ground arith in
              let u : (bias == bias) ≡ true = ground arith in
              rw (next, t, u) (at_end (suc k) prev_node who least b full)
          | no more ↦
              let t : (suc k == length nodes) ≡ false = ground arith in
              let off = slot-start (length nodes) bias k own (omega arith) in
              let u : (slot (length nodes) bias (suc k) == bias) ≡ false = ground arith in
              rw (next, t, u) (again (omega arith))
        ]

    seen_before :
        (k prev_node : ℕ) (who : Option ℕ) (least : ℕ)
        → Best k prev_node who least
        → (node : ℕ) → node ≡ prev_node
        → node < num_nodes
        → least ≤ cost prev_node
    seen_before k prev_node who least b node e p = elim b.before [
      | inl z ↦ absurd (omega (arith, z.1))
      | inr low ↦ low
    ]

    least_loop-lem :
        (fuel k prev_node : ℕ) (who : Option ℕ) (least : ℕ)
        → fuel + k ≡ length nodes
        → k < length nodes
        → Best k prev_node who least
        → Least (least_loop nodes cost bias fuel (slot (length nodes) bias k) prev_node who least)
    unfolding least_loop
    least_loop-lem zero k prev_node who least f p b = absurd (omega arith)
    least_loop-lem (suc fuel) k prev_node who least f p b =
        let i = slot (length nodes) bias k in
        let node = get_or nodes (slot (length nodes) bias k) 0 in
        let e = get_or-nth nodes (slot (length nodes) bias k) (ground arith) in
        elim (Bool-cases (node == prev_node)) [
          | inl same ↦
              let eq : node ≡ prev_node = (==_iff node prev_node).0 same in
              let low = seen_before k prev_node who least b node eq (known i) in
              let here : least ≤ cost node = subst (λ m. least ≤ cost m) (sym eq) low in
              rw (e, same)
                (go_on fuel k prev_node who least
                  (kept_step k prev_node prev_node who least b p here low) p
                  (λ q.
                    least_loop-lem fuel (suc k) prev_node who least (omega arith) q
                      (kept_step k prev_node prev_node who least b p here low)))
          | inr new ↦ elim (Bool-cases (ltb (cost node) least)) [
            | inl cheap ↦
                rw (e, new, cheap)
                  (go_on fuel k node (some i) (cost node)
                    (better_step k prev_node who least b p (ltb→lt (cost node) least cheap)) p
                    (λ q.
                      least_loop-lem fuel (suc k) node (some i) (cost node) (omega arith) q
                        (better_step k prev_node who least b p (ltb→lt (cost node) least cheap))))
            | inr dear ↦
                rw (e, new, dear)
                  (go_on fuel k node who least
                    (kept_step k prev_node node who least b p (ground arith) (ground arith)) p
                    (λ q.
                      least_loop-lem fuel (suc k) node who least (omega arith) q
                        (kept_step k prev_node node who least b p (ground arith) (ground arith))))
          ]
        ]

    every_worker :
        (w : ℕ)
        → All (λ j. cost_at w ≤ cost_at j) (visited (length nodes) bias (length nodes))
        → All (λ m. cost_at w ≤ cost m) nodes
    every_worker w h =
        All-intro (λ m. cost_at w ≤ cost m) nodes
          (λ i m e.
            let (k, at) = slot-turn (length nodes) bias i own (nth-bound nodes i m e) in
            let low : cost_at w ≤ cost_at i =
              subst (λ j. cost_at w ≤ cost_at j) at
                (visited-All (λ j. cost_at w ≤ cost_at j) (length nodes) bias
                  (turn (length nodes) bias i) (length nodes) k h) in
            let same : get_or nodes i 0 ≡ m =
              let f = get_or-nth nodes i (nth-bound nodes i m e) in cc in
            subst (λ m. cost_at w ≤ cost m) same low)

    -- For workers on nodes below the number of nodes, the worker with this bias among them, and costs
    -- below 2^64 - 1: the loop of `push_numa` ends with a worker to whose node the data of the task
    -- costs no more than to the node of any worker, and with that cost, although it skips a node that
    -- it has just looked at.
    pub least_cost_worker_lem :
        (w : ℕ) × (w < length nodes)
        × (least_cost_worker nodes cost num_nodes bias ≡ some (some w, cost_at w))
        × All (λ m. cost_at w ≤ cost m) nodes
    unfolding least_cost_worker
    least_cost_worker_lem =
        let first : slot (length nodes) bias 0 ≡ bias = ground arith in
        let (w, p, e, h) =
          least_loop-lem (length nodes) 0 (add16 num_nodes 1) none (u64_mod - 1) (omega arith)
            (omega arith)
            (record { lower = tt; before = inl (refl, refl); who_is = inl (refl, refl, refl) }) in
        (
          w,
          p,
          subst
              (λ i.
                least_loop nodes cost bias (length nodes) i (add16 num_nodes 1) none (u64_mod - 1)
                ≡ some (some w, cost_at w))
              first e,
          every_worker w h,
        )
