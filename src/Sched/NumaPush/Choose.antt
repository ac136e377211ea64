-- ===== src/Sched/NumaPush/Choose.antt =====
-- src/scheduling/mir_sched_pol_numa.c: which queue `push_numa` chooses.
use mir_dev.Base.{
  ltb, ◌==◌, if◌then◌else◌, Bool-cases, ◌>>=◌, length, get_or, All, u16_mod, u64_mod, nth, ℕ, zero,
  suc, ◌+◌, ◌-◌, ◌≤◌, ◌<◌, ◌≡◌, refl, ◌≢◌, ◌⊎◌, inl, inr, Bool, true, false, Option, none, some,
  List, [], ◌∷◌, arith,
}
use mir_dev.Arch.{Arch}
use mir_dev.MemPol.Dist.{get_comm_cost, cost_from}
use mir_dev.Worker.Work.{update_bias}
use mir_dev.Sched.{Container}
use mir_dev.Sched.Numa.{least_cost_worker_lem}
use mir_dev.Sched.NumaPop.{NumaState, lane}
use mir_dev.Sched.NumaPop.Take.{IsValid}
use mir_dev.Sched.NumaPush.{
  is_data_dist_significant, Choice, own_cost, choose, note_cost, push_at, push_numa,
}
use mir_dev.Sched.NumaPush.Add.{Inlined, Added, push_at_lem, note_cost-IsValid}

nth-get_or : (xs : List ℕ) (i : ℕ) → i < length xs → nth xs i ≡ some (get_or xs i 0)
nth-get_or [] i p = absurd (omega arith)
nth-get_or (x ∷ xs) zero p = refl
nth-get_or (x ∷ xs) (suc i) p = nth-get_or xs i (omega arith)

-- The cost of data from a node
abbrev pub cost_of : Arch → List ℕ → ℕ → ℕ
cost_of a dist m = cost_from a.comm_cost_of m dist 0 0

module _ (a : Arch) (footprint_config : ℕ) (nodes : List ℕ) (worker bias : ℕ)
    (dist : Option (List ℕ)) where
  -- The task reads nothing that is known, or nothing significant: the own node's alternate queue
  abbrev pub Stays : Choice → Type 0
  Stays choice =
      (choice.is_alt ≡ true)
      × (choice.target ≡ worker)
      × (choice.bias ≡ bias)
      × ((dist ≡ none)
          ⊎ ((d : List ℕ) × (dist ≡ some d)
              × (is_data_dist_significant a footprint_config d ≡ false)))

  -- Or the queue of the node of a worker to which no worker's node is preferable
  abbrev pub Goes : Choice → Type 0
  Goes choice =
      (d : List ℕ) × (dist ≡ some d)
      × (is_data_dist_significant a footprint_config d ≡ true)
      × (choice.is_alt ≡ false)
      × (choice.bias ≡ update_bias bias (length nodes))
      × All (λ m. cost_of a d (get_or nodes choice.target 0) ≤ cost_of a d m) nodes

module _ (a : Arch) (footprint_config : ℕ) (nodes : List ℕ) (stats : Bool) (worker bias : ℕ)
    (own : worker < length nodes) (biased : bias < length nodes)
    (known : (j : ℕ) → get_or nodes j 0 < a.num_nodes) (few : a.num_nodes + 1 < u16_mod) where
  abbrev Chosen : Option (List ℕ) → Type 0
  Chosen dist =
      (choice : Choice) × (choose a footprint_config nodes stats worker bias dist ≡ some choice)
      × (choice.target < length nodes)
      × (Stays a footprint_config nodes worker bias dist choice
          ⊎ Goes a footprint_config nodes worker bias dist choice)

  own_cost_lem :
      (d : List ℕ)
      → length d ≡ a.num_nodes
      → own_cost a nodes worker d ≡ some (some (cost_of a d (get_or nodes worker 0)))
  unfolding own_cost get_comm_cost
  own_cost_lem d sized =
      let k = known worker in
      let t : ltb (get_or nodes worker 0) (length d) ≡ true = ground arith in
      rw (nth-get_or nodes worker own, t) refl

  choose_none : Chosen none
  unfolding choose
  choose_none = (
    record { target = worker; is_alt = true; cost = none; bias = bias },
    refl,
    own,
    inl (refl, refl, refl, inl refl),
  )

  noted : (d : List ℕ) → Bool → Option ℕ
  noted d stats = if stats then some (cost_of a d (get_or nodes worker 0)) else none

  choose_some :
      (d : List ℕ)
      → length d ≡ a.num_nodes
      → ((m : ℕ) → cost_of a d m < u64_mod - 1)
      → Chosen (some d)
  unfolding choose noted
  choose_some d sized payable = elim (Bool-cases (is_data_dist_significant a footprint_config d)) [
    | inr minor ↦
        let e : (if stats then own_cost a nodes worker d else some none) ≡ some (noted d stats) =
          elim (Bool-cases stats) [ inl f ↦ rw f (own_cost_lem d sized) | inr f ↦ rw f refl ] in
        (
          record { target = worker; is_alt = true; cost = noted d stats; bias = bias },
          rw (minor, e) refl,
          own,
          inl (refl, refl, refl, inr (d, refl, minor)),
        )
    | inl major ↦
        let (w, p, e, least) =
          least_cost_worker_lem nodes (cost_of a d) a.num_nodes bias biased known few payable in
        (
          record {
            target = w;
            is_alt = false;
            cost = if stats then some (cost_of a d (get_or nodes w 0)) else none;
            bias = update_bias bias (length nodes);
          },
          rw (major, e) refl,
          p,
          inr (d, refl, major, refl, refl, least),
        )
  ]

  choose_lem :
      (dist : Option (List ℕ))
      → ((d : List ℕ) → dist ≡ some d → length d ≡ a.num_nodes)
      → ((d : List ℕ) (m : ℕ) → dist ≡ some d → cost_of a d m < u64_mod - 1)
      → Chosen dist
  choose_lem none sized payable = choose_none
  choose_lem (some d) sized payable = choose_some d (sized d refl) (λ m. payable d m refl)

-- `push_numa` in a valid state with a queue and an alternate queue for each node, for a task that is
-- not NULL and whose distribution, if there is one, has an entry for each node and costs below
-- 2^64 - 1: it chooses the alternate queue of the worker's node if there is no distribution or it is
-- not significant, and else the queue of the node of some worker, from which the data costs no more
-- than from that of any other, and moves the bias on. If that queue refuses the task, it is executed
-- at once, counted as inlined, and 0 returned; else 1 is returned, the queue holds the task once more
-- and the state stays valid.
pub push_numa_lem :
    {Q : Type 0} (c : Container Q) (execute : ℕ → NumaState Q → Option (NumaState Q)) (a : Arch)
    (nodes : List ℕ) (footprint_config : ℕ) (s : NumaState Q) (worker bias task : ℕ)
    (dist : Option (List ℕ))
    → IsValid c s
    → length s.policy.queues ≡ a.num_nodes
    → length s.alt_queues ≡ a.num_nodes
    → worker < length nodes
    → bias < length nodes
    → ((j : ℕ) → get_or nodes j 0 < a.num_nodes)
    → a.num_nodes + 1 < u16_mod
    → task ≢ 0
    → ((d : List ℕ) → dist ≡ some d → length d ≡ a.num_nodes)
    → ((d : List ℕ) (m : ℕ) → dist ≡ some d → cost_of a d m < u64_mod - 1)
    → (choice : Choice) × (Stays a footprint_config nodes worker bias dist choice
        ⊎ Goes a footprint_config nodes worker bias dist choice)
      × (r : Option (NumaState Q × Bool)) × (push_numa c execute a nodes footprint_config s worker
            bias task dist
          ≡ (r >>= λ z. some (z.0, choice.bias, z.1)))
      × (Inlined c execute
            (note_cost task choice.cost s)
            worker
            task
            choice.is_alt
            (get_or nodes choice.target 0)
            r
          ⊎ ((s' : NumaState Q) × (r ≡ some (s', true))
              × Added c
                  (note_cost task choice.cost s)
                  s'
                  choice.is_alt
                  (get_or nodes choice.target 0)
                  task))
unfolding push_numa
push_numa_lem c execute a nodes footprint_config s worker bias task dist v queues alts own biased
      known few is_task sized payable =
    let (choice, e, p, why) =
      choose_lem a footprint_config nodes s.policy.worker_stats worker bias own biased known few
        dist sized payable in
    let t : (task == 0) ≡ false = ground arith in
    let noted = note_cost task choice.cost s in
    let room = lane_room choice.is_alt choice.cost (known choice.target) in
    (
      choice,
      why,
      push_at c execute (note_cost task choice.cost s) worker task choice.is_alt
          (get_or nodes choice.target 0),
      rw (t, e, nth-get_or nodes choice.target p) refl,
      push_at_lem c execute (note_cost task choice.cost s) worker task choice.is_alt
          (get_or nodes choice.target 0) (note_cost-IsValid c task choice.cost s v) is_task room,
    )
  where
    lane_room :
        {n : ℕ} (alt : Bool) (cost : Option ℕ)
        → n < a.num_nodes
        → n < length (lane alt (note_cost task cost s))
    lane_room true none p = omega arith
    lane_room true (some k) p = omega arith
    lane_room false none p = omega arith
    lane_room false (some k) p = omega arith
