-- ===== src/Sched/WsDe/Node.antt =====
-- src/scheduling/mir_sched_pol_ws_de_node.c: the deques of the worker's own node, then those of the
-- other nodes by their distance.
use mir_dev.Base.{
  ◌==◌, length, All, u16_mod, count, All-nth, All-intro, ℕ, ◌+◌, ◌<◌, ◌≡◌, refl, sym, ap, ◌≢◌, ◌⊎◌,
  inl, inr, true, false, Option, some, List, arith, ℕ_discrete,
}
use mir_dev.Arch.{Arch, IsConsistent}
use mir_dev.Sched.{pop_from, search}
use mir_dev.Sched.Round.{slot, Outcome, search_lem, pop_from_lem}
use mir_dev.Sched.WsDe.{
  DequeState, visit_deque, up_to, visit_own_node, visit_node, visit_hop, pop_ws_de_node,
}
use mir_dev.Sched.WsDe.Take.{IsValid, Took, EmptyAt, visit_deque_lem}
use mir_dev.Sched.WsDe.Find.{round-All, counted_at, Nearest, nearest_lem}

module _ (a : Arch) (w node : ℕ) (s : DequeState) where
  -- Nothing is in the deques of a node, or in those of the nodes at a distance.
  abbrev pub EmptyNode : ℕ → Type 0
  EmptyNode m = (cpus : List ℕ) × (a.cpus_of m ≡ some cpus) × All (EmptyAt s) cpus

  abbrev pub EmptyHop : ℕ → Type 0
  EmptyHop d = All EmptyNode (a.vicinity_of node d)

  -- A deque is empty if the core with its number is on the node.
  abbrev pub EmptyHere : ℕ → Type 0
  EmptyHere i = a.node_of i ≡ some node → EmptyAt s i

  abbrev pub StolenAt : ℕ → DequeState → ℕ → Type 0
  StolenAt m s' task = (i : ℕ) × (a.node_of i ≡ some m) × Took s s' i false task

  abbrev pub StolenHop : ℕ → DequeState → ℕ → Type 0
  StolenHop d s' task = (m : ℕ) × (0 < count m (a.vicinity_of node d)) × StolenAt m s' task

  -- It is stolen at the least distance at which there is something.
  abbrev pub Stolen : DequeState → ℕ → Type 0
  Stolen = Nearest EmptyHop StolenHop 1 a.diameter

  abbrev pub EmptyAll : Type 0
  EmptyAll = (i : ℕ) → i < length s.policy.queues → EmptyHere i

  -- What is found: a task of a deque with the number of a core of the node, or one of another deque
  -- after all of those are empty
  abbrev pub FoundHere : Option (DequeState × ℕ) → Type 0
  FoundHere r =
      (s' : DequeState) × (task : ℕ) × (i : ℕ) × (r ≡ some (s', task))
      × (task ≢ 0)
      × (a.node_of i ≡ some node)
      × Took s s' i (i == w) task

  abbrev pub FoundFar : Option (DequeState × ℕ) → Type 0
  FoundFar r =
      (s' : DequeState) × (task : ℕ) × (r ≡ some (s', task))
      × (task ≢ 0)
      × EmptyAll
      × Stolen s' task

  module _ (c : IsConsistent a) (v : IsValid s) (workers : length s.policy.queues ≡ a.num_cores)
      (known : node < a.num_nodes) where
    visit_node_lem :
        (m : ℕ) → m < a.num_nodes → Outcome (visit_node a w s m) s (EmptyNode m) (StolenAt m)
    unfolding visit_node
    visit_node_lem m p =
        let (cpus, e, good, each) = c.own_cpus m p in
        let r =
          search_lem (λ s cpu. visit_deque false s w cpu) s (EmptyAt s) (StolenAt m)
            (λ cpu. (a.node_of cpu ≡ some m) × (cpu < a.num_cores)) cpus
            (λ cpu at. elim (visit_deque_lem false s w cpu v (omega arith)) [
              | inl quiet ↦ inl quiet
              | inr (s', task, f, is_task, t) ↦ inr (s', task, f, is_task, (cpu, at.0, t))
            ])
            good in
        rw e (elim r [ inl (f, quiet) ↦ inl (f, (cpus, refl, quiet)) | inr hit ↦ inr hit ])

    visit_hop_lem : (d : ℕ) → Outcome (visit_hop a w node s d) s (EmptyHop d) (StolenHop d)
    unfolding visit_hop
    visit_hop_lem d =
        search_lem (visit_node a w) s EmptyNode (StolenHop d)
          (λ m. (m < a.num_nodes) × (0 < count m (a.vicinity_of node d))) (a.vicinity_of node d)
          (λ m at. elim (visit_node_lem m at.0) [
            | inl quiet ↦ inl quiet
            | inr (s', task, f, is_task, hit) ↦ inr (s', task, f, is_task, (m, at.1, hit))
          ])
          (All-intro (λ m. (m < a.num_nodes) × (0 < count m (a.vicinity_of node d)))
            (a.vicinity_of node d)
            (λ i m e. (
              All-nth (λ m. m < a.num_nodes) (a.vicinity_of node d) i m (c.near node d) e,
              counted_at (a.vicinity_of node d) i m e,
            )))

    far_lem :
        Outcome
          (search (visit_hop a w node) (up_to 1 a.diameter) s)
          s
          (All EmptyHop (up_to 1 a.diameter))
          Stolen
    far_lem = nearest_lem (visit_hop a w node) s EmptyHop StolenHop 1 a.diameter visit_hop_lem

    visit_own_node_lem :
        (i : ℕ)
        → i < length s.policy.queues
        → Outcome
            (visit_own_node a w node s i)
            s
            (EmptyHere i)
            (λ s' task. (a.node_of i ≡ some node) × Took s s' i (i == w) task)
    unfolding visit_own_node
    visit_own_node_lem i p =
        let (m, e, q) = c.node_in i (omega arith) in
        elim (ℕ_discrete node m) [
          | no elsewhere ↦
              let t : (node == m) ≡ false = ground arith in
              rw (e, t) (inl (refl, λ f. absurd (elsewhere cc)))
          | yes here ↦
              let t : (node == m) ≡ true = ground arith in
              rw (e, t)
                (elim (visit_deque_lem (i == w) s w i v p) [
                  | inl (f, quiet) ↦ inl (f, λ g. quiet)
                  | inr (s', task, f, is_task, took) ↦
                      inr (s', task, f, is_task, (ap some (sym here), took))
                ])
        ]

    here_lem :
        w < length s.policy.queues
        → length s.policy.queues < u16_mod
        → Outcome
            (pop_from
              (visit_own_node a w node)
              (length s.policy.queues)
              (length s.policy.queues + 1)
              s
              w
              w)
            s
            EmptyAll
            (λ s' task. (i : ℕ) × (a.node_of i ≡ some node) × Took s s' i (i == w) task)
    here_lem own small =
        elim (pop_from_lem (visit_own_node a w node) s EmptyHere (length s.policy.queues) w
          (λ s' i task. (a.node_of i ≡ some node) × Took s s' i (i == w) task) own small
          visit_own_node_lem) [
            | inl (e, seen) ↦
                inl (e, λ i p. round-All EmptyHere (length s.policy.queues) w i own seen p)
            | inr (s', task, k, e, less, seen, is_task, hit) ↦
                inr (s', task, e, is_task, (slot (length s.policy.queues) w k, hit.0, hit.1))
          ]

-- `pop_ws_de_node` of a worker on `node`, in a valid state with a deque for each core of a consistent
-- machine, neither aborts nor runs on. It takes a task from a deque with the number of a core of the
-- node, the newest of the worker's own, the oldest of another; or, when all of those are empty, it
-- steals one from a deque with the number of a core of a node at a distance, the least from 1 to the
-- diameter at which such a deque holds one; or it returns no task and changes nothing, and then all these deques are empty. With a task taken
-- the state stays valid.
pub pop_ws_de_node_lem :
    (a : Arch) (s : DequeState) (w cpu_id node : ℕ)
    → IsConsistent a
    → IsValid s
    → length s.policy.queues ≡ a.num_cores
    → a.num_cores < u16_mod
    → w < a.num_cores
    → node < a.num_nodes
    → a.node_of cpu_id ≡ some node
    → ((pop_ws_de_node a w s cpu_id ≡ some (s, 0))
        × EmptyAll a w node s
        × All (EmptyHop a w node s) (up_to 1 a.diameter))
      ⊎ FoundHere a w node s (pop_ws_de_node a w s cpu_id)
      ⊎ FoundFar a w node s (pop_ws_de_node a w s cpu_id)
unfolding pop_ws_de_node
pop_ws_de_node_lem a s w cpu_id node c v workers small own known on =
    elim (here_lem a w node s c v workers known (omega arith) (omega arith)) [
      | inr (s', task, e, is_task, (i, here, took)) ↦
          let t : (task == 0) ≡ false = ground arith in
          inr (inl (s', task, i, rw (on, e, t) refl, is_task, here, took))
      | inl (e, quiet) ↦ elim (far_lem a w node s c v workers known) [
        | inl (f, far) ↦ inl (rw (on, e, f) refl, quiet, far)
        | inr (s', task, f, is_task, hit) ↦
            inr (inr (s', task, rw (on, e, f) refl, is_task, quiet, hit))
      ]
    ]
