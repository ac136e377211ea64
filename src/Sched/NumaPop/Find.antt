-- ===== src/Sched/NumaPop/Find.antt =====
-- src/scheduling/mir_sched_pol_numa.c: the loops of `pop_numa`.
use mir_dev.Base.{
  ◌==◌, if◌then◌else◌, length, All, u16_mod, add16, count, All-nth, All-intro, ℕ, zero, suc, ◌+◌,
  ◌≤◌, ◌<◌, ◌≡◌, refl, sym, subst, ◌≢◌, ◌⊎◌, inl, inr, Bool, true, false, Option, some, arith,
  ℕ_discrete,
}
use mir_dev.Arch.{Arch, IsConsistent}
use mir_dev.Sched.{Container, search}
use mir_dev.Sched.WsDe.{up_to}
use mir_dev.Sched.Round.{slot, visited, Outcome, search_lem}
use mir_dev.Sched.WsDe.Find.{round-All, counted_at, Nearest, nearest_lem}
use mir_dev.Sched.NumaPop.{
  NumaState, take_over, tell_owned, tell_stolen, count_distance, low_limit, alt_loop, near_loop,
}
use mir_dev.Sched.NumaPop.Take.{IsValid, AtMost, Took, take_over_lem}

next_slot :
    (n w k : ℕ)
    → w < n
    → k < n
    → n < u16_mod
    → (if add16 (slot n w k) 1 == n then 0 else add16 (slot n w k) 1) ≡ slot n w (suc k)
next_slot n w k p q small =
    let e : add16 (slot n w k) 1 ≡ slot n w k + 1 = ground arith in rw e (ground arith)

slot-start : (n w k : ℕ) → w < n → 0 < k → k < n → (slot n w k == w) ≡ false
slot-start n w k p q r = ground arith

slot-end : (n w : ℕ) → w < n → (slot n w n == w) ≡ true
slot-end n w p = ground arith

first_slot :
    (n w : ℕ) → w < n → n < u16_mod → (if add16 w 1 == n then 0 else add16 w 1) ≡ slot n w 1
first_slot n w p small = let e : add16 w 1 ≡ w + 1 = omega arith in rw e (ground arith)

slot-in : (n w k : ℕ) → w < n → k < n → slot n w k < n
slot-in n w k p q = ground arith

module _ {Q : Type 0} (c : Container Q) (a : Arch) (node : ℕ) (s : NumaState Q) where
  -- A task is taken from one of the alternate queues, or of the queues.
  abbrev pub TookAlt : NumaState Q → ℕ → Type 0
  TookAlt s' task = (i : ℕ) × Took c s s' true 0 i task

  -- No node at a distance has more tasks than it may keep for itself.
  abbrev pub NoneNear : ℕ → Type 0
  NoneNear d = All (AtMost c false (low_limit a d) s) (a.vicinity_of node d)

  abbrev pub TookAt : ℕ → NumaState Q → ℕ → Type 0
  TookAt d s' task =
      (i : ℕ) × (0 < count i (a.vicinity_of node d)) × Took c s s' false (low_limit a d) i task

  -- A task is taken at the least distance at which a node has more than it may keep.
  abbrev pub TookNear : NumaState Q → ℕ → Type 0
  TookNear = Nearest NoneNear TookAt 1 a.diameter

  abbrev pub EmptyAlts : Type 0
  EmptyAlts = (i : ℕ) → i < length s.policy.queues → AtMost c true 0 s i

  abbrev pub EmptyOwn : Type 0
  EmptyOwn = AtMost c true 0 s node × AtMost c false 0 s node

  -- What is found in the queues of the own node: in the alternate queue, or that is empty
  abbrev pub FromOwn : NumaState Q → ℕ → Type 0
  FromOwn s' task =
      Took c s s' true 0 node task ⊎ (AtMost c true 0 s node × Took c s s' false 0 node task)

  -- Or those are empty, and it is in another alternate queue
  abbrev pub FromAlts : NumaState Q → ℕ → Type 0
  FromAlts s' task = FromOwn s' task ⊎ (EmptyOwn × TookAlt s' task)

  -- Or all of those are empty, and it is in the queue of a node at a distance
  abbrev pub FromAny : NumaState Q → ℕ → Type 0
  FromAny s' task = FromAlts s' task ⊎ ((EmptyOwn × EmptyAlts) × TookNear s' task)

module _ {Q : Type 0} (c : Container Q) (a : Arch) (read_cost : ℕ → ℕ → Option ℕ) (worker node : ℕ)
    (s : NumaState Q) where
  alt_step :
      (fuel k : ℕ)
      → (slot (length s.policy.queues) node k == node) ≡ false
      → take_over c true 0
          (tell_stolen read_cost worker node (λ s. s))
          s
          (slot (length s.policy.queues) node k)
        ≡ some (s, 0)
      → alt_loop c a read_cost worker node (suc fuel) s (slot (length s.policy.queues) node k)
        ≡ alt_loop c a read_cost worker node fuel s (
            if add16 (slot (length s.policy.queues) node k) 1 == length s.policy.queues
            then 0
            else add16 (slot (length s.policy.queues) node k) 1)
  unfolding alt_loop
  alt_step fuel k other e = rw (other, e) refl

  alt_hit :
      (fuel k task : ℕ) (s' : NumaState Q)
      → (slot (length s.policy.queues) node k == node) ≡ false
      → take_over c true 0
          (tell_stolen read_cost worker node (λ s. s))
          s
          (slot (length s.policy.queues) node k)
        ≡ some (s', task)
      → task ≢ 0
      → alt_loop c a read_cost worker node (suc fuel) s (slot (length s.policy.queues) node k)
        ≡ some (s', task)
  unfolding alt_loop
  alt_hit fuel k task s' other e is_task =
      let t : (task == 0) ≡ false = ground arith in rw (other, e, t) refl

  alt_end :
      (fuel : ℕ)
      → (slot (length s.policy.queues) node (length s.policy.queues) == node) ≡ true
      → alt_loop c a read_cost worker node
          (suc fuel)
          s
          (slot (length s.policy.queues) node (length s.policy.queues))
        ≡ some (s, 0)
  unfolding alt_loop
  alt_end fuel e = rw e refl

  module _ (v : IsValid c s) (known : node < length s.policy.queues)
      (alike : length s.alt_queues ≡ length s.policy.queues)
      (small : length s.policy.queues < u16_mod) where
    alt_loop_lem :
        (fuel k : ℕ)
        → fuel + k ≡ length s.policy.queues + 1
        → 0 < k
        → k ≤ length s.policy.queues
        → All (AtMost c true 0 s) (visited (length s.policy.queues) node k)
        → Outcome
            (alt_loop c a read_cost worker node fuel s (slot (length s.policy.queues) node k))
            s
            (All
              (AtMost c true 0 s)
              (visited (length s.policy.queues) node (length s.policy.queues)))
            (TookAlt c a node s)
    alt_loop_lem zero k f started within seen = absurd (omega arith)
    alt_loop_lem (suc fuel) k f started within seen = elim (ℕ_discrete k (length s.policy.queues)) [
      | yes full ↦ inl (
        subst
            (λ k.
              alt_loop c a read_cost worker node (suc fuel) s (slot (length s.policy.queues) node k)
              ≡ some (s, 0))
            (sym full) (alt_end fuel (slot-end (length s.policy.queues) node known)),
        subst (λ k. All (AtMost c true 0 s) (visited (length s.policy.queues) node k)) full seen,
      )
      | no more ↦
          let less : k < length s.policy.queues = omega arith in
          let other = slot-start (length s.policy.queues) node k known started less in
          let low = slot-in (length s.policy.queues) node k known less in
          elim (take_over_lem c true 0 (tell_stolen read_cost worker node (λ s. s)) s
            (slot (length s.policy.queues) node k) v (omega arith)) [
              | inr (s', task, e, is_task, took) ↦ inr (
                s',
                task,
                alt_hit fuel k task s' other e is_task,
                is_task,
                (slot (length s.policy.queues) node k, took),
              )
              | inl (e, quiet) ↦
                  let next = next_slot (length s.policy.queues) node k known less small in
                  let rest =
                    alt_loop_lem fuel (suc k) (omega arith) (omega arith) (omega arith)
                      (quiet, seen) in
                  rw (alt_step fuel k other e, next) rest
            ]
    ]

    near_loop_lem :
        IsConsistent a
        → length s.policy.queues ≡ a.num_nodes
        → (d : ℕ)
        → Outcome
            (near_loop c a read_cost worker node s d)
            s
            (NoneNear c a node s d)
            (TookAt c a node s d)
    unfolding near_loop
    near_loop_lem consistent nodes d =
        search_lem
          (take_over c false (low_limit a d) (tell_stolen read_cost worker node (count_distance d)))
          s (AtMost c false (low_limit a d) s) (TookAt c a node s d)
          (λ m. (m < a.num_nodes) × (0 < count m (a.vicinity_of node d))) (a.vicinity_of node d)
          (λ m p.
            elim (take_over_lem c false (low_limit a d)
              (tell_stolen read_cost worker node (count_distance d)) s m v (omega (arith, p.0))) [
                | inl quiet ↦ inl quiet
                | inr (s', task, e, is_task, took) ↦ inr (s', task, e, is_task, (m, p.1, took))
              ])
          (All-intro (λ m. (m < a.num_nodes) × (0 < count m (a.vicinity_of node d)))
            (a.vicinity_of node d)
            (λ i m e. (
              All-nth (λ m. m < a.num_nodes) (a.vicinity_of node d) i m (consistent.near node d) e,
              counted_at (a.vicinity_of node d) i m e,
            )))

    pub nears_lem :
        IsConsistent a
        → length s.policy.queues ≡ a.num_nodes
        → Outcome
            (search (near_loop c a read_cost worker node) (up_to 1 a.diameter) s)
            s
            (All (NoneNear c a node s) (up_to 1 a.diameter))
            (TookNear c a node s)
    nears_lem consistent nodes =
        nearest_lem (near_loop c a read_cost worker node) s (NoneNear c a node s)
          (TookAt c a node s) 1 a.diameter (near_loop_lem consistent nodes)

    pub own_lem :
        (alt : Bool)
        → Outcome
            (take_over c alt 0 (tell_owned worker) s node)
            s
            (AtMost c alt 0 s node)
            (λ s' task. Took c s s' alt 0 node task)
    own_lem true = take_over_lem c true 0 (tell_owned worker) s node v (omega arith)
    own_lem false = take_over_lem c false 0 (tell_owned worker) s node v known

    pub alts_lem :
        AtMost c true 0 s node
        → Outcome
            (alt_loop c a read_cost worker node
              (length s.policy.queues)
              s
              (if add16 node 1 == length s.policy.queues then 0 else add16 node 1))
            s
            (EmptyAlts c a node s)
            (TookAlt c a node s)
    alts_lem none_here =
        let start : slot (length s.policy.queues) node 0 ≡ node = ground arith in
        let begin : All (AtMost c true 0 s) (visited (length s.policy.queues) node 1) =
          (subst (AtMost c true 0 s) (sym start) none_here, tt) in
        let first = first_slot (length s.policy.queues) node known small in
        rw first
          (elim (alt_loop_lem (length s.policy.queues) 1 (omega arith) (omega arith) (omega arith)
            begin) [
              | inl (e, seen) ↦ inl (
                e,
                λ i p. round-All (AtMost c true 0 s) (length s.policy.queues) node i known seen p,
              )
              | inr hit ↦ inr hit
            ])
