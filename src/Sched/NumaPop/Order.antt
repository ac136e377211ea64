-- ===== src/Sched/NumaPop/Order.antt =====
-- src/scheduling/mir_sched_pol_numa.c: where `pop_numa` looks for a task, and in which order.
use mir_dev.Base.{
  ◌==◌, if◌then◌else◌, length, All, u16_mod, add16, ℕ, ◌<◌, ◌≡◌, refl, ◌⊎◌, inl, inr, true, false,
  Option, some, arith,
}
use mir_dev.Arch.{Arch, IsConsistent}
use mir_dev.Sched.{Container, search}
use mir_dev.Sched.Round.{Outcome}
use mir_dev.Sched.WsDe.{up_to}
use mir_dev.Sched.NumaPop.{
  NumaState, or_else, take_over, tell_owned, alt_loop, near_loop, pop_at_node, pop_numa,
}
use mir_dev.Sched.NumaPop.Take.{IsValid, AtMost, Took}
use mir_dev.Sched.NumaPop.Find.{
  TookAlt, TookNear, NoneNear, EmptyAlts, EmptyOwn, FromOwn, FromAlts, FromAny, nears_lem, own_lem,
  alts_lem,
}

or_else_lem :
    {Q : Type 0} (r : Option (NumaState Q × ℕ)) (next : NumaState Q → Option (NumaState Q × ℕ))
    (s : NumaState Q) (A B : Type 0) (H K : NumaState Q → ℕ → Type 0)
    → Outcome r s A H
    → (A → Outcome (next s) s B K)
    → Outcome (or_else r next) s (A × B) (λ s' task. H s' task ⊎ (A × K s' task))
unfolding or_else
or_else_lem r next s A B H K first then_next = elim first [
  | inr (s', task, e, is_task, hit) ↦
      let t : (task == 0) ≡ false = ground arith in inr (s', task, rw (e, t) refl, is_task, inl hit)
  | inl (e, quiet) ↦ elim (then_next quiet) [
    | inl (f, more) ↦ inl (rw (e, f) refl, (quiet, more))
    | inr (s', task, f, is_task, hit) ↦ inr (s', task, rw (e, f) refl, is_task, inr (quiet, hit))
  ]
]

module _ {Q : Type 0} (c : Container Q) (a : Arch) (read_cost : ℕ → ℕ → Option ℕ) (worker node : ℕ)
    (s : NumaState Q) where
  module _ (v : IsValid c s) (known : node < length s.policy.queues)
      (alike : length s.alt_queues ≡ length s.policy.queues)
      (small : length s.policy.queues < u16_mod) where
    pop_at_node_lem :
        IsConsistent a
        → length s.policy.queues ≡ a.num_nodes
        → Outcome
            (pop_at_node c a read_cost worker node s)
            s
            ((EmptyOwn c a node s × EmptyAlts c a node s)
              × All (NoneNear c a node s) (up_to 1 a.diameter))
            (FromAny c a node s)
    unfolding pop_at_node
    pop_at_node_lem consistent nodes =
        let n = length s.policy.queues in
        or_else_lem
          (or_else
            (or_else (take_over c true 0 (tell_owned worker) s node)
              (λ s. take_over c false 0 (tell_owned worker) s node))
            (λ s.
              alt_loop c a read_cost worker node n s
                (if add16 node 1 == n then 0 else add16 node 1)))
          (λ s. search (near_loop c a read_cost worker node) (up_to 1 a.diameter) s) s
          (EmptyOwn c a node s × EmptyAlts c a node s)
          (All (NoneNear c a node s) (up_to 1 a.diameter)) (FromAlts c a node s)
          (TookNear c a node s)
          (or_else_lem
            (or_else (take_over c true 0 (tell_owned worker) s node)
              (λ s. take_over c false 0 (tell_owned worker) s node))
            (λ s.
              alt_loop c a read_cost worker node n s
                (if add16 node 1 == n then 0 else add16 node 1))
            s (EmptyOwn c a node s) (EmptyAlts c a node s) (FromOwn c a node s) (TookAlt c a node s)
            (or_else_lem (take_over c true 0 (tell_owned worker) s node)
              (λ s. take_over c false 0 (tell_owned worker) s node) s (AtMost c true 0 s node)
              (AtMost c false 0 s node) (λ s' task. Took c s s' true 0 node task)
              (λ s' task. Took c s s' false 0 node task)
              (own_lem c a read_cost worker node s v known alike small true)
              (λ none_here. own_lem c a read_cost worker node s v known alike small false))
            (λ empty. alts_lem c a read_cost worker node s v known alike small empty.0))
          (λ empty. nears_lem c a read_cost worker node s v known alike small consistent nodes)

-- `pop_numa` of a worker on `node`, in a valid state with a queue and an alternate queue for each node
-- of a consistent machine, neither aborts nor runs on. It takes a task from the alternate queue of its
-- node; if that is empty, from the queue of its node; if both are empty, from the alternate queue of
-- another node; if all of those are empty, from the queue of a neighbour at a distance from 1 to the
-- diameter with more tasks than the low limit for that distance, the least distance with such a
-- neighbour. If it finds none, nothing changes, and all those queues are empty or at most at their
-- limit. With a task taken the state stays valid.
pub pop_numa_lem :
    {Q : Type 0} (c : Container Q) (a : Arch) (read_cost : ℕ → ℕ → Option ℕ)
    (worker cpu_id node : ℕ) (s : NumaState Q)
    → IsConsistent a
    → IsValid c s
    → length s.policy.queues ≡ a.num_nodes
    → length s.alt_queues ≡ a.num_nodes
    → a.num_nodes < u16_mod
    → node < a.num_nodes
    → a.node_of cpu_id ≡ some node
    → Outcome
        (pop_numa c a read_cost s worker cpu_id)
        s
        ((EmptyOwn c a node s × EmptyAlts c a node s)
          × All (NoneNear c a node s) (up_to 1 a.diameter))
        (FromAny c a node s)
unfolding pop_numa
pop_numa_lem c a read_cost worker cpu_id node s consistent v nodes alts small known on = rw on (
    pop_at_node_lem c a read_cost worker node s v (omega arith) (omega arith) (omega arith)
      consistent nodes)
