-- ===== src/Sched/NumaPop.antt =====
-- src/scheduling/mir_sched_pol_numa.c: `pop_numa`. Each node has a queue and an alternate queue, the
-- latter for tasks whose data does not tell where they should be executed.
pub mod Take
pub mod Find
pub mod Order
mod Tests
use mir_dev.Base.{
  ltb, leb, ◌==◌, if◌then◌else◌, ltb→lt, lt→ltb, leb→le, ==_iff, Bool-cases, Option-cases, ◌>>=◌,
  ◌>>◌, assert, length, get_or, set, replicate, length-append, length_zero, length-replicate,
  length-set, get_or-set_self, get_or-set_ne, AllSet, AllSet-snoc, AllSet-init, AllSet-cons, All,
  u16_mod, u32_mod, u64_mod, add16, add32, sub32, add64, sub64, all_below, all_below_lem, count,
  count-append, nth, update, total, length-update, nth-lt, nth-bound, nth-update_self,
  nth-update_ne, nth-update_absent, nth-append_left, nth-append_last, nth-append_cases,
  nth-update_cases, nth-set_self, set_same, nth-set_ne, total-set, total-update, le-total, All-nth,
  All-set, All-intro, ℕ, zero, suc, ◌+◌, ◌-◌, ◌*◌, ◌/◌, ◌%◌, ◌^◌, ◌≤◌, ◌<◌, min, max, ◌≡◌, refl,
  sym, ap, ap₂, subst, ◌∙◌, ◌≢◌, ◌↔◌, ◌⊎◌, inl, inr, Bool, true, false, not, ◌&&◌, ◌||◌, Option,
  none, some, List, [], ◌∷◌, ◌++◌, map, append-nil, append_assoc, arith, dec_lt, ℕ_discrete,
  mod-add-mod, mod-eq_of_lt, mod-eq-sub-mod, add-zero,
}
use mir_dev.Arch.{Arch}
use mir_dev.Worker.Stats.{Stats, update_comm_cost, count_owned, count_stolen}
use mir_dev.Sched.{Container, State, search}
use mir_dev.Sched.WsDe.{up_to}

-- The policy's state with its alternate queues, and the field `comm_cost` of the tasks
pub record NumaState (Q : Type 0) : Type 0 where
  pub policy : State Q
  pub alt_queues : List Q
  pub comm_cost : ℕ → ℕ

-- What a pop writes down when the workers' statistics are wanted
pub record Ledger : Type 0 where
  pub statistics : List Stats
  pub comm_cost : ℕ → ℕ

abbrev pub unknown_cost : ℕ
unknown_cost = u64_mod - 1

abbrev count_for : ℕ → (Stats → Stats) → Ledger → Ledger
count_for worker f l = record l { statistics = update l.statistics worker f }

-- A task of the own node: its cost was found when it was pushed.
unfoldable pub tell_owned : ℕ → ℕ → Ledger → Ledger
tell_owned worker task l =
    let cost = l.comm_cost task in
    let l' : Ledger =
      (if cost == unknown_cost then l else count_for worker (λ s. update_comm_cost s cost) l) in
    count_for worker count_owned l'

-- `read_cost` is the cost of the task's data from a node, if the task has a distribution of what it
-- reads.
module _ (read_cost : ℕ → ℕ → Option ℕ) where
  unfoldable pub tell_stolen : ℕ → ℕ → (Stats → Stats) → ℕ → Ledger → Ledger
  tell_stolen worker node by_distance task l =
      let l' : Ledger = (elim (read_cost task node) [
        | none ↦ l
        | some cost ↦
            count_for worker (λ s. by_distance (update_comm_cost s cost))
              (record l { comm_cost = λ t. if t == task then cost else l.comm_cost t })
      ]) in
      count_for worker count_stolen l'

unfoldable pub count_distance : ℕ → Stats → Stats
count_distance d s = record s {
  num_comm_tasks_stolen_by_diameter =
      update s.num_comm_tasks_stolen_by_diameter (d - 1) (λ n. add32 n 1);
}

-- What a node at a distance may keep for itself
abbrev pub low_limit : Arch → ℕ → ℕ
low_limit a d = a.num_cores / a.num_nodes * d

module _ {Q : Type 0} where
  -- The queues, or the alternate queues
  abbrev pub lane : Bool → NumaState Q → List Q
  lane alt s = if alt then s.alt_queues else s.policy.queues

  unfoldable pub set_lane : Bool → NumaState Q → List Q → NumaState Q
  set_lane alt s qs =
      if alt
      then record s { alt_queues = qs }
      else record s { policy = record s.policy { queues = qs } }

  -- A task has left: it is written down, and waits no more.
  unfoldable pub told : (Ledger → Ledger) → NumaState Q → NumaState Q
  told tell s =
      let l : Ledger = record { statistics = s.policy.statistics; comm_cost = s.comm_cost } in
      let l' : Ledger = (if s.policy.worker_stats then tell l else l) in
      record s {
        policy = record s.policy {
          statistics = l'.statistics;
          num_tasks_waiting = sub32 s.policy.num_tasks_waiting 1;
        };
        comm_cost = l'.comm_cost;
      }

  -- The result of a search, or that of the next one if nothing was found
  unfoldable pub or_else :
      Option (NumaState Q × ℕ) → (NumaState Q → Option (NumaState Q × ℕ)) → Option (NumaState Q × ℕ)
  or_else r next = do (s, task) ← r; let more = next s; if task == 0 then more else some (s, task)

  module _ (c : Container Q) where
    -- The queue at `i`, if it has more than `limit` tasks
    unfoldable pub take_over :
        Bool → ℕ → (ℕ → Ledger → Ledger) → NumaState Q → ℕ → Option (NumaState Q × ℕ)
    take_over alt limit tell s i = do
      queue ← nth (lane alt s) i
      if leb (c.size_of queue) limit then some (s, 0) else (do
        (queue', task) ← c.take_out queue
        let s' = set_lane alt s (set (lane alt s) i queue')
        if task == 0 then some (s', 0) else some (told (tell task) s', task))

    module _ (a : Arch) (read_cost : ℕ → ℕ → Option ℕ) (worker node : ℕ) where
      -- `while (ctr != node)`, over the alternate queues of the other nodes
      unfoldable pub alt_loop : ℕ → NumaState Q → ℕ → Option (NumaState Q × ℕ)
      alt_loop zero s ctr = none
      alt_loop (suc fuel) s ctr = if ctr == node then some (s, 0) else (do
        (s', task) ← take_over true 0 (tell_stolen read_cost worker node (λ s. s)) s ctr
        let next = add16 ctr 1
        let rest = alt_loop fuel s' (if next == length s.policy.queues then 0 else next)
        if task == 0 then rest else some (s', task))

      -- The queues of the nodes at a distance
      unfoldable pub near_loop : NumaState Q → ℕ → Option (NumaState Q × ℕ)
      near_loop s d =
          search
            (take_over false (low_limit a d) (tell_stolen read_cost worker node (count_distance d)))
            (a.vicinity_of node d) s

      unfoldable pub pop_at_node : NumaState Q → Option (NumaState Q × ℕ)
      pop_at_node s =
          let n = length s.policy.queues in
          let first = add16 node 1 in
          or_else
            (or_else
              (or_else (take_over true 0 (tell_owned worker) s node)
                (λ s. take_over false 0 (tell_owned worker) s node))
              (λ s. alt_loop n s (if first == n then 0 else first)))
            (λ s. search near_loop (up_to 1 a.diameter) s)

    -- `cpu_id` is the worker's.
    unfoldable pub pop_numa :
        Arch → (ℕ → ℕ → Option ℕ) → NumaState Q → ℕ → ℕ → Option (NumaState Q × ℕ)
    pop_numa a read_cost s worker cpu_id = do
      node ← a.node_of cpu_id
      pop_at_node a read_cost worker node s
