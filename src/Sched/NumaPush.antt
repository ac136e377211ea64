-- ===== src/Sched/NumaPush.antt =====
-- src/scheduling/mir_sched_pol_numa.c: `push_numa`, to the node from which the task's data costs least.
pub mod Choose
pub mod Add
mod Tests
use mir_dev.Base.{
  ltb, leb, ◌==◌, if◌then◌else◌, ltb→lt, lt→ltb, leb→le, ==_iff, Bool-cases, Option-cases, ◌>>=◌,
  ◌>>◌, assert, length, get_or, set, replicate, length-append, length_zero, length-replicate,
  length-set, get_or-set_self, get_or-set_ne, AllSet, AllSet-snoc, AllSet-init, AllSet-cons, All,
  u16_mod, u32_mod, u64_mod, add16, add32, sub32, add64, sub64, all_below, all_below_lem, count,
  count-append, nth, update, total, length-update, nth-lt, nth-bound, nth-update_self,
  nth-update_ne, nth-update_absent, nth-append_left, nth-append_last, nth-append_cases,
  nth-update_cases, nth-set_self, set_same, nth-set_ne, total-set, total-update, le-total, All-nth,
  All-set, All-intro, ℕ, zero, suc, ◌+◌, ◌-◌, ◌*◌, ◌/◌, ◌%◌, ◌^◌, ◌≤◌, ◌<◌, min, max, ◌≡◌, refl,
  sym, ap, ap₂, subst, ◌∙◌, ◌≢◌, ◌↔◌, ◌⊎◌, inl, inr, Bool, true, false, not, ◌&&◌, ◌||◌, Option,
  none, some, List, [], ◌∷◌, ◌++◌, map, append-nil, append_assoc, arith, dec_lt, ℕ_discrete,
  mod-add-mod, mod-eq_of_lt, mod-eq-sub-mod, add-zero,
}
use mir_dev.Arch.{Arch}
use mir_dev.MemPol.Dist.{get_comm_cost, cost_from}
use mir_dev.Worker.Stats.{count_created, count_inlined}
use mir_dev.Worker.Work.{update_bias}
use mir_dev.Sched.{Container, counted}
use mir_dev.Sched.Numa.{least_cost_worker}
use mir_dev.Sched.NumaPop.{NumaState, lane, set_lane}

-- `mir_mem_node_dist_get_stat`: the sum, and whether `sd` is 0. Only the last difference from the mean
-- is kept, and a difference of integers below 2^53 is exact as a `double`.
abbrev sum_of : ℕ → List ℕ → ℕ
sum_of sum [] = sum
sum_of sum (v ∷ vs) = sum_of (add64 sum v) vs

abbrev last_of : ℕ → List ℕ → ℕ
last_of v [] = v
last_of v (w ∷ vs) = last_of w vs

unfoldable pub stat_sum : List ℕ → ℕ
stat_sum dist = sum_of 0 dist

unfoldable pub stat_sd_zero : List ℕ → Bool
stat_sd_zero dist = last_of 0 dist == stat_sum dist / length dist

-- `footprint_config` is `g_numa_schedule_footprint_config`.
unfoldable pub is_data_dist_significant : Arch → ℕ → List ℕ → Bool
is_data_dist_significant a footprint_config dist =
    let default_limit = a.llc_size_kb * 1024 / (a.num_cores / a.num_nodes) in
    let limit = if ltb 0 footprint_config then footprint_config else default_limit in
    if ltb (stat_sum dist) limit then false else not (stat_sd_zero dist)

-- Where a task is pushed: a worker, whether to the alternate queue of that worker's node, the cost of
-- its data from there, if it was computed, and the pushing worker's bias after that
pub record Choice : Type 0 where
  pub target : ℕ
  pub is_alt : Bool
  pub cost : Option ℕ
  pub bias : ℕ

unfoldable pub own_cost : Arch → List ℕ → ℕ → List ℕ → Option (Option ℕ)
own_cost a nodes worker dist = do
  node ← nth nodes worker
  cost ← get_comm_cost a.comm_cost_of dist node
  some (some cost)

module _ (a : Arch) (footprint_config : ℕ) (nodes : List ℕ) (worker_stats : Bool) where
  -- `nodes` are the nodes of the workers' cores, and `dist` is the distribution of what the task reads.
  unfoldable pub choose : ℕ → ℕ → Option (List ℕ) → Option Choice
  choose worker bias none =
      some (record { target = worker; is_alt = true; cost = none; bias = bias })
  choose worker bias (some dist) =
      if not (is_data_dist_significant a footprint_config dist)
      then (do
        cost ← if worker_stats then own_cost a nodes worker dist else some none
        some (record { target = worker; is_alt = true; cost = cost; bias = bias }))
      else (do
        (who, cost) ←
            least_cost_worker nodes (λ m. cost_from a.comm_cost_of m dist 0 0) a.num_nodes bias
        target ← who
        some (record {
          target = target;
          is_alt = false;
          cost = if worker_stats then some cost else none;
          bias = update_bias bias (length nodes);
        }))

-- `task->comm_cost = …`
abbrev pub note_cost : {Q : Type 0} → ℕ → Option ℕ → NumaState Q → NumaState Q
note_cost task none s = s
note_cost task (some cost) s = record s {
  comm_cost = λ t. if t == task then cost else s.comm_cost t;
}

module _ {Q : Type 0} (c : Container Q) (execute : ℕ → NumaState Q → Option (NumaState Q)) where
  -- The push, once the queue is chosen; `execute` is `mir_task_execute`.
  unfoldable pub push_at : NumaState Q → ℕ → ℕ → Bool → ℕ → Option (NumaState Q × Bool)
  push_at s worker task alt node = do
    queue ← nth (lane alt s) node
    (queue', pushed) ← c.enqueue queue task
    let s' = set_lane alt s (set (lane alt s) node queue')
    if pushed
        then some (
          record s' {
            policy =
                counted count_created worker
                  (record s'.policy { num_tasks_waiting = add32 s'.policy.num_tasks_waiting 1 });
          },
          true,
        )
        else (do
          s'' ← execute task s'
          some (record s'' { policy = counted count_inlined worker s''.policy }, false))

  -- The new state, the worker's new bias, and whether the task was pushed
  unfoldable pub push_numa :
      Arch
      → List ℕ
      → ℕ
      → NumaState Q
      → ℕ
      → ℕ
      → ℕ
      → Option (List ℕ)
      → Option (NumaState Q × ℕ × Bool)
  push_numa a nodes footprint_config s worker bias task dist = do
    assert (not (task == 0))
    choice ← choose a footprint_config nodes s.policy.worker_stats worker bias dist
    node ← nth nodes choice.target
    (s', pushed) ← push_at (note_cost task choice.cost s) worker task choice.is_alt node
    some (s', choice.bias, pushed)
