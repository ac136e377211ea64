-- ===== src/Sched/NumaPush/Tests.antt =====
-- The theorem at a machine with eight nodes and four workers, on the nodes 0, 0, 3 and 1.
use mir_dev.Base.{
  ◌>>=◌, length, get_or, replicate, All, u64_mod, ℕ, zero, suc, ◌-◌, ◌^◌, ◌<◌, ◌≡◌, refl, sym, ap,
  subst, ◌⊎◌, Bool, true, false, Option, none, some, List, [], ◌∷◌, arith,
}
use mir_dev.Arch.Gothmog as G
use mir_dev.Arch.Gothmog.{gothmog}
use mir_dev.MemPol.Dist.{cost_from}
use mir_dev.Queue as Ring
use mir_dev.Queue.{Queue}
use mir_dev.Queue.Inv as Inv
use mir_dev.TaskQueue as TaskQueue
use mir_dev.Sched.Fill.{central_queues}
use mir_dev.Sched.Numa.{least_loop, least_cost_worker}
use mir_dev.Worker.Work.{update_bias}
use mir_dev.Sched.NumaPop.{NumaState, lane}
use mir_dev.Sched.NumaPop.Take.{IsValid}
use mir_dev.Sched.NumaPush.{
  is_data_dist_significant, stat_sum, stat_sd_zero, Choice, choose, note_cost, push_numa,
}
use mir_dev.Sched.NumaPush.Add.{Inlined, Added}
use mir_dev.Sched.NumaPush.Choose.{cost_of, Stays, Goes, push_numa_lem}

abbrev none_in : Queue
none_in = record { buffer = 0 ∷ 0 ∷ []; capacity = 2; size = 0; in_pos = 0; out_pos = 0 }

abbrev start : NumaState Queue
start = record {
  policy = record {
    queues = replicate 8 none_in;
    private_queues = none_in ∷ [];
    num_tasks_waiting = 0;
    statistics = [];
    worker_stats = false;
  };
  alt_queues = replicate 8 none_in;
  comm_cost = λ t. 0;
}

none_in-IsValid : Inv.IsValid none_in
none_in-IsValid = omega arith

All-replicate : {A : Type 0} (P : A → Type 0) (n : ℕ) (a : A) → P a → All P (replicate n a)
All-replicate P zero a p = tt
All-replicate P (suc n) a p = (p, All-replicate P n a p)

start-each : (alt : Bool) → All Inv.IsValid (lane alt start)
start-each true = All-replicate Inv.IsValid 8 none_in none_in-IsValid
start-each false = All-replicate Inv.IsValid 8 none_in none_in-IsValid

start-IsValid : IsValid central_queues start
unfolding Ring.size_of TaskQueue.size_of
start-IsValid = record { each = start-each; each_private = (none_in-IsValid, tt); waiting = refl }

run_now : ℕ → NumaState Queue → Option (NumaState Queue)
run_now task s = some s

abbrev nodes : List ℕ
nodes = 0 ∷ 0 ∷ 3 ∷ 1 ∷ []

-- All data is on node 1.
abbrev on_one : List ℕ
on_one = 0 ∷ 2 ^ 30 ∷ 0 ∷ 0 ∷ 0 ∷ 0 ∷ 0 ∷ 0 ∷ []

small_nodes : (j : ℕ) → get_or nodes j 0 < 8
small_nodes zero = omega arith
small_nodes (suc zero) = omega arith
small_nodes (suc (suc zero)) = omega arith
small_nodes (suc (suc (suc zero))) = omega arith
small_nodes (suc (suc (suc (suc j)))) = omega arith

sized : (d : List ℕ) → some on_one ≡ some d → length d ≡ 8
sized d e = let same : on_one ≡ d = cc in sym (ap length same)

payable_one : (m : ℕ) → cost_of gothmog on_one m < u64_mod - 1
unfolding cost_from G.comm_cost_of
payable_one m = ground arith

payable : (d : List ℕ) (m : ℕ) → some on_one ≡ some d → cost_of gothmog d m < u64_mod - 1
payable d m e =
    let same : on_one ≡ d = cc in
    subst (λ d. cost_of gothmog d m < u64_mod - 1) same (payable_one m)

push_numa_lem_example :
    (choice : Choice) × (Stays gothmog 0 nodes 0 0 (some on_one) choice
      ⊎ Goes gothmog 0 nodes 0 0 (some on_one) choice)
    × (r : Option (NumaState Queue × Bool)) × (push_numa central_queues run_now gothmog nodes 0
          start 0 0 7
          (some on_one)
        ≡ (r >>= λ z. some (z.0, choice.bias, z.1)))
    × (Inlined central_queues run_now
          (note_cost 7 choice.cost start)
          0
          7
          choice.is_alt
          (get_or nodes choice.target 0)
          r
        ⊎ ((s' : NumaState Queue) × (r ≡ some (s', true))
            × Added central_queues
                (note_cost 7 choice.cost start)
                s'
                choice.is_alt
                (get_or nodes choice.target 0)
                7))
push_numa_lem_example =
    push_numa_lem central_queues run_now gothmog nodes 0 start 0 0 7 (some on_one) start-IsValid
      refl refl (omega arith) (omega arith) small_nodes (omega arith) (omega arith) sized payable

-- A gigabyte on node 1 is significant, and worker 3, the only one there, is chosen.
chooses_three :
    choose gothmog 0 nodes false 0 0 (some on_one)
    ≡ some (record { target = 3; is_alt = false; cost = none; bias = 1 })
unfolding choose is_data_dist_significant stat_sum stat_sd_zero least_cost_worker least_loop
    cost_from G.comm_cost_of update_bias
chooses_three = refl
