-- ===== src/Twc.antt =====
-- src/mir_twc.c, and what src/mir_task.c does with a wait counter: a task's children are counted
-- when they are created, and by the worker that has executed them; the task waits for all of them.
pub mod Wait
mod Tests
use mir_dev.Base.{
  ltb, leb, ◌==◌, if◌then◌else◌, ltb→lt, lt→ltb, leb→le, ==_iff, Bool-cases, Option-cases, ◌>>=◌,
  ◌>>◌, assert, length, get_or, set, replicate, length-append, length-replicate, length-set,
  get_or-set_self, get_or-set_ne, AllSet, AllSet-snoc, AllSet-init, AllSet-cons, All, u16_mod,
  u32_mod, u64_mod, add16, add32, sub32, add64, sub64, all_below, all_below_lem, count-append, nth,
  update, total, length-update, nth-lt, nth-bound, nth-set_self, set_same, nth-set_ne, total-set,
  total-update, le-total, All-nth, All-set, All-intro, ℕ, zero, suc, ◌+◌, ◌-◌, ◌*◌, ◌/◌, ◌%◌, ◌^◌,
  ◌≤◌, ◌<◌, min, max, ◌≡◌, refl, sym, ap, ap₂, subst, ◌∙◌, ◌≢◌, ◌↔◌, ◌⊎◌, inl, inr, Bool, true,
  false, not, ◌&&◌, ◌||◌, Option, none, some, List, [], ◌∷◌, ◌++◌, map, append-nil, append_assoc,
  arith, dec_lt, ℕ_discrete, mod-add-mod, mod-eq_of_lt, mod-eq-sub-mod, add-zero,
}

-- `struct mir_twc_t`; `pass_time` is the list of times, the latest first.
pub record Twc : Type 0 where
  pub count : ℕ
  pub num_passes : ℕ
  pub pass_time : List ℕ
  pub count_per_worker : List ℕ

-- `mir_twc_create`. A time of 0 is that of a wait that has not passed.
unfoldable pub create : ℕ → Twc
create num_workers = record {
  count = 0;
  num_passes = 0;
  pass_time = 0 ∷ [];
  count_per_worker = replicate num_workers 0;
}

-- The link from a new task to its parent's counter, in `mir_task_create_common`
unfoldable pub link : Twc → Twc
link t = record t { count = add64 t.count 1 }

-- The update by the worker that has executed the task, in `mir_task_execute_epilog`
unfoldable pub finish : Twc → ℕ → Option Twc
finish t worker = do
  _ ← nth t.count_per_worker worker
  some (record t { count_per_worker = update t.count_per_worker worker (λ v. add32 v 1) })

abbrev pub sum_from : ℕ → List ℕ → ℕ
sum_from sum [] = sum
sum_from sum (v ∷ vs) = sum_from (add64 sum v) vs

-- `mir_twc_reduce`: whether all tasks are executed
unfoldable pub reduce : Twc → Option Bool
reduce t = do
  let sum = sum_from 0 t.count_per_worker
  assert (leb sum t.count)
  some (not (ltb sum t.count))

-- `twc->pass_time->time = …`
abbrev pub stamp : List ℕ → ℕ → List ℕ
stamp [] time = []
stamp (t ∷ times) time = time ∷ times

-- The end of `mir_task_wait_int`, after its loop: `time` is the elapsed execution time of the
-- current task, or there is no current task.
unfoldable pub pass : Twc → Option ℕ → ℕ → Twc
pass t time newval =
    let stamped : List ℕ = elim time [ none ↦ t.pass_time | some now ↦ stamp t.pass_time now ] in
    record {
      count = newval;
      num_passes = add64 t.num_passes 1;
      pass_time = 0 ∷ stamped;
      count_per_worker = map (λ v. 0) t.count_per_worker;
    }
