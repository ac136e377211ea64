-- ===== src/Task/Time/Elapsed.antt =====
-- src/mir_task.c: the time of a task that executes others inside it.
use mir_dev.Base.{
  All, u64_mod, nth, ℕ, ◌+◌, ◌-◌, ◌≤◌, ◌<◌, ◌≡◌, refl, sym, ap, ◌∙◌, Option, none, some, List, [],
  ◌∷◌, arith,
}
use mir_dev.Task.{Task, State, elapsed_execution_time}
use mir_dev.Task.Context.{Clock, clock, clock_opt, clock_at, before_opt, Chained, Chained-same}
use mir_dev.Task.Context.Begin.{prolog-Begins}
use mir_dev.Task.Context.Create.{create-clock}
use mir_dev.Task.Time.{
  Runs, works, creates, nests, Runs-forward, Distinct, Kept, Chained-clocks, works-Kept,
  creates-Kept,
}
use mir_dev.Task.Time.Nest.{chain_in, leaves, nests-Kept}

Runs-Kept :
    (stack : List ℕ) (s s' : State) (a b away : ℕ)
    → Runs stack s s' a b away
    → b < u64_mod
    → Distinct stack
    → Chained (clock_at s) s.current_task stack
    → Kept stack s s' a b away
Runs-Kept stack s _ a b _ (works p) small apart h = works-Kept stack s a b h p
Runs-Kept stack s s' a b away (creates {t = t} r start end now task e run) small apart h =
    let (current, same) = create-clock s t r s.current_task start end now task e in
    creates-Kept stack s t s' a b away same h (
      Runs-Kept stack t s' a b away run small apart (
        rw current (
          Chained-same (clock_at s) (clock_at t) s.current_task stack
            (kept_before stack (Chained-clocks (clock_at s) s.current_task stack h)) h)))
  where
    kept_before :
        (xs : List ℕ)
        → All (λ q. (c : Clock) × (clock_at s q ≡ some c)) xs
        → All (λ q. before_opt (clock_at t q) ≡ before_opt (clock_at s q)) xs
    kept_before [] f = tt
    kept_before (x ∷ xs) ((c, at), f) = (
      ap before_opt ((create-clock s t r s.current_task start end now task e).1 x c at ∙ sym at),
      kept_before xs f,
    )
Runs-Kept stack s s' a b _
      (nests {t = t} {u} {v} {inner = inner} {away} i j stop start ended finish resume p q new e run
        f g r more)
      small apart h =
    let enter = prolog-Begins s t i stop start e in
    let x = Runs-forward (i ∷ stack) t u start finish inner run in
    let y = Runs-forward stack v s' resume b away more in
    let (chain, below, head) =
      Runs-Kept (i ∷ stack) t u start finish inner run (omega arith) (new, apart)
        (chain_in s t i stop start enter stack new apart h) in
    let (leave, k) = leaves u v i j ended finish resume stack new chain f g in
    nests-Kept stack s t u v s' a b inner away i stop start finish resume enter leave p
      (omega arith) y small new apart h k below
      (λ c. Runs-Kept stack v s' resume b away more small apart c)

task_of :
    (o : Option Task) (c : Clock) → clock_opt o ≡ some c → (t : Task) × (o ≡ some t) × (clock t ≡ c)
task_of none c e = absurd (ground arith)
task_of (some t) c e = (t, refl, cc)

-- A worker executes `p`, inside the tasks of `rest`, and from one instant to another works, creates
-- tasks and executes others inside it, as deeply nested as may be. Then `p` is its current task again,
-- and those of `rest` are the ones before it, with their times as they were; and the elapsed execution
-- time of `p` is what it would be without the nested executions, less the time between their stops and
-- resumptions. The instants are in order, and no counter of 64 bits overflows.
pub Runs-elapsed :
    (p : ℕ) (rest : List ℕ) (s s' : State) (a b away : ℕ) (t : Task)
    → Runs (p ∷ rest) s s' a b away
    → Distinct (p ∷ rest)
    → Chained (clock_at s) s.current_task (p ∷ rest)
    → nth s.tasks p ≡ some t
    → t.exec_resume_instant ≤ a
    → t.exec_cycles + (b - t.exec_resume_instant) < u64_mod
    → b < u64_mod
    → (t' : Task) × (nth s'.tasks p ≡ some t')
      × (elapsed_execution_time t' b + away ≡ elapsed_execution_time t b)
      × Chained (clock_at s') s'.current_task (p ∷ rest)
      × All (λ q. clock_at s' q ≡ clock_at s q) rest
unfolding elapsed_execution_time
Runs-elapsed p rest s s' a b away t run apart h at since fits small =
    let (chain, below, timed) = Runs-Kept (p ∷ rest) s s' a b away run small apart h in
    let forward = Runs-forward (p ∷ rest) s s' a b away run in
    let (c', at', since', total') = timed (clock t) (rw at refl) since fits in
    let (t', there, same) = task_of (nth s'.tasks p) c' at' in
    let cycles' = ap (λ (c : Clock). c.cycles) same in
    let resume' = ap (λ (c : Clock). c.since) same in (t', there, omega arith, chain, below)
