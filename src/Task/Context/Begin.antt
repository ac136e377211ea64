-- ===== src/Task/Context/Begin.antt =====
-- src/mir_task.c: what the prolog does to the times of the tasks.
use mir_dev.Base.{
  Option-cases, nth, update, nth-update_self, nth-update_ne, ℕ, ◌≡◌, refl, sym, subst, ◌∙◌, ◌≢◌,
  inl, inr, Option, none, some, List, arith, ℕ_discrete,
}
use mir_dev.Task.{Task, State, on_task, elapsed_execution_time}
use mir_dev.Task.Run.{prolog, stop_clock, begin_task}
use mir_dev.Task.Context.{
  Clock, clock, clock_opt, clock_at, begun, stopped, clock_self, clock_ne, clock_on, clock_on_self,
}

-- What the prolog does to the clocks
abbrev in_prolog : State → ℕ → ℕ → ℕ → State
in_prolog s i stop start = record s {
  tasks =
      update (on_task s.current_task (stop_clock stop) s.tasks) i (begin_task s.current_task start);
  current_task = some i;
}

prolog-is :
    (s s' : State) (i stop start : ℕ)
    → prolog s i stop start ≡ some s'
    → (t : Task) × (nth s.tasks i ≡ some t) × (in_prolog s i stop start ≡ s')
unfolding prolog
prolog-is s s' i stop start e = elim (Option-cases (nth s.tasks i)) [
  | inl none_there ↦
      let h : prolog s i stop start ≡ none = rw none_there refl in absurd (ground arith)
  | inr (t, there) ↦
      let h : prolog s i stop start ≡ some (in_prolog s i stop start) = rw there refl in
      (t, there, cc)
]

stop_clock-clock : (now : ℕ) (t : Task) → clock (stop_clock now t) ≡ stopped now (clock t)
unfolding elapsed_execution_time
stop_clock-clock now t = refl

pub record Begins (s s' : State) (i stop start : ℕ) : Type 0 where
  pub current : s'.current_task ≡ some i
  pub new_at : clock_at s' i ≡ some (begun s.current_task start)
  pub others : (q : ℕ) → q ≢ i → s.current_task ≢ some q → clock_at s' q ≡ clock_at s q
  pub outer :
      (p : ℕ) (c : Clock)
      → p ≢ i
      → s.current_task ≡ some p
      → clock_at s p ≡ some c
      → clock_at s' p ≡ some (stopped stop c)

has_clock :
    (o : Option ℕ) (xs : List Task) (f : Task → Task) (i : ℕ) (t : Task)
    → nth xs i ≡ some t
    → (c : Clock) × (clock_opt (nth (on_task o f xs) i) ≡ some c)
has_clock none xs f i t e = (clock t, rw e refl)
has_clock (some j) xs f i t e = elim (ℕ_discrete i j) [
  | yes same ↦ (clock (f t), rw (sym same, nth-update_self xs i t f e) refl)
  | no other ↦ (clock t, rw (nth-update_ne xs j i f (λ g. other (sym g)), e) refl)
]

in_prolog-Begins :
    (s : State) (i stop start : ℕ) (t : Task)
    → nth s.tasks i ≡ some t
    → Begins s (in_prolog s i stop start) i stop start
in_prolog-Begins s i stop start t e =
    let paused = on_task s.current_task (stop_clock stop) s.tasks in
    let (c, h) = has_clock s.current_task s.tasks (stop_clock stop) i t e in
    record {
      current = refl;
      new_at =
          clock_self (on_task s.current_task (stop_clock stop) s.tasks) i c
            (begin_task s.current_task start) (λ c. begun s.current_task start) (λ t. refl) h;
      others = λ q not_new not_current.
          clock_ne (on_task s.current_task (stop_clock stop) s.tasks) i q
            (begin_task s.current_task start) not_new
          ∙ clock_on s.current_task s.tasks q (stop_clock stop) not_current;
      outer = λ p c not_new is_current at.
          clock_ne (on_task s.current_task (stop_clock stop) s.tasks) i p
            (begin_task s.current_task start) not_new
          ∙ clock_on_self s.current_task s.tasks p c (stop_clock stop) (stopped stop)
              (stop_clock-clock stop) is_current at;
    }

pub prolog-Begins :
    (s s' : State) (i stop start : ℕ) → prolog s i stop start ≡ some s' → Begins s s' i stop start
prolog-Begins s s' i stop start e =
    let (t, there, same) = prolog-is s s' i stop start e in
    subst (λ s'. Begins s s' i stop start) same (in_prolog-Begins s i stop start t there)
