-- ===== src/Task/Context/End.antt =====
-- src/mir_task.c: what the epilog does to the times of the tasks.
use mir_dev.Base.{
  if◌then◌else◌, Option-cases, set, nth, update, ℕ, ◌≡◌, refl, ap, subst, ◌∙◌, ◌≢◌, inl, inr, none,
  some, List, ◌∷◌, arith,
}
use mir_dev.Twc.{Twc, finish}
use mir_dev.Task.{Task, State, on_task, elapsed_execution_time}
use mir_dev.Task.Run.{epilog, start_clock, end_task}
use mir_dev.Task.Context.{
  Clock, clock, clock_opt, before_opt, clock_at, stopped, resumed, clock_self, clock_ne, clock_on,
  clock_on_self,
}

-- What the epilog does to the clocks
pub record Ends (s s' : State) (i stop resume : ℕ) : Type 0 where
  pub ended : Clock
  pub ended_at : clock_at s i ≡ some ended
  pub current : s'.current_task ≡ ended.before
  pub keeps : before_opt (clock_at s' i) ≡ some ended.before
  pub others : (q : ℕ) → q ≢ i → ended.before ≢ some q → clock_at s' q ≡ clock_at s q
  pub outer :
      (p : ℕ) (c : Clock)
      → p ≢ i
      → ended.before ≡ some p
      → clock_at s p ≡ some c
      → clock_at s' p ≡ some (resumed resume c)

abbrev in_epilog : State → ℕ → ℕ → ℕ → ℕ → Task → ℕ → List Twc → State
in_epilog s i ended stop resume t passes twcs = record s {
  tasks =
      update
        (on_task t.predecessor (start_clock resume)
          (update s.tasks i (end_task s passes ended stop)))
        i (λ t. record t { is_done = 1 });
  twcs = twcs;
  current_task = t.predecessor;
  task_list = if s.task_stats then i ∷ s.task_list else s.task_list;
}

epilog-is :
    (s s' : State) (i ended stop resume : ℕ)
    → epilog s i ended stop resume ≡ some s'
    → (t : Task) × (passes : ℕ) × (twcs : List Twc) × (nth s.tasks i ≡ some t)
      × (in_epilog s i ended stop resume t passes twcs ≡ s')
unfolding epilog
epilog-is s s' i ended stop resume e = elim (Option-cases (nth s.tasks i)) [
  | inl none_there ↦
      let h : epilog s i ended stop resume ≡ none = rw none_there refl in absurd (ground arith)
  | inr (t, there) ↦ elim (Option-cases (nth s.twcs t.twc)) [
    | inl none_there ↦
        let h : epilog s i ended stop resume ≡ none = rw (there, none_there) refl in
        absurd (ground arith)
    | inr (twc, twc_there) ↦ elim (Option-cases (finish twc s.worker)) [
      | inl none_there ↦
          let h : epilog s i ended stop resume ≡ none = rw (there, twc_there, none_there) refl in
          absurd (ground arith)
      | inr (twc', finished) ↦
          let h : epilog s i ended stop resume
              ≡ some (in_epilog s i ended stop resume t twc.num_passes (set s.twcs t.twc twc')) =
            rw (there, twc_there, finished) refl in
          (t, twc.num_passes, set s.twcs t.twc twc', there, cc)
    ]
  ]
]

in_epilog-Ends :
    (s : State) (i ended stop resume : ℕ) (t : Task) (passes : ℕ) (twcs : List Twc)
    → nth s.tasks i ≡ some t
    → t.predecessor ≢ some i
    → Ends s (in_epilog s i ended stop resume t passes twcs) i stop resume
unfolding elapsed_execution_time
in_epilog-Ends s i ended stop resume t passes twcs e apart =
    let f : Task → Task = end_task s passes ended stop in
    let at : clock_opt (nth s.tasks i) ≡ some (clock t) = rw e refl in
    let after : clock_opt (nth (update s.tasks i (end_task s passes ended stop)) i)
        ≡ some (stopped stop (clock t)) =
      clock_self s.tasks i (clock t) (end_task s passes ended stop) (stopped stop) (λ t. refl) at in
    let mid : clock_opt (
          nth
            (on_task t.predecessor (start_clock resume)
              (update s.tasks i (end_task s passes ended stop)))
            i)
        ≡ some (stopped stop (clock t)) =
      clock_on t.predecessor (update s.tasks i (end_task s passes ended stop)) i
        (start_clock resume) apart
      ∙ after in
    record {
      ended = clock t;
      ended_at = at;
      current = refl;
      keeps = ap before_opt (
          clock_self
            (on_task t.predecessor (start_clock resume)
              (update s.tasks i (end_task s passes ended stop)))
            i (stopped stop (clock t)) (λ t. record t { is_done = 1 }) (λ c. c) (λ t. refl) mid);
      others = λ q not_this not_outer.
          clock_ne
            (on_task t.predecessor (start_clock resume)
              (update s.tasks i (end_task s passes ended stop)))
            i q (λ t. record t { is_done = 1 }) not_this
          ∙ clock_on t.predecessor (update s.tasks i (end_task s passes ended stop)) q
              (start_clock resume) not_outer
          ∙ clock_ne s.tasks i q (end_task s passes ended stop) not_this;
      outer = λ p c not_this is_outer at.
          clock_ne
            (on_task t.predecessor (start_clock resume)
              (update s.tasks i (end_task s passes ended stop)))
            i p (λ t. record t { is_done = 1 }) not_this
          ∙ clock_on_self t.predecessor (update s.tasks i (end_task s passes ended stop)) p c
              (start_clock resume) (resumed resume) (λ t. refl) is_outer
              (clock_ne s.tasks i p (end_task s passes ended stop) not_this ∙ at);
    }

pub epilog-Ends :
    (s s' : State) (i ended stop resume : ℕ)
    → before_opt (clock_at s i) ≢ some (some i)
    → epilog s i ended stop resume ≡ some s'
    → Ends s s' i stop resume
epilog-Ends s s' i ended stop resume apart e =
    let (t, passes, twcs, there, same) = epilog-is s s' i ended stop resume e in
    let before : before_opt (clock_at s i) ≡ some t.predecessor = rw there refl in
    subst (λ s'. Ends s s' i stop resume) same
      (in_epilog-Ends s i ended stop resume t passes twcs there (λ h. apart (before ∙ ap some h)))
