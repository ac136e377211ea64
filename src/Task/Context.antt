-- ===== src/Task/Context.antt =====
-- src/mir_task.c: the tasks that a worker executes one inside the other, and the fields that their
-- times are computed from.
pub mod Begin
pub mod End
pub mod Create
use mir_dev.Base.{
  ltb, leb, ◌==◌, if◌then◌else◌, ltb→lt, lt→ltb, leb→le, ==_iff, Bool-cases, Option-cases, ◌>>=◌,
  ◌>>◌, assert, length, get_or, set, replicate, length-append, length_zero, length-replicate,
  length-set, get_or-set_self, get_or-set_ne, AllSet, AllSet-snoc, AllSet-init, AllSet-cons, All,
  u16_mod, u32_mod, u64_mod, add16, add32, sub32, add64, sub64, all_below, all_below_lem, count,
  count-append, nth, update, total, length-update, nth-lt, nth-bound, nth-update_self,
  nth-update_ne, nth-update_absent, nth-append_left, nth-append_last, nth-append_cases,
  nth-update_cases, nth-set_self, set_same, nth-set_ne, total-set, total-update, le-total, All-nth,
  All-set, All-intro, ℕ, zero, suc, ◌+◌, ◌-◌, ◌*◌, ◌/◌, ◌%◌, ◌^◌, ◌≤◌, ◌<◌, min, max, ◌≡◌, refl,
  sym, ap, ap₂, subst, ◌∙◌, ◌≢◌, ◌↔◌, ◌⊎◌, inl, inr, Bool, true, false, not, ◌&&◌, ◌||◌, Option,
  none, some, List, [], ◌∷◌, ◌++◌, map, append-nil, append_assoc, arith, dec_lt, ℕ_discrete,
  mod-add-mod, mod-eq_of_lt, mod-eq-sub-mod, add-zero,
}
use mir_dev.Twc.{Twc, finish}
use mir_dev.Task.{Task, State, on_task, elapsed_execution_time}
use mir_dev.Task.Create.{Request, with_child, new_task, add_task, create_common}
use mir_dev.Task.Run.{prolog, epilog, stop_clock, start_clock, begin_task, end_task}

-- The fields of a task that its time is computed from, and the task executed before it
pub record Clock : Type 0 where
  pub cycles : ℕ
  pub since : ℕ
  pub before : Option ℕ

abbrev pub clock : Task → Clock
clock t = record { cycles = t.exec_cycles; since = t.exec_resume_instant; before = t.predecessor }

abbrev pub clock_opt : Option Task → Option Clock
clock_opt none = none
clock_opt (some t) = some (clock t)

abbrev pub before_opt : Option Clock → Option (Option ℕ)
before_opt none = none
before_opt (some c) = some c.before

abbrev pub clock_at : State → ℕ → Option Clock
clock_at s q = clock_opt (nth s.tasks q)

-- The tasks that the worker executes, the innermost first: each was the current task when the one
-- inside it began.
abbrev pub Chained : (ℕ → Option Clock) → Option ℕ → List ℕ → Type 0
Chained at current [] = current ≡ none
Chained at current (p ∷ rest) =
    (current ≡ some p)
    × (before : Option ℕ) × (before_opt (at p) ≡ some before)
    × Chained at before rest

pub Chained-same :
    (f g : ℕ → Option Clock) (current : Option ℕ) (stack : List ℕ)
    → All (λ q. before_opt (g q) ≡ before_opt (f q)) stack
    → Chained f current stack
    → Chained g current stack
Chained-same f g current [] same h = h
Chained-same f g current (p ∷ rest) same (e, before, at, more) =
    (e, before, same.0 ∙ at, Chained-same f g before rest same.1 more)

abbrev pub begun : Option ℕ → ℕ → Clock
begun before start = record { cycles = 0; since = start; before = before }

abbrev pub stopped : ℕ → Clock → Clock
stopped now c = record c { cycles = add64 c.cycles (sub64 now c.since) }

abbrev pub resumed : ℕ → Clock → Clock
resumed now c = record c { since = now }

-- The clocks of a list of tasks, when one task is written
pub clock_self :
    (xs : List Task) (i : ℕ) (c : Clock) (f : Task → Task) (g : Clock → Clock)
    → ((t : Task) → clock (f t) ≡ g (clock t))
    → clock_opt (nth xs i) ≡ some c
    → clock_opt (nth (update xs i f) i) ≡ some (g c)
clock_self xs i c f g same e = elim (Option-cases (nth xs i)) [
  | inl none_there ↦
      let h : clock_opt (nth xs i) ≡ none = rw none_there refl in absurd (ground arith)
  | inr (t, there) ↦
      let h : clock_opt (nth xs i) ≡ some (clock t) = rw there refl in
      let k : clock t ≡ c = cc in rw (nth-update_self xs i t f there) (ap some (same t ∙ ap g k))
]

pub clock_ne :
    (xs : List Task) (i q : ℕ) (f : Task → Task)
    → q ≢ i
    → clock_opt (nth (update xs i f) q) ≡ clock_opt (nth xs q)
clock_ne xs i q f p = rw (nth-update_ne xs i q f (λ e. p (sym e))) refl

pub clock_on :
    (o : Option ℕ) (xs : List Task) (q : ℕ) (f : Task → Task)
    → o ≢ some q
    → clock_opt (nth (on_task o f xs) q) ≡ clock_opt (nth xs q)
clock_on none xs q f p = refl
clock_on (some i) xs q f p = clock_ne xs i q f (λ e. p (ap some (sym e)))

pub clock_on_self :
    (o : Option ℕ) (xs : List Task) (p : ℕ) (c : Clock) (f : Task → Task) (g : Clock → Clock)
    → ((t : Task) → clock (f t) ≡ g (clock t))
    → o ≡ some p
    → clock_opt (nth xs p) ≡ some c
    → clock_opt (nth (on_task o f xs) p) ≡ some (g c)
clock_on_self o xs p c f g same e h = rw e (clock_self xs p c f g same h)
