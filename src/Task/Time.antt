-- ===== src/Task/Time.antt =====
-- src/mir_task.c: what a worker does while it executes a task, and what it keeps.
pub mod Nest
pub mod Elapsed
use mir_dev.Base.{
  ltb, leb, ◌==◌, if◌then◌else◌, ltb→lt, lt→ltb, leb→le, ==_iff, Bool-cases, Option-cases, ◌>>=◌,
  ◌>>◌, assert, length, get_or, set, replicate, length-append, length_zero, length-replicate,
  length-set, get_or-set_self, get_or-set_ne, AllSet, AllSet-snoc, AllSet-init, AllSet-cons, All,
  u16_mod, u32_mod, u64_mod, add16, add32, sub32, add64, sub64, all_below, all_below_lem, count,
  count-append, nth, update, total, length-update, nth-lt, nth-bound, nth-update_self,
  nth-update_ne, nth-update_absent, nth-append_left, nth-append_last, nth-append_cases,
  nth-update_cases, nth-set_self, set_same, nth-set_ne, total-set, total-update, le-total, All-nth,
  All-set, All-intro, ℕ, zero, suc, ◌+◌, ◌-◌, ◌*◌, ◌/◌, ◌%◌, ◌^◌, ◌≤◌, ◌<◌, min, max, ◌≡◌, refl,
  sym, ap, ap₂, subst, ◌∙◌, ◌≢◌, ◌↔◌, ◌⊎◌, inl, inr, Bool, true, false, not, ◌&&◌, ◌||◌, Option,
  none, some, List, [], ◌∷◌, ◌++◌, map, append-nil, append_assoc, arith, dec_lt, ℕ_discrete,
  mod-add-mod, mod-eq_of_lt, mod-eq-sub-mod, add-zero,
}
use mir_dev.Task.{Task, State, elapsed_execution_time}
use mir_dev.Task.Create.{Request, create_common}
use mir_dev.Task.Run.{prolog, epilog}
use mir_dev.Task.Context.{
  Clock, clock, clock_opt, clock_at, before_opt, Chained, Chained-same, stopped, resumed,
}
use mir_dev.Task.Context.Begin.{Begins, prolog-Begins}
use mir_dev.Task.Context.End.{Ends, epilog-Ends}
use mir_dev.Task.Context.Create.{create-clock}

-- What a worker does while the innermost task of a stack is current, from one instant to another: it
-- works, creates tasks, and executes others, none of which is on the stack; `away` is the time that
-- those take, from the stop of the current task to its resumption. The end of the nested one is for
-- the task that is current then, as `mir_task_execute` has it.
pub data Runs : List ℕ → State → State → ℕ → ℕ → ℕ → Type 0 where
  works : {stack : List ℕ} {s : State} {a b : ℕ} → a ≤ b → Runs stack s s a b 0
  creates :
      {stack : List ℕ} {s t u : State} {a b away : ℕ} (r : Request) (start end now task : ℕ)
      → create_common s r s.current_task start end now ≡ some (t, task)
      → Runs stack t u a b away
      → Runs stack s u a b away
  nests :
      {stack : List ℕ} {s t u v w : State} {a b inner away : ℕ}
      (i j stop start ended finish resume : ℕ)
      → a ≤ stop
      → stop ≤ start
      → All (λ q. q ≢ i) stack
      → prolog s i stop start ≡ some t
      → Runs (i ∷ stack) t u start finish inner
      → u.current_task ≡ some j
      → epilog u j ended finish resume ≡ some v
      → finish ≤ resume
      → Runs stack v w resume b away
      → Runs stack s w a b (away + (resume - stop))

pub Runs-forward : (stack : List ℕ) (s s' : State) (a b away : ℕ) → Runs stack s s' a b away → a ≤ b
Runs-forward stack s _ a b _ (works p) = p
Runs-forward stack s s' a b away (creates {t = t} r start end now task e run) =
    Runs-forward stack t s' a b away run
Runs-forward stack s s' a b _
      (nests {t = t} {u} {v} {inner = inner} {away} i j stop start ended finish resume p q new e run
        f g h more) =
    let x = Runs-forward (i ∷ stack) t u start finish inner run in
    let y = Runs-forward stack v s' resume b away more in omega arith

abbrev pub Distinct : List ℕ → Type 0
Distinct [] = Unit {0}
Distinct (p ∷ rest) = All (λ q. q ≢ p) rest × Distinct rest

-- The tasks below the innermost keep their clocks.
abbrev pub Rest : State → State → List ℕ → Type 0
Rest s s' [] = Unit {0}
Rest s s' (p ∷ rest) = All (λ q. clock_at s' q ≡ clock_at s q) rest

-- The innermost task's time grows by what is not spent away.
abbrev pub Timed : State → State → ℕ → ℕ → ℕ → ℕ → Type 0
Timed s s' a b away p =
    (c : Clock)
    → clock_at s p ≡ some c
    → c.since ≤ a
    → c.cycles + (b - c.since) < u64_mod
    → (c' : Clock) × (clock_at s' p ≡ some c')
      × (c'.since ≤ b)
      × (c'.cycles + (b - c'.since) + away ≡ c.cycles + (b - c.since))

abbrev pub Head : State → State → ℕ → ℕ → ℕ → List ℕ → Type 0
Head s s' a b away [] = Unit {0}
Head s s' a b away (p ∷ rest) = Timed s s' a b away p

abbrev pub Kept : List ℕ → State → State → ℕ → ℕ → ℕ → Type 0
Kept stack s s' a b away =
    Chained (clock_at s') s'.current_task stack × Rest s s' stack × Head s s' a b away stack

pub before_some :
    (o : Option Clock) (before : Option ℕ)
    → before_opt o ≡ some before
    → (c : Clock) × (o ≡ some c) × (c.before ≡ before)
before_some none before e = absurd (ground arith)
before_some (some c) before e = (c, refl, cc)

All-map : (P Q : ℕ → Type 0) (xs : List ℕ) → ((x : ℕ) → P x → Q x) → All P xs → All Q xs
All-map P Q [] f h = tt
All-map P Q (x ∷ xs) f h = (f x h.0, All-map P Q xs f h.1)

-- On a chain, every task has a clock.
pub Chained-clocks :
    (f : ℕ → Option Clock) (current : Option ℕ) (stack : List ℕ)
    → Chained f current stack
    → All (λ q. (c : Clock) × (f q ≡ some c)) stack
Chained-clocks f current [] h = tt
Chained-clocks f current (p ∷ rest) (e, before, at, more) =
    let (c, g, same) = before_some (f p) before at in ((c, g), Chained-clocks f before rest more)

pub works-Kept :
    (stack : List ℕ) (s : State) (a b : ℕ)
    → Chained (clock_at s) s.current_task stack
    → a ≤ b
    → Kept stack s s a b 0
works-Kept [] s a b h p = (h, tt, tt)
works-Kept (p ∷ rest) s a b h q = (
  h,
  All-intro (λ q. clock_at s q ≡ clock_at s q) rest (λ i x e. refl),
  λ c at since small. (c, at, omega arith, omega arith),
)

pub creates-Kept :
    (stack : List ℕ) (s t u : State) (a b away : ℕ)
    → ((q : ℕ) (c : Clock) → clock_at s q ≡ some c → clock_at t q ≡ some c)
    → Chained (clock_at s) s.current_task stack
    → Kept stack t u a b away
    → Kept stack s u a b away
creates-Kept [] s t u a b away same h k = k
creates-Kept (p ∷ rest) s t u a b away same h (chain, below, timed) = (
  chain,
  All-zip rest below (Chained-clocks (clock_at s) (h.1) rest h.3),
  λ c at since small. timed c (same p c at) since small,
)
  where
    All-zip :
        (xs : List ℕ)
        → All (λ q. clock_at u q ≡ clock_at t q) xs
        → All (λ q. (c : Clock) × (clock_at s q ≡ some c)) xs
        → All (λ q. clock_at u q ≡ clock_at s q) xs
    All-zip [] f g = tt
    All-zip (x ∷ xs) f ((c, at), g) = (f.0 ∙ same x c at ∙ sym at, All-zip xs f.1 g)
