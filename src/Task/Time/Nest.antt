-- ===== src/Task/Time/Nest.antt =====
-- src/mir_task.c: a nested execution, from its prolog to its epilog.
use mir_dev.Base.{
  All, u64_mod, add64, sub64, ℕ, ◌+◌, ◌-◌, ◌≤◌, ◌<◌, ◌≡◌, refl, sym, ap, subst, ◌∙◌, ◌≢◌, Option,
  some, List, [], ◌∷◌, arith,
}
use mir_dev.Task.{State}
use mir_dev.Task.Run.{epilog}
use mir_dev.Task.Context.{Clock, clock_at, before_opt, Chained, Chained-same, stopped, resumed}
use mir_dev.Task.Context.Begin.{Begins}
use mir_dev.Task.Context.End.{Ends, epilog-Ends}
use mir_dev.Task.Time.{Distinct, Rest, Kept, before_some}

pub some-injective : (a b : ℕ) → some a ≡ some b → a ≡ b
some-injective a b e = cc

-- A nested execution: the prolog from `s` to `t`, the task's own run to `u`, the epilog to `v`.
module _ (s t : State) (i stop start : ℕ) (enter : Begins s t i stop start) where
  pub chain_in :
      (stack : List ℕ)
      → All (λ q. q ≢ i) stack
      → Distinct stack
      → Chained (clock_at s) s.current_task stack
      → Chained (clock_at t) t.current_task (i ∷ stack)
  chain_in [] new apart h = (enter.current, s.current_task, rw enter.new_at refl, h)
  chain_in (p ∷ rest) new apart (e, before, at, more) =
      let (c, at_c, is_before) = before_some (clock_at s p) before at in
      let moved = enter.outer p c new.0 e at_c in
      (
        enter.current,
        s.current_task,
        rw enter.new_at refl,
        (
          e,
          before,
          rw moved (ap some is_before),
          Chained-same (clock_at s) (clock_at t) before rest (All-both rest new.1 apart.0 e) more,
        ),
      )
    where
      All-both :
          (xs : List ℕ)
          → All (λ q. q ≢ i) xs
          → All (λ q. q ≢ p) xs
          → s.current_task ≡ some p
          → All (λ q. before_opt (clock_at t q) ≡ before_opt (clock_at s q)) xs
      All-both [] f g e = tt
      All-both (x ∷ xs) f g e = (
        ap before_opt (enter.others x f.0 (λ h. g.0 (some-injective x p (sym h ∙ e)))),
        All-both xs f.1 g.1 e,
      )

module _ (s t u v : State) (i stop start finish resume : ℕ) (enter : Begins s t i stop start)
    (leave : Ends u v i finish resume) where
  chain_out :
      (stack : List ℕ)
      → All (λ q. q ≢ i) stack
      → Distinct stack
      → Chained (clock_at u) leave.ended.before stack
      → Chained (clock_at v) v.current_task stack
  chain_out [] new apart h = leave.current ∙ h
  chain_out (p ∷ rest) new apart (e, before, at, more) =
      let (c, at_c, is_before) = before_some (clock_at u p) before at in
      let moved = leave.outer p c new.0 e at_c in
      (
        leave.current ∙ e,
        before,
        rw moved (ap some is_before),
        Chained-same (clock_at u) (clock_at v) before rest (All-both rest new.1 apart.0) more,
      )
    where
      All-both :
          (xs : List ℕ)
          → All (λ q. q ≢ i) xs
          → All (λ q. q ≢ p) xs
          → All (λ q. before_opt (clock_at v q) ≡ before_opt (clock_at u q)) xs
      All-both [] f g = tt
      All-both (x ∷ xs) f g = (
        ap before_opt (leave.others x f.0 (λ h. g.0 (some-injective x p (sym h ∙ e)))),
        All-both xs f.1 g.1,
      )

  rest_same :
      (p : ℕ) (rest : List ℕ)
      → s.current_task ≡ some p
      → leave.ended.before ≡ some p
      → All (λ q. q ≢ i) rest
      → All (λ q. q ≢ p) rest
      → All (λ q. clock_at u q ≡ clock_at t q) rest
      → All (λ q. clock_at v q ≡ clock_at s q) rest
  rest_same p [] e f new apart h = tt
  rest_same p (x ∷ xs) e f new apart h = (
    leave.others x new.0 (λ g. apart.0 (some-injective x p (sym g ∙ f)))
        ∙ h.0
        ∙ enter.others x new.0 (λ g. apart.0 (some-injective x p (sym g ∙ e))),
    rest_same p xs e f new.1 apart.1 h.1,
  )

  outer_at :
      (p : ℕ) (c : Clock)
      → p ≢ i
      → s.current_task ≡ some p
      → leave.ended.before ≡ some p
      → clock_at u p ≡ clock_at t p
      → clock_at s p ≡ some c
      → clock_at v p ≡ some (resumed resume (stopped stop c))
  outer_at p c new e f same at =
      leave.outer p (stopped stop c) new f (same ∙ enter.outer p c new e at)

not_itself :
    (f : ℕ → Option Clock) (before : Option ℕ) (i : ℕ) (stack : List ℕ)
    → All (λ q. q ≢ i) stack
    → Chained f before stack
    → before ≢ some i
not_itself f before i [] new h e = absurd (ground (arith, sym h ∙ e))
not_itself f before i (p ∷ rest) new h e = new.0 (some-injective p i (sym h.0 ∙ e))

-- What the epilog is for: the task that has run, which the one before it started.
pub leaves :
    (u v : State) (i j ended finish resume : ℕ) (stack : List ℕ)
    → All (λ q. q ≢ i) stack
    → Chained (clock_at u) u.current_task (i ∷ stack)
    → u.current_task ≡ some j
    → epilog u j ended finish resume ≡ some v
    → (l : Ends u v i finish resume) × Chained (clock_at u) l.ended.before stack
leaves u v i j ended finish resume stack new (e, before, at, more) is_j ends =
    let same : j ≡ i = some-injective j i (sym is_j ∙ e) in
    let f : epilog u i ended finish resume ≡ some v =
      subst (λ j. epilog u j ended finish resume ≡ some v) same ends in
    let out : before_opt (clock_at u i) ≢ some (some i) =
      λ g. not_itself (clock_at u) before i stack new more (opened (sym at ∙ g)) in
    let l = epilog-Ends u v i ended finish resume out f in
    let h : before_opt (clock_at u i) ≡ some l.ended.before = rw l.ended_at refl in
    (l, subst (λ b. Chained (clock_at u) b stack) (opened (sym at ∙ h)) more)
  where
    opened : {a b : Option ℕ} → some a ≡ some b → a ≡ b
    opened e = cc

pub nests-Kept :
    (stack : List ℕ) (s t u v w : State) (a b inner away i stop start finish resume : ℕ)
    (enter : Begins s t i stop start) (leave : Ends u v i finish resume)
    → a ≤ stop
    → stop ≤ resume
    → resume ≤ b
    → b < u64_mod
    → All (λ q. q ≢ i) stack
    → Distinct stack
    → Chained (clock_at s) s.current_task stack
    → Chained (clock_at u) leave.ended.before stack
    → All (λ q. clock_at u q ≡ clock_at t q) stack
    → (Chained (clock_at v) v.current_task stack → Kept stack v w resume b away)
    → Kept stack s w a b (away + (resume - stop))
nests-Kept [] s t u v w a b inner away i stop start finish resume enter leave p q r small new apart
      h k same next =
    let (chain, below, head) =
      next (chain_out s t u v i stop start finish resume enter leave [] new apart k) in
    (chain, tt, tt)
nests-Kept (x ∷ rest) s t u v w a b inner away i stop start finish resume enter leave p q r small
      new apart h k same next =
    let (chain, below, timed) =
      next (chain_out s t u v i stop start finish resume enter leave (x ∷ rest) new apart k) in
    (
      chain,
      All-trans rest below (
          rest_same s t u v i stop start finish resume enter leave x rest h.0 k.0 new.1 apart.0
            same.1),
      λ c at since fits.
          let moved =
            outer_at s t u v i stop start finish resume enter leave x c new.0 h.0 k.0 same.0 at in
          let sum : add64 c.cycles (sub64 stop c.since) ≡ c.cycles + (stop - c.since) =
            omega arith in
          let (c', at', since', total') =
            timed (resumed resume (stopped stop c)) moved (omega arith) (omega arith) in
          (c', at', since', omega arith),
    )
  where
    All-trans :
        (xs : List ℕ)
        → All (λ q. clock_at w q ≡ clock_at v q) xs
        → All (λ q. clock_at v q ≡ clock_at s q) xs
        → All (λ q. clock_at w q ≡ clock_at s q) xs
    All-trans [] f g = tt
    All-trans (x ∷ xs) f g = (f.0 ∙ g.0, All-trans xs f.1 g.1)

below_of :
    (s s' : State) (p : ℕ) (rest : List ℕ)
    → Rest s s' (p ∷ rest)
    → All (λ q. clock_at s' q ≡ clock_at s q) rest
below_of s s' p rest h = h
