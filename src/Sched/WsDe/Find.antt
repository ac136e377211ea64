-- ===== src/Sched/WsDe/Find.antt =====
-- src/scheduling/mir_sched_pol_ws_de.c: what a worker's round over the deques finds.
use mir_dev.Base.{
  ◌==◌, length, All, u16_mod, count, nth, nth-bound, All-intro, ℕ, zero, suc, ◌+◌, ◌≤◌, ◌<◌, ◌≡◌,
  refl, sym, subst, ◌∙◌, ◌≢◌, ◌⊎◌, inl, inr, Option, some, List, [], ◌∷◌, arith, ℕ_discrete,
}
use mir_dev.Dequeue.{Dequeue}
use mir_dev.Dequeue.Inv.{contents}
use mir_dev.Sched.{search}
use mir_dev.Sched.Round.{slot, visited, pop_from_lem, Outcome, search-hit, search-miss}
use mir_dev.Sched.Conserve.{turn, slot-turn, visited-All}
use mir_dev.Sched.WsDe.{DequeState, visit_deque, pop_ws_de, up_to}
use mir_dev.Sched.WsDe.Take.{IsValid, Took, EmptyAt, visit_deque_lem}

abbrev pub Found : DequeState → Option (DequeState × ℕ) → ℕ → Type 0
Found s r w =
    let n = length s.policy.queues in
    (s' : DequeState) × (task : ℕ) × (k : ℕ) × (r ≡ some (s', task))
    × (task ≢ 0)
    × (k < n)
    × All (EmptyAt s) (visited n w k)
    × Took s s' (slot n w k) (slot n w k == w) task

-- What holds at each position of the whole round holds at each queue.
pub round-All : (P : ℕ → Type 0) (n w i : ℕ) → w < n → All P (visited n w n) → i < n → P i
round-All P n w i own h p =
    let (k, at) = slot-turn n w i own p in subst P at (visited-All P n w (turn n w i) n k h)

nothing_left :
    (s : DequeState)
    → ((i : ℕ) → i < length s.policy.queues → EmptyAt s i)
    → All (λ q. contents q ≡ []) s.policy.queues
nothing_left s h =
    All-intro (λ (q : Dequeue). contents q ≡ []) s.policy.queues
      (λ i q e.
        let (r, at, empty) = h i (nth-bound s.policy.queues i q e) in
        let same : r ≡ q = cc in subst (λ (q : Dequeue). contents q ≡ []) same empty)

-- In a valid state of fewer than 2^16 deques, `pop_ws_de` of a worker with a deque of its own
-- neither aborts nor runs on. Either it returns no task and changes nothing, and every deque is
-- empty; or it takes a task from the first deque of the worker's round that is not empty: the newest
-- task of its own deque, the oldest of another. The task was not taken before and is now, no other
-- flag and no other deque changes, `g_num_tasks_waiting` counts the task no more, and the state stays
-- valid.
pub pop_ws_de_finds :
    (s : DequeState) (w : ℕ)
    → IsValid s
    → w < length s.policy.queues
    → length s.policy.queues < u16_mod
    → ((pop_ws_de s w ≡ some (s, 0)) × All (λ q. contents q ≡ []) s.policy.queues)
      ⊎ Found s (pop_ws_de s w) w
unfolding pop_ws_de
pop_ws_de_finds s w v own small =
    elim (pop_from_lem (λ s i. visit_deque (i == w) s w i) s (EmptyAt s) (length s.policy.queues) w
      (λ s' i task. Took s s' i (i == w) task) own small
      (λ i p. visit_deque_lem (i == w) s w i v p)) [
        | inl (e, seen) ↦ inl (
          e,
          nothing_left s (λ i p. round-All (EmptyAt s) (length s.policy.queues) w i own seen p),
        )
        | inr (s', task, k, e, less, seen, is_task, t) ↦
            inr (s', task, k, e, is_task, less, seen, t)
      ]

pub counted_at : (xs : List ℕ) (i x : ℕ) → nth xs i ≡ some x → 0 < count x xs
counted_at [] i x e = ground arith
counted_at (y ∷ ys) zero x e = let f : y ≡ x = ground arith in ground arith
counted_at (y ∷ ys) (suc i) x e = let r = counted_at ys i x e in omega arith

before :
    (Quiet : ℕ → Type 0) (first d : ℕ)
    → Quiet first
    → ((e : ℕ) → first + 1 ≤ e → e < d → Quiet e)
    → (e : ℕ) → first ≤ e
    → e < d
    → Quiet e
before Quiet first d quiet nearer e p q = elim (ℕ_discrete e first) [
  | yes same ↦ subst Quiet (sym same) quiet
  | no other ↦ nearer e (omega arith) q
]

-- What is found is found at the first of `n` numbers from `first` on where there is something.
abbrev pub Nearest : {S : Type 0} → (ℕ → Type 0) → (ℕ → S → ℕ → Type 0) → ℕ → ℕ → S → ℕ → Type 0
Nearest Quiet Hit first n s' task =
    (d : ℕ) × (first ≤ d)
    × (d < first + n)
    × ((e : ℕ) → first ≤ e → e < d → Quiet e)
    × Hit d s' task

module _ {S : Type 0} (visit_at : S → ℕ → Option (S × ℕ)) (s : S) (Quiet : ℕ → Type 0)
    (Hit : ℕ → S → ℕ → Type 0) where
  pub nearest_lem :
      (first n : ℕ)
      → ((d : ℕ) → Outcome (visit_at s d) s (Quiet d) (Hit d))
      → Outcome
          (search visit_at (up_to first n) s)
          s
          (All Quiet (up_to first n))
          (Nearest Quiet Hit first n)
  unfolding search
  nearest_lem first zero each = inl (refl, tt)
  nearest_lem first (suc n) each = elim (each first) [
    | inr (s', task, e, is_task, hit) ↦ inr (
      s',
      task,
      search-hit visit_at s Quiet first task (up_to (first + 1) n) s' e is_task,
      is_task,
      (first, omega arith, omega arith, (λ e p q. absurd (omega arith)), hit),
    )
    | inl (e, quiet) ↦
        let miss = search-miss visit_at s Quiet first (up_to (first + 1) n) e in
        elim (nearest_lem (first + 1) n each) [
          | inl (f, quiets) ↦ inl (miss ∙ f, (quiet, quiets))
          | inr (s', task, f, is_task, (d, p, q, nearer, hit)) ↦ inr (
            s',
            task,
            miss ∙ f,
            is_task,
            (d, omega arith, omega arith, before Quiet first d quiet nearer, hit),
          )
        ]
  ]
