-- ===== src/Sched/Conserve.antt =====
-- src/scheduling/mir_sched_pol_ws.c: what a worker's round over the queues finds.
use mir_dev.Base.{
  leb, ◌==◌, if◌then◌else◌, length, length_zero, All, u16_mod, nth, nth-lt, nth-bound, All-nth,
  All-intro, ℕ, zero, suc, ◌+◌, ◌-◌, ◌<◌, ◌≡◌, sym, ap, subst, ◌∙◌, ◌⊎◌, inl, inr, Bool, Option,
  some, [], arith, ℕ_discrete,
}
use mir_dev.Sched.{Container, State, visit, pop_ws}
use mir_dev.Sched.Visit.{IsValid, held_of, held_at, Taken, visit_empty, visit_task}
use mir_dev.Sched.Round.{slot, visited, Outcome, pop_from_lem}

pub turn : ℕ → ℕ → ℕ → ℕ
turn n w i = if leb w i then i - w else i + n - w

pub slot-turn : (n w i : ℕ) → w < n → i < n → (turn n w i < n) × (slot n w (turn n w i) ≡ i)
unfolding turn
slot-turn n w i p q = ground arith

pub visited-All : (P : ℕ → Type 0) (n w k m : ℕ) → k < m → All P (visited n w m) → P (slot n w k)
visited-All P n w k zero p h = absurd (omega arith)
visited-All P n w k (suc m) p h = elim (ℕ_discrete k m) [
  | yes e ↦ subst (λ j. P (slot n w j)) (sym e) h.0
  | no e ↦ visited-All P n w k m (omega arith) h.1
]

module _ {Q : Type 0} (c : Container Q) where
  abbrev pub Empty : State Q → ℕ → Type 0
  Empty s i = held_at c s i ≡ []

  abbrev pub Found : State Q → Option (State Q × ℕ) → ℕ → Type 0
  Found s r w =
      (s' : State Q) × (task : ℕ) × (k : ℕ) × (r ≡ some (s', task))
      × (k < length s.queues)
      × All (Empty s) (visited (length s.queues) w k)
      × Taken c s s' (slot (length s.queues) w k) task

  held_at_zero :
      (s : State Q) (i : ℕ) (q : Q)
      → IsValid c s
      → nth s.queues i ≡ some q
      → c.size_of q ≡ 0
      → Empty s i
  held_at_zero s i q v e z =
      let l = c.size-held q (All-nth c.IsValid s.queues i q v.each e) in
      ap (held_of c) e ∙ length_zero (c.held q) (omega arith)

  visit_outcome :
      (s : State Q) (worker i : ℕ) (own : Bool)
      → IsValid c s
      → i < length s.queues
      → Outcome (visit c s worker i own) s (Empty s i) (λ s' task. Taken c s s' i task)
  visit_outcome s worker i own v p =
      let (q, e) = nth-lt s.queues i p in
      elim (ℕ_discrete (c.size_of q) 0) [
        | yes z ↦ inl (visit_empty c s worker i own q e z, held_at_zero s i q v e z)
        | no full ↦
            let (s', task, out, t) = visit_task c s worker i own q v e full in
            inr (s', task, out, t.is_task, t)
      ]

  nothing_left :
      (s : State Q) (w : ℕ)
      → w < length s.queues
      → All (Empty s) (visited (length s.queues) w (length s.queues))
      → All (λ q. c.held q ≡ []) s.queues
  nothing_left s w p h =
      All-intro (λ q. c.held q ≡ []) s.queues
        (λ i q e.
          let (k, at) = slot-turn (length s.queues) w i p (nth-bound s.queues i q e) in
          let z : Empty s i = subst (Empty s) at (
            visited-All (Empty s) (length s.queues) w (turn (length s.queues) w i) (length s.queues)
              k h) in
          sym (ap (held_of c) e) ∙ z)

  -- In a valid state of fewer than 2^16 queues, `pop_ws` of a worker with a queue of its own
  -- neither aborts nor runs on. Either it returns no task and changes nothing, and every queue is
  -- empty; or it takes a task, as the queue's own operation does, from the first queue of the
  -- worker's round that is not empty, no other queue changes, the tasks in the queues are one less
  -- of that task, and the state it leaves is valid.
  pub pop_ws_finds :
      (s : State Q) (w : ℕ)
      → IsValid c s
      → w < length s.queues
      → length s.queues < u16_mod
      → ((pop_ws c s w ≡ some (s, 0)) × All (λ q. c.held q ≡ []) s.queues)
        ⊎ Found s (pop_ws c s w) w
  unfolding pop_ws
  pop_ws_finds s w v own small =
      elim (pop_from_lem (λ s i. visit c s w i (i == w)) s (Empty s) (length s.queues) w
        (λ s' i task. Taken c s s' i task) own small (λ i p. visit_outcome s w i (i == w) v p)) [
          | inl n ↦ inl (n.0, nothing_left s w own n.1)
          | inr (s', task, k, e, less, seen, is_task, t) ↦ inr (s', task, k, e, less, seen, t)
        ]
