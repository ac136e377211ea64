-- ===== src/Sched/Round.antt =====
-- src/scheduling/mir_sched_pol_ws.c: the round of a worker over the queues.
use mir_dev.Base.{
  ltb, leb, ◌==◌, if◌then◌else◌, All, u16_mod, add16, ℕ, zero, suc, ◌+◌, ◌-◌, ◌≤◌, ◌<◌, ◌≡◌, refl,
  subst, ◌∙◌, ◌≢◌, ◌⊎◌, inl, inr, true, false, ◌&&◌, Option, some, List, [], ◌∷◌, arith, ℕ_discrete,
}
use mir_dev.Sched.{pop_from, search}

-- The queue that worker `w` of `n` visits after `k` others
abbrev pub slot : ℕ → ℕ → ℕ → ℕ
slot n w k = if ltb (w + k) n then w + k else w + k - n

-- The first `k` of them, the latest first
abbrev pub visited : ℕ → ℕ → ℕ → List ℕ
visited n w zero = []
visited n w (suc k) = slot n w k ∷ visited n w k

-- The counter before the wrap
abbrev pos : ℕ → ℕ → ℕ → ℕ
pos n w k = if leb (w + k) n then w + k else w + k - n

slot-lt : (n w k : ℕ) → w < n → k < n → slot n w k < n
slot-lt n w k p q = ground arith

slot-pos : (n w k : ℕ) → w < n → k < n → (if pos n w k == n then 0 else pos n w k) ≡ slot n w k
slot-pos n w k p q = ground arith

goes_on : (n w k : ℕ) → w < n → k < n → ((pos n w k == n) && (w == 0)) ≡ false
goes_on n w k p q = ground arith

pos-suc : (n w k : ℕ) → w < n → k < n → slot n w k + 1 ≡ pos n w (suc k)
pos-suc n w k p q = ground arith

round_over : (n w k : ℕ) → w < n → k < n → slot n w k + 1 ≡ w → suc k ≡ n
round_over n w k p q e = ground arith

round_on : (n w k : ℕ) → w < n → k < n → slot n w k + 1 ≢ w → suc k ≡ n → w ≡ 0
round_on n w k p q e f = ground arith

-- What `visit_at` or a loop over it comes to: nothing is found, and nothing changes; or a task is.
abbrev pub Outcome : {S : Type 0} → Option (S × ℕ) → S → Type 0 → (S → ℕ → Type 0) → Type 0
Outcome {S} r s Quiet Hit =
    ((r ≡ some (s, 0)) × Quiet)
    ⊎ ((s' : S) × (task : ℕ) × (r ≡ some (s', task)) × (task ≢ 0) × Hit s' task)

module _ {S : Type 0} (visit_at : S → ℕ → Option (S × ℕ)) (s : S) (Quiet : ℕ → Type 0) where
  pub search-miss :
      (i : ℕ) (more : List ℕ)
      → visit_at s i ≡ some (s, 0)
      → search visit_at (i ∷ more) s ≡ search visit_at more s
  unfolding search
  search-miss i more e = rw e refl

  pub search-hit :
      (i task : ℕ) (more : List ℕ) (s' : S)
      → visit_at s i ≡ some (s', task)
      → task ≢ 0
      → search visit_at (i ∷ more) s ≡ some (s', task)
  unfolding search
  search-hit i task more s' e is_task = let t : (task == 0) ≡ false = ground arith in rw (e, t) refl

  pub search_lem :
      (Hit : S → ℕ → Type 0) (At : ℕ → Type 0) (is : List ℕ)
      → ((i : ℕ) → At i → Outcome (visit_at s i) s (Quiet i) Hit)
      → All At is
      → Outcome (search visit_at is s) s (All Quiet is) Hit
  unfolding search
  search_lem Hit At [] each at = inl (refl, tt)
  search_lem Hit At (i ∷ more) each at = elim (each i at.0) [
    | inr (s', task, e, is_task, hit) ↦
        inr (s', task, search-hit i task more s' e is_task, is_task, hit)
    | inl (e, quiet) ↦ elim (search_lem Hit At more each at.1) [
      | inr (s', task, f, is_task, hit) ↦ inr (s', task, search-miss i more e ∙ f, is_task, hit)
      | inl (f, quiets) ↦ inl (search-miss i more e ∙ f, (quiet, quiets))
    ]
  ]

  module _ (n w : ℕ) (Hit : S → ℕ → ℕ → Type 0) (own : w < n) (small : n < u16_mod)
      (each : (i : ℕ) → i < n → Outcome (visit_at s i) s (Quiet i) (λ s' task. Hit s' i task)) where
    abbrev pub Hits : Option (S × ℕ) → Type 0
    Hits r =
        (s' : S) × (task : ℕ) × (k : ℕ) × (r ≡ some (s', task))
        × (k < n)
        × All Quiet (visited n w k)
        × (task ≢ 0)
        × Hit s' (slot n w k) task

    abbrev pub Misses : Option (S × ℕ) → Type 0
    Misses r = (r ≡ some (s, 0)) × All Quiet (visited n w n)

    last_step : (fuel : ℕ) → w ≡ 0 → pop_from visit_at n (suc fuel) s w n ≡ some (s, 0)
    unfolding pop_from
    last_step fuel z = rw z (ground arith)

    empty_step :
        (fuel ctr k : ℕ)
        → ctr ≡ pos n w k
        → k < n
        → visit_at s (slot n w k) ≡ some (s, 0)
        → pop_from visit_at n (suc fuel) s w ctr ≡ (
            if slot n w k + 1 == w
            then some (s, 0)
            else pop_from visit_at n fuel s w (slot n w k + 1))
    unfolding pop_from
    empty_step fuel ctr k at_pos p e =
        let low : slot n w k < n = slot-lt n w k own p in
        let next : add16 (slot n w k) 1 ≡ slot n w k + 1 = omega arith in
        rw (at_pos, goes_on n w k own p, slot-pos n w k own p, e, next) refl

    some_step :
        (fuel ctr k task : ℕ) (s' : S)
        → ctr ≡ pos n w k
        → k < n
        → visit_at s (slot n w k) ≡ some (s', task)
        → task ≢ 0
        → pop_from visit_at n (suc fuel) s w ctr ≡ some (s', task)
    unfolding pop_from
    some_step fuel ctr k task s' at_pos p e is_task =
        let t : (task == 0) ≡ false = ground arith in
        rw (at_pos, goes_on n w k own p, slot-pos n w k own p, e, t) refl

    round_step :
        (fuel ctr k : ℕ)
        → k < n
        → pop_from visit_at n (suc fuel) s w ctr ≡ (
            if slot n w k + 1 == w
            then some (s, 0)
            else pop_from visit_at n fuel s w (slot n w k + 1))
        → All Quiet (visited n w (suc k))
        → (slot n w k + 1 ≢ w
            → Misses (pop_from visit_at n fuel s w (slot n w k + 1))
              ⊎ Hits (pop_from visit_at n fuel s w (slot n w k + 1)))
        → Misses (pop_from visit_at n (suc fuel) s w ctr)
          ⊎ Hits (pop_from visit_at n (suc fuel) s w ctr)
    round_step fuel ctr k less step seen again = elim (ℕ_discrete (slot n w k + 1) w) [
      | yes round ↦
          let full = round_over n w k own less round in
          let t : (slot n w k + 1 == w) ≡ true = ground arith in
          inl (step ∙ rw t refl, subst (λ k. All Quiet (visited n w k)) full seen)
      | no on ↦ let t : (slot n w k + 1 == w) ≡ false = ground arith in rw (step, t) (again on)
    ]

    pop_from-cases :
        (fuel ctr k : ℕ)
        → fuel + k ≡ n + 1
        → k ≤ n
        → (k ≡ n → w ≡ 0)
        → ctr ≡ pos n w k
        → All Quiet (visited n w k)
        → Misses (pop_from visit_at n fuel s w ctr) ⊎ Hits (pop_from visit_at n fuel s w ctr)
    pop_from-cases zero ctr k f p last at_pos seen = absurd (omega arith)
    pop_from-cases (suc fuel) ctr k f p last at_pos seen = elim (ℕ_discrete k n) [
      | yes full ↦
          let z = last full in
          let at_end : ctr ≡ n = ground arith in
          inl (rw at_end (last_step fuel z), subst (λ k. All Quiet (visited n w k)) full seen)
      | no more ↦
          let less : k < n = omega arith in
          elim (each (slot n w k) (slot-lt n w k own less)) [
            | inl (e, quiet) ↦
                let step = empty_step fuel ctr k at_pos less e in
                round_step fuel ctr k less step (quiet, seen)
                  (λ on.
                    pop_from-cases fuel (slot n w k + 1) (suc k) (omega arith) (omega arith)
                      (round_on n w k own less on) (pos-suc n w k own less) (quiet, seen))
            | inr (s', task, e, is_task, hit) ↦ inr (
              s',
              task,
              k,
              some_step fuel ctr k task s' at_pos less e is_task,
              less,
              seen,
              is_task,
              hit,
            )
          ]
    ]

    pub pop_from_lem :
        Misses (pop_from visit_at n (n + 1) s w w) ⊎ Hits (pop_from visit_at n (n + 1) s w w)
    pop_from_lem =
        pop_from-cases (n + 1) w 0 (omega arith) (omega arith) (λ e. absurd (omega arith))
          (ground arith) tt
