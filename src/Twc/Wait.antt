-- ===== src/Twc/Wait.antt =====
-- src/mir_task.c: the wait counters that workers reach, and the test of a wait.
use mir_dev.Base.{
  ◌==◌, Option-cases, length, replicate, length-replicate, u32_mod, u64_mod, add32, add64, nth,
  update, total, length-update, total-update, le-total, ℕ, zero, suc, ◌+◌, ◌<◌, ◌≡◌, refl, sym, ap,
  subst, ◌∙◌, inl, inr, true, Option, none, some, List, [], ◌∷◌, map, arith,
}
use mir_dev.Twc.{Twc, create, link, finish, sum_from, reduce, pass}

-- The wait counters that `num_workers` workers reach, by the number of tasks linked to them that are
-- not executed yet. A task is executed by one worker, once. A wait of a task passes when `reduce`
-- answers 1, and starts again from 0.
pub data Reach (num_workers : ℕ) : Twc → ℕ → Type 0 where
  made : Reach num_workers (create num_workers) 0
  linked : {t : Twc} {left : ℕ} → Reach num_workers t left → Reach num_workers (link t) (suc left)
  finished :
      {t u : Twc} {left : ℕ} (worker : ℕ)
      → Reach num_workers t (suc left)
      → finish t worker ≡ some u
      → Reach num_workers u left
  passed :
      {t : Twc} {left : ℕ} (time : Option ℕ)
      → Reach num_workers t left
      → reduce t ≡ some true
      → Reach num_workers (pass t time 0) left

-- Each link brought the count to less than 2^32, so fewer tasks than that are linked between two waits.
abbrev pub FewLinked : {num_workers : ℕ} {t : Twc} {left : ℕ} → Reach num_workers t left → Type 0
FewLinked made = Unit {0}
FewLinked (linked {t} r) = (t.count + 1 < u32_mod) × FewLinked r
FewLinked (finished worker r e) = FewLinked r
FewLinked (passed time r e) = FewLinked r

abbrev sum : List ℕ → ℕ
sum = total (λ v. v)

pub record Counts (num_workers : ℕ) (t : Twc) (left : ℕ) : Type 0 where
  pub workers : length t.count_per_worker ≡ num_workers
  pub all : t.count ≡ sum t.count_per_worker + left
  pub small : t.count < u32_mod

sum_from-sum : (vs : List ℕ) (s : ℕ) → s + sum vs < u64_mod → sum_from s vs ≡ s + sum vs
sum_from-sum [] s p = omega arith
sum_from-sum (v ∷ vs) s p =
    let e : add64 s v ≡ s + v = omega arith in
    rw e (sum_from-sum vs (s + v) (omega arith) ∙ omega arith)

sum-replicate : (n : ℕ) → sum (replicate n 0) ≡ 0
sum-replicate zero = refl
sum-replicate (suc n) = let r = sum-replicate n in omega arith

map_zero :
    (vs : List ℕ)
    → (sum (map {A = ℕ} {B = ℕ} (λ v. 0) vs) ≡ 0)
      × (length (map {A = ℕ} {B = ℕ} (λ v. 0) vs) ≡ length vs)
map_zero [] = (refl, refl)
map_zero (v ∷ vs) = let (p, q) = map_zero vs in (omega arith, ap suc q)

pub reduce-Counts :
    (num_workers left : ℕ) (t : Twc) → Counts num_workers t left → reduce t ≡ some (left == 0)
unfolding reduce
reduce-Counts num_workers left t v =
    let e = sum_from-sum t.count_per_worker 0 (omega (arith, v.all, v.small)) in
    rw e (ground (arith, v.all))

finish-Counts :
    (num_workers left worker : ℕ) (t u : Twc)
    → Counts num_workers t (suc left)
    → finish t worker ≡ some u
    → Counts num_workers u left
unfolding finish
finish-Counts num_workers left worker t u v e =
    elim (Option-cases (nth t.count_per_worker worker)) [
      | inl none_there ↦
          let f : finish t worker ≡ none = rw none_there refl in absurd (ground (arith, sym e ∙ f))
      | inr (x, at) ↦
          let few = le-total (λ v. v) t.count_per_worker worker x at in
          let more = total-update (λ v. v) t.count_per_worker worker x (λ v. add32 v 1) at in
          let grown : Twc = record t {
            count_per_worker = update t.count_per_worker worker (λ v. add32 v 1);
          } in
          let f : finish t worker ≡ some grown = rw at refl in
          let same : grown ≡ u = cc in
          subst (λ u. Counts num_workers u left) same
            (record {
              workers = length-update t.count_per_worker worker (λ v. add32 v 1) ∙ v.workers;
              all = omega (arith, v.all, v.small);
              small = v.small;
            })
    ]

pub Reach-Counts :
    (num_workers left : ℕ) (t : Twc) (r : Reach num_workers t left)
    → FewLinked r
    → Counts num_workers t left
unfolding create link pass
Reach-Counts num_workers _ _ made few = record {
  workers = length-replicate num_workers 0;
  all = omega (arith, sum-replicate num_workers);
  small = omega arith;
}
Reach-Counts num_workers _ _ (linked {t} {left} r) few =
    let v = Reach-Counts num_workers left t r few.1 in
    let p = few.0 in
    record { workers = v.workers; all = omega (arith, v.all, v.small); small = omega arith }
Reach-Counts num_workers _ _ (finished {t} {u} {left} worker r e) few =
    finish-Counts num_workers left worker t u (Reach-Counts num_workers (suc left) t r few) e
Reach-Counts num_workers _ _ (passed {t} {left} time r e) few =
    let v = Reach-Counts num_workers left t r few in
    let z = reduce-Counts num_workers left t v in
    let all_done : (left == 0) ≡ true = cc in
    let (p, q) = map_zero t.count_per_worker in
    record { workers = q ∙ v.workers; all = ground arith; small = omega arith }

-- For every wait counter that the workers can reach, with any number of linked tasks that are not
-- executed yet, if fewer than 2^32 tasks were ever linked between two waits: `mir_twc_reduce` does not
-- abort, and answers 1 if no linked task is left to execute, and else 0.
pub Reach-reduce :
    (num_workers left : ℕ) (t : Twc) (r : Reach num_workers t left)
    → FewLinked r
    → reduce t ≡ some (left == 0)
Reach-reduce num_workers left t r few =
    reduce-Counts num_workers left t (Reach-Counts num_workers left t r few)
