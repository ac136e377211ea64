-- ===== src/Worker/Backoff.antt =====
-- src/mir_worker.c: how long a worker sleeps between its failed looks for work.
use mir_dev.Base.{
  ◌==◌, ==_iff, all_below, all_below_lem, ℕ, zero, suc, ◌+◌, ◌-◌, ◌^◌, min, ◌≡◌, refl, ap, ◌∙◌,
  true, arith, dec_lt,
}
use mir_dev.Worker.Work.{backoff, boff_reset}

-- `backoff_us` after a number of failed looks since the last task
unfoldable pub after : ℕ → ℕ
after zero = boff_reset
after (suc tries) = backoff (after tries)

early : all_below 8 (λ k. after k == 2 ^ k) ≡ true
unfolding all_below after backoff
early = refl

late : (m : ℕ) → after (m + 7) ≡ 128
unfolding after backoff
late zero = refl
late (suc m) = let e : suc m + 7 ≡ suc (m + 7) = omega arith in rw (e, late m) refl

-- The sleep doubles with each failed look since the last task, from 1 microsecond to 128 after
-- seven of them, and stays there.
pub after_doubles : (tries : ℕ) → after tries ≡ 2 ^ min tries 7
after_doubles tries = elim (dec_lt tries 8) [
  | yes few ↦
      let e : min tries 7 ≡ tries = omega arith in
      rw e (
        (==_iff (after tries) (2 ^ tries)).0
          (all_below_lem 8 (λ k. after k == 2 ^ k) tries early few))
  | no many ↦
      let e : min tries 7 ≡ 7 = omega arith in
      let split : tries ≡ tries - 7 + 7 = omega arith in rw e (ap after split ∙ late (tries - 7))
]
