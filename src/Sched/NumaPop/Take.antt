-- ===== src/Sched/NumaPop/Take.antt =====
-- What one look into a queue of the policy `numa` takes.
use mir_dev.Base.{
  leb, ◌==◌, length, set, All, u32_mod, sub32, nth, total, nth-lt, total-set, All-nth, All-set, ℕ,
  suc, ◌+◌, ◌%◌, ◌≤◌, ◌<◌, ◌≡◌, refl, ap, ◌≢◌, inl, inr, Bool, true, false, not, some, List, arith,
  dec_lt,
}
use mir_dev.Queue.Inv as Inv
use mir_dev.TaskQueue as TaskQueue
use mir_dev.Sched.{Container}
use mir_dev.Sched.Round.{Outcome}
use mir_dev.Sched.NumaPop.{NumaState, Ledger, lane, set_lane, told, take_over}

module _ {Q : Type 0} (c : Container Q) where
  abbrev pub num_held : NumaState Q → ℕ
  num_held s =
      total c.size_of s.policy.queues
      + total c.size_of s.alt_queues
      + total TaskQueue.size_of s.policy.private_queues

  -- The queues are valid, and `g_num_tasks_waiting` is what they hold.
  pub record IsValid (s : NumaState Q) : Type 0 where
    pub each : (alt : Bool) → All c.IsValid (lane alt s)
    pub each_private : All Inv.IsValid s.policy.private_queues
    pub waiting : s.policy.num_tasks_waiting ≡ num_held s % u32_mod

  -- The queue at `i` holds at most `limit` tasks.
  abbrev pub AtMost : Bool → ℕ → NumaState Q → ℕ → Type 0
  AtMost alt limit s i = (q : Q) × (nth (lane alt s) i ≡ some q) × (c.size_of q ≤ limit)

  -- `task` leaves one queue, which holds more than `limit`, by the queue's own operation.
  pub record Took (s s' : NumaState Q) (alt : Bool) (limit i task : ℕ) : Type 0 where
    pub valid : IsValid s'
    pub old : Q
    pub rest : Q
    pub at : nth (lane alt s) i ≡ some old
    pub above : limit < c.size_of old
    pub by_take : c.take_out old ≡ some (rest, task)
    pub now : lane alt s' ≡ set (lane alt s) i rest
    pub other_same : lane (not alt) s' ≡ lane (not alt) s
    pub private_same : s'.policy.private_queues ≡ s.policy.private_queues

  -- What is written down is no part of the invariant.
  told_same :
      (tell : Ledger → Ledger) (alt : Bool) (s : NumaState Q) (qs : List Q)
      → let s' = told tell (set_lane alt s qs) in
        (lane alt s' ≡ qs)
        × (lane (not alt) s' ≡ lane (not alt) s)
        × (s'.policy.private_queues ≡ s.policy.private_queues)
        × (s'.policy.num_tasks_waiting ≡ sub32 s.policy.num_tasks_waiting 1)
  unfolding told set_lane
  told_same tell true s qs = (refl, refl, refl, refl)
  told_same tell false s qs = (refl, refl, refl, refl)

  pub both :
      (alt : Bool) (P : List Q → Type 0) (s : NumaState Q)
      → P (lane alt s)
      → P (lane (not alt) s)
      → (b : Bool) → P (lane b s)
  both true P s f g true = f
  both true P s f g false = g
  both false P s f g true = g
  both false P s f g false = f

  pub lanes_total :
      (alt : Bool) (s : NumaState Q)
      → total c.size_of s.policy.queues + total c.size_of s.alt_queues
        ≡ total c.size_of (lane alt s) + total c.size_of (lane (not alt) s)
  lanes_total true s = omega arith
  lanes_total false s = refl

  valid_after :
      (s s' : NumaState Q) (alt : Bool) (i : ℕ) (q q' : Q)
      → IsValid s
      → nth (lane alt s) i ≡ some q
      → c.IsValid q'
      → c.size_of q ≡ suc (c.size_of q')
      → lane alt s' ≡ set (lane alt s) i q'
      → lane (not alt) s' ≡ lane (not alt) s
      → s'.policy.private_queues ≡ s.policy.private_queues
      → s'.policy.num_tasks_waiting ≡ sub32 s.policy.num_tasks_waiting 1
      → IsValid s'
  valid_after s s' alt i q q' v at valid size now other same waits =
      let t = total-set c.size_of (lane alt s) i q q' at in
      let before = lanes_total alt s in
      let after = lanes_total alt s' in
      let one = ap (total c.size_of) now in
      let two = ap (total c.size_of) other in
      let three = ap (total TaskQueue.size_of) same in
      record {
        each =
            both alt (All c.IsValid) s'
              (rw now (All-set c.IsValid (lane alt s) i q' (v.each alt) valid))
              (rw other (v.each (not alt)));
        each_private = rw same v.each_private;
        waiting = omega (arith, v.waiting);
      }

  take_over-least :
      (alt : Bool) (limit : ℕ) (tell : ℕ → Ledger → Ledger) (s : NumaState Q) (i : ℕ) (q : Q)
      → nth (lane alt s) i ≡ some q
      → c.size_of q ≤ limit
      → take_over c alt limit tell s i ≡ some (s, 0)
  unfolding take_over
  take_over-least alt limit tell s i q e z =
      let t : leb (c.size_of q) limit ≡ true = ground arith in rw (e, t) refl

  take_over-more :
      (alt : Bool) (limit : ℕ) (tell : ℕ → Ledger → Ledger) (s : NumaState Q) (i : ℕ) (q q' : Q)
      (task : ℕ)
      → nth (lane alt s) i ≡ some q
      → limit < c.size_of q
      → c.take_out q ≡ some (q', task)
      → task ≢ 0
      → take_over c alt limit tell s i
        ≡ some (told (tell task) (set_lane alt s (set (lane alt s) i q')), task)
  unfolding take_over
  take_over-more alt limit tell s i q q' task e z out is_task =
      let t : leb (c.size_of q) limit ≡ false = ground arith in
      let n : (task == 0) ≡ false = ground arith in rw (e, t, out, n) refl

  -- In a valid state, a look takes a task, or finds at most `limit` of them.
  pub take_over_lem :
      (alt : Bool) (limit : ℕ) (tell : ℕ → Ledger → Ledger) (s : NumaState Q) (i : ℕ)
      → IsValid s
      → i < length (lane alt s)
      → Outcome
          (take_over c alt limit tell s i)
          s
          (AtMost alt limit s i)
          (λ s' task. Took s s' alt limit i task)
  take_over_lem alt limit tell s i v p =
      let (q, at) = nth-lt (lane alt s) i p in
      elim (dec_lt limit (c.size_of q)) [
        | no few ↦
            let z : c.size_of q ≤ limit = omega arith in
            inl (take_over-least alt limit tell s i q at z, (q, at, z))
        | yes many ↦
            let (q', task, out, is_task, valid, more, size) =
              c.take_out_lem q (All-nth c.IsValid (lane alt s) i q (v.each alt) at) (omega arith) in
            let same = told_same (tell task) alt s (set (lane alt s) i q') in
            let s' = told (tell task) (set_lane alt s (set (lane alt s) i q')) in
            inr (
              s',
              task,
              take_over-more alt limit tell s i q q' task at many out is_task,
              is_task,
              record {
                valid = valid_after s s' alt i q q' v at valid size same.0 same.1 same.2 same.3;
                old = q;
                rest = q';
                at = at;
                above = many;
                by_take = out;
                now = same.0;
                other_same = same.1;
                private_same = same.2;
              },
            )
      ]
