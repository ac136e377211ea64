-- ===== src/Task/Numbers.antt =====
-- src/mir_task.c: the numbers that tasks get when they are created.
pub mod New
pub mod Keep
use mir_dev.Base.{
  ltb, leb, ◌==◌, if◌then◌else◌, ltb→lt, lt→ltb, leb→le, ==_iff, Bool-cases, Option-cases, ◌>>=◌,
  ◌>>◌, assert, length, get_or, set, replicate, length-append, length_zero, length-replicate,
  length-set, get_or-set_self, get_or-set_ne, AllSet, AllSet-snoc, AllSet-init, AllSet-cons, All,
  u16_mod, u32_mod, u64_mod, add16, add32, sub32, add64, sub64, all_below, all_below_lem, count,
  count-append, nth, update, total, length-update, nth-lt, nth-bound, nth-update_self,
  nth-update_ne, nth-update_absent, nth-append_left, nth-append_last, nth-append_cases,
  nth-update_cases, nth-set_self, set_same, nth-set_ne, total-set, total-update, le-total, All-nth,
  All-set, All-intro, ℕ, zero, suc, ◌+◌, ◌-◌, ◌*◌, ◌/◌, ◌%◌, ◌^◌, ◌≤◌, ◌<◌, min, max, ◌≡◌, refl,
  sym, ap, ap₂, subst, ◌∙◌, ◌≢◌, ◌↔◌, ◌⊎◌, inl, inr, Bool, true, false, not, ◌&&◌, ◌||◌, Option,
  none, some, List, [], ◌∷◌, ◌++◌, map, append-nil, append_assoc, arith, dec_lt, ℕ_discrete,
  mod-add-mod, mod-eq_of_lt, mod-eq-sub-mod, add-zero,
}
use mir_dev.Twc as Twc
use mir_dev.Twc.{Twc, link}
use mir_dev.Task.{
  Argument, pointed, copied, Task, State, on_task, elapsed_execution_time, short_name_len,
  data_max_size, default_name,
}
use mir_dev.Task.Create.{
  made_task, Request, with_child, take_argument, take_name, twc_of, children_of, instant_of,
  new_task, add_task, create_common,
}

abbrev pub same_opt : Option ℕ → Option ℕ → Bool
same_opt none none = true
same_opt (some p) (some q) = p == q
same_opt _ _ = false

-- The fields that stay as they were at the creation
pub record Kin : Type 0 where
  pub uid : ℕ
  pub child_number : ℕ
  pub parent : Option ℕ

abbrev pub kin : Task → Kin
kin t = record { uid = t.uid; child_number = t.child_number; parent = t.parent }

abbrev pub kins : List Task → List Kin
kins [] = []
kins (t ∷ ts) = kin t ∷ kins ts

-- How many of the tasks have the parent `p`
abbrev pub siblings : Option ℕ → List Kin → ℕ
siblings p ks = total (λ k. if same_opt k.parent p then 1 else 0) ks

-- Each task's id is its place, from 1 on, and its number among its siblings is its place among them.
abbrev pub Numbered : List Kin → List Kin → Type 0
Numbered before [] = Unit {0}
Numbered before (k ∷ ks) =
    (k.uid ≡ length before + 1)
    × (k.child_number ≡ siblings k.parent before + 1)
    × Numbered (before ++ (k ∷ [])) ks

-- Tasks are numbered, `num_children` counts the children, and the wait counters are there.
pub record IsNumbered (s : State) : Type 0 where
  pub next : s.tasks_uidc ≡ length s.tasks + 1
  pub numbered : Numbered [] (kins s.tasks)
  pub of_runtime : s.num_children_tasks ≡ siblings none (kins s.tasks)
  pub of_task :
      (p : ℕ) (t : Task)
      → nth s.tasks p ≡ some t
      → (t.num_children ≡ siblings (some p) (kins s.tasks))
        × (t.ctwc < length s.twcs)
        × (t.twc < length s.twcs)
  pub of_new : (p : ℕ) → length s.tasks ≤ p → siblings (some p) (kins s.tasks) ≡ 0
  pub of_waits : 0 < length s.twcs

pub total-append :
    {A : Type 0} (f : A → ℕ) (xs ys : List A) → total f (xs ++ ys) ≡ total f xs + total f ys
total-append f [] ys = omega arith
total-append f (x ∷ xs) ys = let r = total-append f xs ys in omega arith

pub siblings-le : (p : Option ℕ) (ks : List Kin) → siblings p ks ≤ length ks
siblings-le p [] = omega arith
siblings-le p (k ∷ ks) =
    let r = siblings-le p ks in
    elim (Bool-cases (same_opt k.parent p)) [
      | inl e ↦ rw e (omega arith)
      | inr e ↦ rw e (omega arith)
    ]

pub length-kins : (ts : List Task) → length (kins ts) ≡ length ts
length-kins [] = refl
length-kins (t ∷ ts) = ap suc (length-kins ts)

pub kins-append : (ts us : List Task) → kins (ts ++ us) ≡ kins ts ++ kins us
kins-append [] us = refl
kins-append (t ∷ ts) us = ap (λ ks. kin t ∷ ks) (kins-append ts us)

kins-update :
    (ts : List Task) (i : ℕ) (f : Task → Task)
    → ((t : Task) → kin (f t) ≡ kin t)
    → kins (update ts i f) ≡ kins ts
kins-update [] i f same = refl
kins-update (t ∷ ts) zero f same = ap (λ k. k ∷ kins ts) (same t)
kins-update (t ∷ ts) (suc i) f same = ap (λ ks. kin t ∷ ks) (kins-update ts i f same)

pub kins-on_task :
    (o : Option ℕ) (ts : List Task) (cycles : ℕ) → kins (on_task o (with_child cycles) ts) ≡ kins ts
kins-on_task none ts cycles = refl
kins-on_task (some i) ts cycles = kins-update ts i (with_child cycles) (λ t. refl)

pub Numbered-append :
    (before ks : List Kin) (k : Kin)
    → Numbered before ks
    → k.uid ≡ length before + length ks + 1
    → k.child_number ≡ siblings k.parent before + siblings k.parent ks + 1
    → Numbered before (ks ++ (k ∷ []))
Numbered-append before [] k h e f = (omega arith, omega arith, tt)
Numbered-append before (j ∷ ks) k (a, b, h) e f =
    let l = length-append before (j ∷ []) in
    let t = total-append (λ i. if same_opt i.parent k.parent then 1 else 0) before (j ∷ []) in
    (a, b, Numbered-append (before ++ (j ∷ [])) ks k h (omega arith) (omega arith))
