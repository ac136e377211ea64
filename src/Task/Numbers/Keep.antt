-- ===== src/Task/Numbers/Keep.antt =====
-- src/mir_task.c: what a creation leaves of the tasks' numbers.
use mir_dev.Base.{
  ◌==◌, if◌then◌else◌, length, length-append, u32_mod, add32, nth, update, length-update, nth-lt,
  nth-update_self, nth-append_left, nth-append_last, nth-append_cases, nth-update_cases, ℕ, ◌+◌,
  ◌≤◌, ◌<◌, ◌≡◌, refl, sym, ap, ◌∙◌, inl, inr, true, false, Option, none, some, List, [], ◌∷◌, ◌++◌,
  arith,
}
use mir_dev.Twc as Twc
use mir_dev.Twc.{Twc, link}
use mir_dev.Task.{Task, State, on_task}
use mir_dev.Task.Create.{Request, with_child, add_task, create_common}
use mir_dev.Task.Numbers.{
  same_opt, kin, kins, siblings, Numbered, IsNumbered, total-append, siblings-le, length-kins,
  kins-append, kins-on_task, Numbered-append,
}
use mir_dev.Task.Numbers.New.{IsRequest, IsParent, IsNew, new_task-IsNew}

-- The parent's, or another task's, `num_children` after a creation
counted_children :
    (s : State) (parent : Option ℕ) (cycles p : ℕ) (t : Task)
    → IsNumbered s
    → length s.tasks + 1 < u32_mod
    → nth (on_task parent (with_child cycles) s.tasks) p ≡ some t
    → (t.num_children
        ≡ siblings (some p) (kins s.tasks) + (if same_opt parent (some p) then 1 else 0))
      × (t.ctwc < length s.twcs)
      × (t.twc < length s.twcs)
counted_children s none cycles p t v few e = let (n, c, w) = v.of_task p t e in (omega arith, c, w)
counted_children s (some q) cycles p t v few e =
    elim (nth-update_cases s.tasks q (with_child cycles) p t e) [
      | inr (other, f) ↦
          let (n, c, w) = v.of_task p t f in
          let d : (q == p) ≡ false = ground arith in (rw d (omega arith), c, w)
      | inl (same, u, f, is) ↦
          let (n, c, w) = v.of_task p u f in
          let d : (q == p) ≡ true = ground arith in
          let le = siblings-le (some p) (kins s.tasks) in
          let len = length-kins s.tasks in
          let more = ap (λ (t : Task). t.num_children) is in
          let same_c = ap (λ (t : Task). t.ctwc) is in
          let same_w = ap (λ (t : Task). t.twc) is in (rw d (omega arith), omega arith, omega arith)
    ]

length-on_task :
    (o : Option ℕ) (f : Task → Task) (ts : List Task) → length (on_task o f ts) ≡ length ts
length-on_task none f ts = refl
length-on_task (some i) f ts = length-update ts i f

not_parent :
    (s : State) (parent : Option ℕ) (p : ℕ)
    → IsParent s parent
    → length s.tasks ≤ p
    → same_opt parent (some p) ≡ false
not_parent s none p h le = refl
not_parent s (some q) p h le = ground arith

module _ (s : State) (parent : Option ℕ) (task : Task) (v : IsNumbered s) (has : IsParent s parent)
    (few : length s.tasks + 1 < u32_mod) (new : IsNew s parent task) where
  after : List Task
  after = on_task parent (with_child task.creation_cycles) s.tasks ++ (task ∷ [])

  kins-after : kins after ≡ kins s.tasks ++ (kin task ∷ [])
  unfolding after
  kins-after =
      kins-append (on_task parent (with_child task.creation_cycles) s.tasks) (task ∷ [])
      ∙ ap (λ ks. ks ++ (kin task ∷ [])) (kins-on_task parent s.tasks task.creation_cycles)

  siblings-after :
      (o : Option ℕ)
      → siblings o (kins after) ≡ siblings o (kins s.tasks) + (if same_opt parent o then 1 else 0)
  siblings-after o =
      rw (kins-after, sym new.parent_is)
        (total-append (λ k. if same_opt k.parent o then 1 else 0) (kins s.tasks) (kin task ∷ [])
          ∙ omega arith)

  length-after : length after ≡ length s.tasks + 1
  unfolding after
  length-after =
      length-append (on_task parent (with_child task.creation_cycles) s.tasks) (task ∷ [])
      ∙ ap (λ n. n + 1) (length-on_task parent (with_child task.creation_cycles) s.tasks)

  each_after :
      (waits p : ℕ) (t : Task)
      → waits ≡ length s.twcs + 1
      → nth after p ≡ some t
      → (t.num_children ≡ siblings (some p) (kins after)) × (t.ctwc < waits) × (t.twc < waits)
  unfolding after
  each_after waits p t w e =
      let old = on_task parent (with_child task.creation_cycles) s.tasks in
      let k = siblings-after (some p) in
      elim (nth-append_cases (on_task parent (with_child task.creation_cycles) s.tasks) task p t
        e) [
          | inl f ↦
              let (n, c, l) = counted_children s parent task.creation_cycles p t v few f in
              (n ∙ sym k, omega arith, omega arith)
          | inr (is_last, is_new) ↦
              let len = length-on_task parent (with_child task.creation_cycles) s.tasks in
              let at_end : length s.tasks ≤ p = omega arith in
              let z = v.of_new p at_end in
              let d = not_parent s parent p has at_end in
              let n = ap (λ (t : Task). t.num_children) is_new in
              let c = ap (λ (t : Task). t.ctwc) is_new in
              let l = ap (λ (t : Task). t.twc) is_new in
              let none_yet : siblings (some p) (kins after) ≡ 0 = k ∙ rw (z, d) refl in
              (
                n ∙ new.no_children ∙ sym none_yet,
                omega (arith, new.ctwc_is),
                omega (arith, new.twc_in),
              )
        ]

  runtime_after :
      (n : ℕ)
      → n ≡ elim parent [ none ↦ add32 s.num_children_tasks 1 | some p ↦ s.num_children_tasks ]
      → n ≡ siblings none (kins after)
  runtime_after n e =
      let k = siblings-after none in
      let le = siblings-le none (kins s.tasks) in
      let len = length-kins s.tasks in e ∙ by_parent parent ∙ sym k
    where
      by_parent :
          (o : Option ℕ)
          → (elim o [ none ↦ add32 s.num_children_tasks 1 | some p ↦ s.num_children_tasks ])
            ≡ siblings none (kins s.tasks) + (if same_opt o none then 1 else 0)
      by_parent none =
          let le = siblings-le none (kins s.tasks) in
          let len = length-kins s.tasks in omega (arith, v.of_runtime)
      by_parent (some p) = omega (arith, v.of_runtime)

  Numbered-after : Numbered [] (kins after)
  Numbered-after =
      let le = length-kins s.tasks in
      rw kins-after (
        Numbered-append [] (kins s.tasks) (kin task) v.numbered (omega (arith, new.uid_is))
          (rw new.parent_is (omega (arith, new.child_number_is))))

  waits_after :
      length (update s.twcs task.twc link ++ (Twc.create s.num_workers ∷ [])) ≡ length s.twcs + 1
  waits_after =
      length-append (update s.twcs task.twc link) (Twc.create s.num_workers ∷ [])
      ∙ ap (λ n. n + 1) (length-update s.twcs task.twc link)

  linked_after :
      (w : Twc)
      → nth s.twcs task.twc ≡ some w
      → (nth (add_task s parent task).twcs task.twc ≡ some (link w))
        × (nth (add_task s parent task).twcs task.ctwc ≡ some (Twc.create s.num_workers))
        × (nth (add_task s parent task).tasks (length s.tasks) ≡ some task)
  unfolding add_task
  linked_after w e =
      let old = on_task parent (with_child task.creation_cycles) s.tasks in
      let l : task.ctwc ≡ length (update s.twcs task.twc link) =
        new.ctwc_is ∙ sym (length-update s.twcs task.twc link) in
      let n : length s.tasks ≡ length (on_task parent (with_child task.creation_cycles) s.tasks) =
        sym (length-on_task parent (with_child task.creation_cycles) s.tasks) in
      (
        nth-append_left (update s.twcs task.twc link) (Twc.create s.num_workers ∷ []) task.twc
            (link w) (nth-update_self s.twcs task.twc w link e),
        rw l (nth-append_last (update s.twcs task.twc link) (Twc.create s.num_workers)),
        rw n (nth-append_last (on_task parent (with_child task.creation_cycles) s.tasks) task),
      )

  add_task-IsNumbered : IsNumbered (add_task s parent task)
  unfolding add_task after
  add_task-IsNumbered = record {
    next = (let l = length-after in let e = v.next in omega arith);
    numbered = Numbered-after;
    of_runtime =
        runtime_after
          (elim parent [ none ↦ add32 s.num_children_tasks 1 | some p ↦ s.num_children_tasks ])
          refl;
    of_task = λ p t e.
        each_after (length (update s.twcs task.twc link ++ (Twc.create s.num_workers ∷ []))) p t
          waits_after e;
    of_new = λ p le.
        let l = length-after in
        let far : length s.tasks ≤ p = omega arith in
        siblings-after (some p) ∙ rw (v.of_new p far, not_parent s parent p has far) refl;
    of_waits = (let l = waits_after in omega arith);
  }

-- `mir_task_create_common`, in a numbered state of fewer than 2^32 - 1 tasks, for a function that is
-- not NULL, at most 256 bytes of data, and a name of fewer than 32 characters, does not abort. The new
-- task has the next id, and is one more of its parent's children, or of the runtime's, by number;
-- `num_children` of each task counts its children; the wait counter that the task is linked to counts
-- it, and its own starts at 0. The state stays numbered.
pub create_common-IsNumbered :
    (s : State) (r : Request) (parent : Option ℕ) (start end now : ℕ)
    → IsNumbered s
    → IsRequest r
    → IsParent s parent
    → length s.tasks + 1 < u32_mod
    → (s' : State) × (task : Task) × (w : Twc) × (create_common s r parent start end now
        ≡ some (s', length s.tasks))
      × (nth s'.tasks (length s.tasks) ≡ some task)
      × IsNew s parent task
      × (nth s.twcs task.twc ≡ some w)
      × (nth s'.twcs task.twc ≡ some (link w))
      × (nth s'.twcs task.ctwc ≡ some (Twc.create s.num_workers))
      × IsNumbered s'
unfolding create_common
create_common-IsNumbered s r parent start end now v ok has few =
    let (task, made, new) = new_task-IsNew s r parent start end now v ok has few in
    let (w, at) = nth-lt s.twcs task.twc new.twc_in in
    let (linked, own, there) = linked_after s parent task v has few new w at in
    (
      add_task s parent task,
      task,
      w,
      rw made refl,
      there,
      new,
      at,
      linked,
      own,
      add_task-IsNumbered s parent task v has few new,
    )
