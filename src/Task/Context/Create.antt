-- ===== src/Task/Context/Create.antt =====
-- src/mir_task.c: what a creation does to the times of the tasks.
use mir_dev.Base.{
  Option-cases, length, nth, update, nth-update_absent, nth-append_left, ℕ, ◌≡◌, refl, sym, ap, ◌∙◌,
  inl, inr, Option, none, some, List, [], ◌∷◌, ◌++◌, arith, ℕ_discrete,
}
use mir_dev.Task.{Task, State, on_task}
use mir_dev.Task.Create.{Request, with_child, new_task, add_task, create_common}
use mir_dev.Task.Context.{Clock, clock, clock_opt, clock_at, clock_self, clock_ne}

-- A creation leaves the clocks of the tasks there are.
pub create-is :
    (s s' : State) (r : Request) (parent : Option ℕ) (start end now i : ℕ)
    → create_common s r parent start end now ≡ some (s', i)
    → (task : Task) × (new_task s r parent start end now ≡ some task)
      × (add_task s parent task ≡ s')
      × (length s.tasks ≡ i)
unfolding create_common
create-is s s' r parent start end now i e =
    elim (Option-cases (new_task s r parent start end now)) [
      | inl none_there ↦
          let h : create_common s r parent start end now ≡ none = rw none_there refl in
          absurd (ground arith)
      | inr (task, made) ↦
          let h : create_common s r parent start end now
              ≡ some (add_task s parent task, length s.tasks) =
            rw made refl in
          (task, made, cc, cc)
    ]

with_child-clock :
    (o : Option ℕ) (xs : List Task) (cycles q : ℕ)
    → clock_opt (nth (on_task o (with_child cycles) xs) q) ≡ clock_opt (nth xs q)
with_child-clock none xs cycles q = refl
with_child-clock (some i) xs cycles q = elim (ℕ_discrete q i) [
  | no other ↦ clock_ne xs i q (with_child cycles) other
  | yes same ↦ elim (Option-cases (nth xs q)) [
    | inl none_there ↦
        let out : nth (update xs i (with_child cycles)) q ≡ none =
          nth-update_absent xs i q (with_child cycles) none_there in
        rw (out, none_there) refl
    | inr (t, there) ↦
        let at : clock_opt (nth xs i) ≡ some (clock t) = rw (sym same, there) refl in
        rw same (clock_self xs i (clock t) (with_child cycles) (λ c. c) (λ t. refl) at ∙ sym at)
  ]
]

clock_append :
    (xs ys : List Task) (q : ℕ) (c : Clock)
    → clock_opt (nth xs q) ≡ some c
    → clock_opt (nth (xs ++ ys) q) ≡ some c
clock_append xs ys q c e = elim (Option-cases (nth xs q)) [
  | inl none_there ↦
      let h : clock_opt (nth xs q) ≡ none = rw none_there refl in absurd (ground arith)
  | inr (t, there) ↦
      let h : clock_opt (nth xs q) ≡ some (clock t) = rw there refl in
      rw (nth-append_left xs ys q t there) (sym h ∙ e)
]

add_task-clock :
    (s : State) (parent : Option ℕ) (task : Task) (q : ℕ) (c : Clock)
    → clock_at s q ≡ some c
    → clock_at (add_task s parent task) q ≡ some c
unfolding add_task
add_task-clock s parent task q c at =
    clock_append (on_task parent (with_child task.creation_cycles) s.tasks) (task ∷ []) q c
      (with_child-clock parent s.tasks task.creation_cycles q ∙ at)

add_task-current :
    (s : State) (parent : Option ℕ) (task : Task)
    → (add_task s parent task).current_task ≡ s.current_task
unfolding add_task
add_task-current s parent task = refl

pub create-clock :
    (s s' : State) (r : Request) (parent : Option ℕ) (start end now i : ℕ)
    → create_common s r parent start end now ≡ some (s', i)
    → (s'.current_task ≡ s.current_task)
      × ((q : ℕ) (c : Clock) → clock_at s q ≡ some c → clock_at s' q ≡ some c)
create-clock s s' r parent start end now i e =
    let (task, made, same, last) = create-is s s' r parent start end now i e in
    (
      ap (λ (s : State). s.current_task) (sym same) ∙ add_task-current s parent task,
      λ q c at. ap (λ (s : State). clock_at s q) (sym same) ∙ add_task-clock s parent task q c at,
    )
