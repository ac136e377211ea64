-- ===== src/Task/Numbers/New.antt =====
-- src/mir_task.c: the numbers of a new task.
use mir_dev.Base.{
  ◌==◌, length, u32_mod, sub64, nth-lt, ℕ, ◌+◌, ◌≤◌, ◌<◌, ◌≡◌, refl, ap, ◌≢◌, false, Option, none,
  some, List, [], ◌∷◌, arith,
}
use mir_dev.Task.{
  Argument, pointed, copied, Task, State, elapsed_execution_time, short_name_len, data_max_size,
  default_name,
}
use mir_dev.Task.Create.{
  made_task, Request, take_argument, take_name, twc_of, children_of, instant_of, new_task,
}
use mir_dev.Task.Numbers.{kins, siblings, IsNumbered, siblings-le, length-kins}

-- What creation asks of its caller
pub record IsRequest (r : Request) : Type 0 where
  pub has_function : r.func ≢ 0
  pub small_data : length r.bytes ≤ data_max_size
  pub short_name : (name : List ℕ) → r.name ≡ some name → length name < short_name_len

abbrev pub IsParent : State → Option ℕ → Type 0
IsParent s none = Unit {0}
IsParent s (some p) = p < length s.tasks

argument_lem :
    (pointer : ℕ) (bytes : List ℕ)
    → length bytes ≤ data_max_size
    → (a : Argument) × (take_argument pointer bytes ≡ some a)
unfolding take_argument
argument_lem pointer [] h = (pointed pointer, refl)
argument_lem pointer (b ∷ bytes) h = (copied (b ∷ bytes), ground arith)

name_lem :
    (o : Option (List ℕ))
    → ((name : List ℕ) → o ≡ some name → length name < short_name_len)
    → (name : List ℕ) × (take_name o ≡ some name)
name_lem none h = (default_name, refl)
name_lem (some name) h = let p = h name refl in (name, ground arith)

-- What the new task is linked to
record Links (s : State) (parent : Option ℕ) (now : ℕ) : Type 0 where
  twc : ℕ
  twc_is : twc_of s parent ≡ some twc
  twc_in : twc < length s.twcs
  instant : ℕ
  instant_is : instant_of s parent now ≡ some instant
  children_is : children_of s parent ≡ some (siblings parent (kins s.tasks))

linkage :
    (s : State) (parent : Option ℕ) (now : ℕ)
    → IsNumbered s
    → IsParent s parent
    → Links s parent now
linkage s none now v p = record {
  twc = 0;
  twc_is = refl;
  twc_in = v.of_waits;
  instant = 0;
  instant_is = refl;
  children_is = ap some v.of_runtime;
}
linkage s (some p) now v h =
    let (t, e) = nth-lt s.tasks p h in
    let (children, ctwc, twc) = v.of_task p t e in
    record {
      twc = t.ctwc;
      twc_is = rw e refl;
      twc_in = ctwc;
      instant = elapsed_execution_time t now;
      instant_is = rw e refl;
      children_is = rw e (ap some children);
    }

-- The fields of a new task that its creation sets
pub record IsNew (s : State) (parent : Option ℕ) (task : Task) : Type 0 where
  pub uid_is : task.uid ≡ length s.tasks + 1
  pub child_number_is : task.child_number ≡ siblings parent (kins s.tasks) + 1
  pub parent_is : task.parent ≡ parent
  pub no_children : task.num_children ≡ 0
  pub twc_in : task.twc < length s.twcs
  pub ctwc_is : task.ctwc ≡ length s.twcs

pub new_task-IsNew :
    (s : State) (r : Request) (parent : Option ℕ) (start end now : ℕ)
    → IsNumbered s
    → IsRequest r
    → IsParent s parent
    → length s.tasks + 1 < u32_mod
    → (task : Task) × (new_task s r parent start end now ≡ some task) × IsNew s parent task
unfolding new_task
new_task-IsNew s r parent start end now v ok p few =
    let (argument, e0) = argument_lem r.pointer r.bytes ok.small_data in
    let (name, e1) = name_lem r.name ok.short_name in
    let l = linkage s parent now v p in
    let (counter, e2) = nth-lt s.twcs l.twc l.twc_in in
    let t : (r.func == 0) ≡ false = ground (arith, ok.has_function) in
    let le = siblings-le parent (kins s.tasks) in
    let len = length-kins s.tasks in
    (
      made_task s r parent (sub64 end start) argument name l.twc (siblings parent (kins s.tasks))
          l.instant,
      rw (t, e0, e1, l.twc_is, e2, l.children_is, l.instant_is) refl,
      record {
        uid_is = v.next;
        child_number_is = omega arith;
        parent_is = refl;
        no_children = refl;
        twc_in = l.twc_in;
        ctwc_is = refl;
      },
    )
