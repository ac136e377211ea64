-- ===== src/Sched/Policy/Start.antt =====
-- src/scheduling/: the states in which the policies start.
use mir_dev.Base.{
  if◌then◌else◌, length, All, u32_mod, u64_mod, count, total, ℕ, zero, suc, ◌-◌, ◌^◌, ◌<◌, ◌≡◌,
  refl, ap, ◌∙◌, Bool, true, false, Option, some, List, [], ◌∷◌, arith,
}
use mir_dev.Dequeue as Dequeue
use mir_dev.Dequeue.{Dequeue}
use mir_dev.Dequeue.Inv.{contents, new-IsValid}
use mir_dev.Dequeue.Inv as DequeInv
use mir_dev.Queue.{Queue}
use mir_dev.Queue.Inv as RingInv
use mir_dev.Stack as StackRing
use mir_dev.Stack.{Stack}
use mir_dev.Stack.Refine as StackInv
use mir_dev.TaskQueue as TaskQueue
use mir_dev.TaskQueue.{TaskQueue}
use mir_dev.TaskQueue.Refine.{create-same}
use mir_dev.TaskStack as TaskStack
use mir_dev.Worker.Stats.{Stats}
use mir_dev.Sched.{Container, State}
use mir_dev.Sched.Visit as Visit
use mir_dev.Sched.Fill.{ws_queues, central_queues, central_stacks}
use mir_dev.Sched.WsDe.{DequeState}
use mir_dev.Sched.WsDe.Take as Take
use mir_dev.Sched.NumaPop.Take as NumaTake
use mir_dev.Sched.Policy.{
  create_queues, create_central, create_central_stack, create_ws, create_ws_de, create_ws_de_node,
  create_numa,
}

create_queues_lem :
    {Q : Type 0} (P : Q → Type 0) (make : ℕ → Option Q) (queue_capacity : ℕ) (q : Q) (n : ℕ)
    → make queue_capacity ≡ some q
    → P q
    → (qs : List Q) × (create_queues make queue_capacity n ≡ some qs) × (length qs ≡ n) × All P qs
unfolding create_queues
create_queues_lem P make queue_capacity q zero e p = ([], refl, refl, tt)
create_queues_lem P make queue_capacity q (suc n) e p =
    let (qs, f, len, each) = create_queues_lem P make queue_capacity q n e p in
    (q ∷ qs, rw (e, f) refl, ap suc len, (p, each))

-- Nothing waits yet.
abbrev pub starting : {Q : Type 0} → List Q → List TaskQueue → List Stats → Bool → State Q
starting queues private_queues statistics worker_stats = record {
  queues = queues;
  private_queues = private_queues;
  num_tasks_waiting = 0;
  statistics = statistics;
  worker_stats = worker_stats;
}

total_zero : {A : Type 0} (f : A → ℕ) (xs : List A) → All (λ x. f x ≡ 0) xs → total f xs ≡ 0
total_zero f [] h = refl
total_zero f (x ∷ xs) h = let r = total_zero f xs h.1 in omega (arith, h.0)

All-both :
    {A : Type 0} (P Q R : A → Type 0) (xs : List A)
    → ((x : A) → P x → Q x × R x)
    → All P xs
    → All Q xs × All R xs
All-both P Q R [] f h = (tt, tt)
All-both P Q R (x ∷ xs) f h =
    let (q, r) = f x h.0 in let (qs, rs) = All-both P Q R xs f h.1 in ((q, qs), (r, rs))

-- The private queues, as the workers create them: valid and empty
abbrev pub ArePrivate : List TaskQueue → Type 0
ArePrivate = All (λ q. RingInv.IsValid q × (TaskQueue.size_of q ≡ 0))

abbrev Fresh : {Q : Type 0} → Container Q → Q → Type 0
Fresh c q = c.IsValid q × (c.size_of q ≡ 0)

starting-IsValid :
    {Q : Type 0} (c : Container Q) (qs : List Q) (ps : List TaskQueue) (st : List Stats) (b : Bool)
    → All (Fresh c) qs
    → ArePrivate ps
    → Visit.IsValid c (starting qs ps st b)
starting-IsValid c qs ps st b h k =
    let (valid, sizes) = All-both (Fresh c) c.IsValid (λ q. c.size_of q ≡ 0) qs (λ q f. f) h in
    let (valid', sizes') =
      All-both (λ q. RingInv.IsValid q × (TaskQueue.size_of q ≡ 0)) RingInv.IsValid
        (λ q. TaskQueue.size_of q ≡ 0) ps (λ q f. f) k in
    let z = total_zero c.size_of qs sizes in
    let z' = total_zero TaskQueue.size_of ps sizes' in
    record { each = valid; each_private = valid'; waiting = ground arith }

-- `none` is taken.
abbrev pub starting_deque : List Dequeue → List TaskQueue → List Stats → Bool → DequeState
starting_deque queues ps st b = record { policy = starting queues ps st b; taken = λ x. false }

abbrev FreshDeque : Dequeue → Type 0
FreshDeque q = DequeInv.IsValid q × (contents q ≡ [])

times-none : (x : ℕ) (qs : List Dequeue) → All (λ q. contents q ≡ []) qs → Take.times x qs ≡ 0
times-none x [] h = refl
times-none x (q ∷ qs) h =
    let r = times-none x qs h.1 in
    let z : count x (contents q) ≡ 0 = ap (count x) h.0 in omega arith

held-none : (qs : List Dequeue) → All (λ q. contents q ≡ []) qs → total Take.held_by qs ≡ 0
held-none [] h = refl
held-none (q ∷ qs) h =
    let r = held-none qs h.1 in let z : length (contents q) ≡ 0 = ap length h.0 in omega arith

starting_deque-IsValid :
    (qs : List Dequeue) (ps : List TaskQueue) (st : List Stats) (b : Bool)
    → All FreshDeque qs
    → ArePrivate ps
    → Take.IsValid (starting_deque qs ps st b)
starting_deque-IsValid qs ps st b h k =
    let (valid, empty) =
      All-both FreshDeque DequeInv.IsValid (λ q. contents q ≡ []) qs (λ q f. f) h in
    let (valid', sizes') =
      All-both (λ q. RingInv.IsValid q × (TaskQueue.size_of q ≡ 0)) RingInv.IsValid
        (λ q. TaskQueue.size_of q ≡ 0) ps (λ q f. f) k in
    let z = held-none qs empty in
    let z' = total_zero TaskQueue.size_of ps sizes' in
    record {
      each = valid;
      each_private = valid';
      waiting = ground arith;
      single = λ x. let t = times-none x qs empty in omega arith;
      fresh = λ x taken. times-none x qs empty;
    }

new_queue :
    (queue_capacity : ℕ)
    → 0 < queue_capacity
    → queue_capacity < u32_mod
    → (q : Queue) × (TaskQueue.create queue_capacity ≡ some q) × Fresh central_queues q
new_queue queue_capacity p small =
    let (q, e, v, room, empty) = RingInv.create-IsValid queue_capacity p small in
    let held = central_queues.size-held q v in
    let z = ap length empty in (q, create-same queue_capacity ∙ e, (v, held ∙ z))

new_stack :
    (queue_capacity : ℕ)
    → queue_capacity < u32_mod
    → (q : Stack) × (TaskStack.create queue_capacity ≡ some q) × Fresh central_stacks q
unfolding TaskStack.create StackRing.create central_stacks
new_stack queue_capacity small =
    let (q, e, v, empty) = StackInv.create-IsValid queue_capacity small in
    let held = central_stacks.size-held q v in let z = ap length empty in (q, e, (v, held ∙ z))

new_deque :
    (queue_capacity : ℕ)
    → 0 < queue_capacity
    → queue_capacity < 2 ^ 30
    → (q : Dequeue) × (Dequeue.new queue_capacity ≡ some q) × FreshDeque q
new_deque queue_capacity p small =
    let (q, e, v, empty, room) = new-IsValid queue_capacity p small in (q, e, (v, empty))

-- A policy with these queues starts in a valid state.
abbrev pub Starts :
    {Q : Type 0} → Container Q → Option (List Q) → ℕ → List TaskQueue → List Stats → Bool → Type 0
Starts {Q} c created n ps st b =
    (qs : List Q) × (created ≡ some qs) × (length qs ≡ n) × Visit.IsValid c (starting qs ps st b)

abbrev pub StartsDeque : Option (List Dequeue) → ℕ → List TaskQueue → List Stats → Bool → Type 0
StartsDeque created n ps st b =
    (qs : List Dequeue) × (created ≡ some qs)
    × (length qs ≡ n)
    × Take.IsValid (starting_deque qs ps st b)

abbrev pub StartsNuma :
    Option (List Queue × List Queue) → ℕ → List TaskQueue → List Stats → Bool → Type 0
StartsNuma created n ps st b =
    (qs : List Queue) × (alts : List Queue) × (created ≡ some (qs, alts))
    × (length qs ≡ n)
    × (length alts ≡ n)
    × NumaTake.IsValid central_queues
        (record { policy = starting qs ps st b; alt_queues = alts; comm_cost = λ t. u64_mod - 1 })

starts :
    {Q : Type 0} (c : Container Q) (make : ℕ → Option Q) (queue_capacity n : ℕ) (q : Q)
    (ps : List TaskQueue) (st : List Stats) (b : Bool)
    → make queue_capacity ≡ some q
    → Fresh c q
    → ArePrivate ps
    → Starts c (create_queues make queue_capacity n) n ps st b
starts c make queue_capacity n q ps st b e f k =
    let (qs, made, len, each) = create_queues_lem (Fresh c) make queue_capacity q n e f in
    (qs, made, len, starting-IsValid c qs ps st b each k)

starts_deque :
    (queue_capacity n : ℕ) (ps : List TaskQueue) (st : List Stats) (b : Bool)
    → 0 < queue_capacity
    → queue_capacity < 2 ^ 30
    → ArePrivate ps
    → StartsDeque (create_queues Dequeue.new queue_capacity n) n ps st b
starts_deque queue_capacity n ps st b p small k =
    let (q, e, f) = new_deque queue_capacity p small in
    let (qs, made, len, each) = create_queues_lem FreshDeque Dequeue.new queue_capacity q n e f in
    (qs, made, len, starting_deque-IsValid qs ps st b each k)

either_lane :
    (alt : Bool) (qs : List Queue)
    → All RingInv.IsValid qs
    → All RingInv.IsValid (if alt then qs else qs)
either_lane true qs h = h
either_lane false qs h = h

starts_numa :
    (queue_capacity n : ℕ) (ps : List TaskQueue) (st : List Stats) (b : Bool)
    → 0 < queue_capacity
    → queue_capacity < u32_mod
    → ArePrivate ps
    → StartsNuma (create_numa queue_capacity n) n ps st b
unfolding create_numa
starts_numa queue_capacity n ps st b p small k =
    let (q, e, f) = new_queue queue_capacity p small in
    let (qs, made, len, each) =
      create_queues_lem (Fresh central_queues) TaskQueue.create queue_capacity q n e f in
    let v = starting-IsValid central_queues qs ps st b each k in
    let (valid, sizes) =
      All-both (Fresh central_queues) RingInv.IsValid (λ q. central_queues.size_of q ≡ 0) qs
        (λ q f. f) each in
    let z = total_zero central_queues.size_of qs sizes in
    (
      qs,
      qs,
      rw made refl,
      len,
      len,
      record {
        each = λ alt. either_lane alt qs valid;
        each_private = v.each_private;
        waiting = (let w = v.waiting in omega arith);
      },
    )

-- For a capacity above 0 and below 2^30, and empty private queues, each of the policies creates its
-- queues without an abort, as many as it should, and starts in a valid state: 1 queue or stack for
-- `central` and `central-stack`, a queue or deque for each of `n` workers for `ws`, `ws-de` and
-- `ws-de-node`, and a queue and an alternate queue for each of `n` nodes for `numa`.
pub create-Starts :
    (queue_capacity n : ℕ) (ps : List TaskQueue) (st : List Stats) (b : Bool)
    → 0 < queue_capacity
    → queue_capacity < 2 ^ 30
    → ArePrivate ps
    → Starts central_queues (create_central queue_capacity) 1 ps st b
      × Starts central_stacks (create_central_stack queue_capacity) 1 ps st b
      × Starts ws_queues (create_ws queue_capacity n) n ps st b
      × StartsDeque (create_ws_de queue_capacity n) n ps st b
      × StartsDeque (create_ws_de_node queue_capacity n) n ps st b
      × StartsNuma (create_numa queue_capacity n) n ps st b
unfolding create_central create_central_stack create_ws create_ws_de create_ws_de_node
create-Starts queue_capacity n ps st b p small k =
    let (q, e, f) = new_queue queue_capacity p (omega arith) in
    let (q', e', f') = new_stack queue_capacity (omega arith) in
    (
      starts central_queues TaskQueue.create queue_capacity 1 q ps st b e f k,
      starts central_stacks TaskStack.create queue_capacity 1 q' ps st b e' f' k,
      starts ws_queues TaskQueue.create queue_capacity n q ps st b e f k,
      starts_deque queue_capacity n ps st b p small k,
      starts_deque queue_capacity n ps st b p small k,
      starts_numa queue_capacity n ps st b p (omega arith) k,
    )
