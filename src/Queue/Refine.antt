-- ===== src/Queue/Refine.antt =====
-- src/mir_queue.c against the bounded FIFO of `Queue.Fifo`.
use mir_dev.Base.{
  ◌>>=◌, length, get_or, set, length-set, AllSet, AllSet-snoc, AllSet-cons, u32_mod, sub32, ℕ, suc,
  ◌+◌, ◌-◌, ◌%◌, ◌<◌, ◌≡◌, refl, sym, ap, ap₂, subst, ◌∙◌, ◌≢◌, Bool, true, false, Option, some,
  List, [], ◌∷◌, ◌++◌, arith, ℕ_discrete,
}
use mir_dev.Queue.{Queue, create, push, pop, advance, is_full, is_empty, store, unload}
use mir_dev.Queue.Fifo
use mir_dev.Queue.Fifo.{Call, pushes, pops, Reply, pushed, popped}
use mir_dev.Queue.Window.{window, window-set, length-window, window-wrap, window-pred}
use mir_dev.Queue.Inv.{create-IsValid, IsValid, contents, advance-wrap}

pub length-contents : (q : Queue) → length (contents q) ≡ q.size
length-contents q = length-window q.buffer q.capacity q.out_pos q.size

pub contents-store :
    {q : Queue} (item : ℕ)
    → IsValid q
    → q.size ≢ q.capacity
    → contents (store q item) ≡ contents q ++ (item ∷ [])
unfolding store
contents-store {q} item v room = rw grow (
    window-set q.buffer q.capacity item q.out_pos q.size q.in_pos v.storage v.in_at v.out_in
      (omega (arith, v.size_in)))
  where
    grow : (q.size + 1) % u32_mod ≡ suc q.size
    grow = omega (arith, v.size_in, v.small)

empty_contents : (q : Queue) → q.size ≡ 0 → contents q ≡ []
empty_contents q e = ap (window q.buffer q.capacity q.out_pos) e

pub store-IsValid :
    {q : Queue} (item : ℕ) → IsValid q → item ≢ 0 → q.size ≢ q.capacity → IsValid (store q item)
unfolding store
store-IsValid {q} item v set room = record {
  storage = v.storage ∙ sym (length-set q.buffer q.in_pos item);
  small = v.small;
  out_in = v.out_in;
  size_in = ground (arith, v);
  in_at = ground (arith, v);
  no_null =
      subst AllSet (sym (contents-store item v room)) (AllSet-snoc (contents q) item v.no_null set);
}

pub contents-unload :
    {q : Queue}
    → IsValid q
    → q.size ≢ 0
    → contents q ≡ get_or q.buffer q.out_pos 0 ∷ contents (unload q)
unfolding unload
contents-unload {q} v full =
    window-pred q.buffer q.capacity q.out_pos q.size full ∙ ap₂ ◌∷◌ (ground (arith, v)) rest
  where
    open v use {out_in, small, size_in}

    size_down : sub32 q.size 1 ≡ q.size - 1
    size_down = omega arith

    rest :
        window q.buffer q.capacity (q.out_pos + 1) (q.size - 1)
        ≡ window q.buffer q.capacity (advance q.out_pos q.capacity) (sub32 q.size 1)
    rest =
        rw (size_down, advance-wrap q.capacity q.out_pos small out_in)
          (window-wrap q.buffer q.capacity (q.out_pos + 1) (q.size - 1) (omega arith) (omega arith))

pub unload-IsValid : {q : Queue} → IsValid q → q.size ≢ 0 → IsValid (unload q)
unfolding unload
unload-IsValid {q} v full = record {
  storage = v.storage;
  small = v.small;
  out_in = ground (arith, v);
  size_in = ground (arith, v);
  in_at = ground (arith, v);
  no_null = (AllSet-cons (contents q) _ _ (contents-unload v full) v.no_null).1;
}

-- `mir_queue_push` never aborts on a valid queue and a pointer that is not NULL. It answers as the
-- bounded FIFO of the queue's contents does, leaves the queue holding what that FIFO holds, and
-- leaves it valid.
pub push_refines :
    (q : Queue) (item : ℕ)
    → IsValid q
    → item ≢ 0
    → (q' : Queue) × (done : Bool) × (push q item ≡ some (q', done))
      × IsValid q'
      × (q'.capacity ≡ q.capacity)
      × ((contents q', done) ≡ Fifo.push q.capacity (contents q) item)
unfolding push is_full
push_refines q item v set = elim (ℕ_discrete q.size q.capacity) [
  | yes full ↦ (q, false, ground arith, v, refl, ground (arith, length-contents q))
  | no room ↦ (
    store q item,
    true,
    ground arith,
    store-IsValid item v set room,
    refl,
    ground (arith, length-contents q, contents-store item v room),
  )
]

-- `mir_queue_pop` never aborts on a valid queue. It answers as the FIFO of the queue's contents
-- does: it leaves `*data` as it was if the queue is empty, and otherwise hands out the oldest item
-- and leaves the others. The queue stays valid.
pub pop_refines :
    (q : Queue) (out : ℕ)
    → IsValid q
    → (q' : Queue) × (item : ℕ) × (pop q out ≡ some (q', item))
      × IsValid q'
      × (q'.capacity ≡ q.capacity)
      × ((contents q', item) ≡ Fifo.pop (contents q) out)
unfolding pop is_empty
pop_refines q out v = elim (ℕ_discrete q.size 0) [
  | yes empty ↦ (q, out, ground arith, v, refl, ground (arith, empty_contents q empty))
  | no full ↦ (
    unload q,
    get_or q.buffer q.out_pos 0,
    ground (arith, AllSet-cons (contents q) _ _ (contents-unload v full) v.no_null),
    unload-IsValid v full,
    refl,
    rw (contents-unload v full) refl,
  )
]

-- a client's calls in order, with what each returns
unfoldable pub run : Queue → List Call → Option (List Reply)
run q [] = some []
run q (pushes item ∷ calls) = do
  (q', done) ← push q item
  rest ← run q' calls
  some (pushed done ∷ rest)
run q (pops out ∷ calls) = do (q', item) ← pop q out; rest ← run q' calls; some (popped item ∷ rest)

-- No call pushes NULL.
abbrev pub NoNullPush : List Call → Type 0
NoNullPush [] = Unit {0}
NoNullPush (pushes item ∷ calls) = (item ≢ 0) × NoNullPush calls
NoNullPush (pops out ∷ calls) = NoNullPush calls

run_valid :
    (calls : List Call) (q : Queue)
    → IsValid q
    → NoNullPush calls
    → run q calls ≡ some (Fifo.run q.capacity (contents q) calls)
unfolding run Fifo.run
run_valid [] q v h = refl
run_valid (pushes item ∷ calls) q v h =
    let (q', done, e, v', c, r) = push_refines q item v h.0 in
    rw e (rw (run_valid calls q' v' h.1, ← r, c))
run_valid (pops out ∷ calls) q v h =
    let (q', item, e, v', c, r) = pop_refines q out v in rw e (rw (run_valid calls q' v' h, ← r, c))

-- From `mir_queue_create` on, with a capacity that is not 0 and fits 32 bits, no sequence of
-- pushes of pointers and pops aborts, and each call answers as on a bounded FIFO that starts empty.
pub run-create :
    (capacity : ℕ) (calls : List Call)
    → 0 < capacity
    → capacity < u32_mod
    → NoNullPush calls
    → (q : Queue) × (create capacity ≡ some q) × (run q calls ≡ some (Fifo.run capacity [] calls))
run-create capacity calls p small h =
    let (q, e, v, c, none_yet) = create-IsValid capacity p small in
    (q, e, run_valid calls q v h ∙ ap₂ (λ room items. some (Fifo.run room items calls)) c none_yet)
