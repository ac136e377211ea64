-- ===== src/Queue/TwoLock/Steps.antt =====
-- The single accesses of a push and a pop, against the calls of the FIFO.
use mir_dev.Base.{
  length, get_or, set, length-set, get_or-set_self, get_or-set_ne, u32_mod, add32, sub32, ℕ, suc,
  ◌+◌, ◌-◌, ◌≤◌, ◌<◌, ◌≡◌, refl, sym, ap, ap₂, ◌∙◌, ◌≢◌, [], ◌∷◌, ◌++◌, arith,
}
use mir_dev.Queue.{Queue, advance}
use mir_dev.Queue.Window.{
  wrap, window, window-set_ne, length-window, window-wrap, window-pred, window-snoc,
}
use mir_dev.Queue.Inv.{advance-wrap, advance-lt}
use mir_dev.Queue.TwoLock.{
  PushPc, push_idle, push_room, push_written, push_moved, PopPc, pop_idle, pop_some, pop_read,
  pop_taken, State, Event, Step, see_full, see_room, write, move_in, grow, see_empty, see_some,
  read, shrink, move_out, first_of, holds, PushInv, PopInv, Inv, Effect,
}

oldest-lt :
    (capacity out : ℕ) (d : PopPc)
    → capacity < u32_mod
    → out < capacity
    → first_of capacity out d < capacity
oldest-lt capacity out pop_idle p q = q
oldest-lt capacity out pop_some p q = q
oldest-lt capacity out (pop_read item) p q = q
oldest-lt capacity out (pop_taken item) p q = advance-lt capacity out p q

-- The steps of a push, at the position `first` of the oldest item.
module _ (room first size : ℕ) (small : room < u32_mod) (first_in : first < room)
    (size_in : size < room) where
  step_in : advance (wrap room (first + size)) room ≡ wrap room (first + size + 1)
  step_in = ground arith

  step_size : add32 size 1 ≡ suc size
  step_size = omega arith

  end_in : wrap room (first + size) < room
  end_in = ground arith

PopInv-write :
    (q : Queue) (d : PopPc) (item : ℕ)
    → q.capacity < u32_mod
    → q.out_pos < q.capacity
    → q.size < q.capacity
    → q.in_pos ≡ wrap q.capacity (first_of q.capacity q.out_pos d + q.size)
    → PopInv q d
    → PopInv (record q { buffer = set q.buffer q.in_pos item }) d
PopInv-write q pop_idle item small out_in size_in e h = tt
PopInv-write q pop_some item small out_in size_in e h = h
PopInv-write q (pop_read old) item small out_in size_in e h =
    (h.0, get_or-set_ne q.buffer q.in_pos q.out_pos item 0 (ground arith) ∙ h.1)
PopInv-write q (pop_taken old) item small out_in size_in e h = tt

PopInv-grow :
    (q : Queue) (d : PopPc)
    → q.capacity < u32_mod
    → q.size < q.capacity
    → PopInv q d
    → PopInv (record q { size = add32 q.size 1 }) d
PopInv-grow q pop_idle small size_in h = tt
PopInv-grow q pop_some small size_in h = ground arith
PopInv-grow q (pop_read old) small size_in h = (ground arith, h.1)
PopInv-grow q (pop_taken old) small size_in h = tt

PushInv-shrink :
    (q : Queue) (e : PushPc)
    → q.capacity < u32_mod
    → q.out_pos < q.capacity
    → q.size ≤ q.capacity
    → q.size ≢ 0
    → PushInv q q.out_pos e
    → PushInv (record q { size = sub32 q.size 1 }) (advance q.out_pos q.capacity) e
PushInv-shrink q push_idle small out_in size_in full h = ground arith
PushInv-shrink q (push_room item) small out_in size_in full h = ground arith
PushInv-shrink q (push_written item) small out_in size_in full h = ground arith
PushInv-shrink q (push_moved item) small out_in size_in full h = ground arith

-- `in_pos` as `first` and `size` see it, when the buffer is written
PushInv-write :
    (q : Queue) (first item : ℕ)
    → q.capacity ≡ length q.buffer
    → first < q.capacity
    → PushInv q first (push_room item)
    → PushInv (record q { buffer = set q.buffer q.in_pos item }) first (push_written item)
PushInv-write q first item storage first_in h = (
  h.0,
  h.1,
  ap (λ i. get_or (set q.buffer q.in_pos item) i 0) (sym h.0)
      ∙ get_or-set_self q.buffer q.in_pos item 0 (ground arith),
)

-- No access of a push or a pop breaks the invariant.
pub Step-Inv : {s t : State} {e : Event} → Step s e t → Inv s → Inv t
Step-Inv (see_full q d full) v = v
Step-Inv (see_room q d item room) v = record {
  storage = v.storage;
  small = v.small;
  out_in = v.out_in;
  size_in = v.size_in;
  pushing = (v.pushing, omega arith);
  popping = v.popping;
}
Step-Inv (write q d item) v = record {
  storage = v.storage ∙ sym (length-set q.buffer q.in_pos item);
  small = v.small;
  out_in = v.out_in;
  size_in = v.size_in;
  pushing =
      PushInv-write q (first_of q.capacity q.out_pos d) item v.storage
        (oldest-lt q.capacity q.out_pos d v.small v.out_in) v.pushing;
  popping = PopInv-write q d item v.small v.out_in v.pushing.1 v.pushing.0 v.popping;
}
Step-Inv (move_in q d item) v = record {
  storage = v.storage;
  small = v.small;
  out_in = v.out_in;
  size_in = v.size_in;
  pushing = (
    ap (λ i. advance i q.capacity) v.pushing.0
        ∙ step_in q.capacity (first_of q.capacity q.out_pos d) q.size v.small
            (oldest-lt q.capacity q.out_pos d v.small v.out_in) v.pushing.1,
    v.pushing.1,
    v.pushing.2,
  );
  popping = v.popping;
}
Step-Inv (grow q d item) v = record {
  storage = v.storage;
  small = v.small;
  out_in = v.out_in;
  size_in = omega (arith, v.pushing.1);
  pushing = v.pushing.0 ∙ ap (wrap q.capacity) (omega (arith, v.pushing.1));
  popping = PopInv-grow q d v.small v.pushing.1 v.popping;
}
Step-Inv (see_empty q e empty) v = v
Step-Inv (see_some q e full) v = record {
  storage = v.storage;
  small = v.small;
  out_in = v.out_in;
  size_in = v.size_in;
  pushing = v.pushing;
  popping = full;
}
Step-Inv (read q e) v = record {
  storage = v.storage;
  small = v.small;
  out_in = v.out_in;
  size_in = v.size_in;
  pushing = v.pushing;
  popping = (v.popping, refl);
}
Step-Inv (shrink q e item) v = record {
  storage = v.storage;
  small = v.small;
  out_in = v.out_in;
  size_in = omega (arith, v.popping.0);
  pushing = PushInv-shrink q e v.small v.out_in v.size_in v.popping.0 v.pushing;
  popping = tt;
}
Step-Inv (move_out q e item) v = record {
  storage = v.storage;
  small = v.small;
  out_in = advance-lt q.capacity q.out_pos v.small v.out_in;
  size_in = v.size_in;
  pushing = v.pushing;
  popping = tt;
}

contents-grow :
    (q : Queue) (first item : ℕ)
    → first < q.capacity
    → PushInv q first (push_moved item)
    → q.capacity < u32_mod
    → window q.buffer q.capacity first (add32 q.size 1)
      ≡ window q.buffer q.capacity first q.size ++ (item ∷ [])
contents-grow q first item first_in h small =
    ap (window q.buffer q.capacity first) (step_size q.capacity first q.size small first_in h.1)
    ∙ (window-snoc q.buffer q.capacity first q.size (first + q.size) refl
        ∙ ap (λ y. window q.buffer q.capacity first q.size ++ (y ∷ [])) h.2)

contents-shrink :
    (q : Queue) (item : ℕ)
    → q.capacity < u32_mod
    → q.out_pos < q.capacity
    → q.size ≤ q.capacity
    → PopInv q (pop_read item)
    → window q.buffer q.capacity q.out_pos q.size
      ≡ item ∷ window q.buffer q.capacity (advance q.out_pos q.capacity) (sub32 q.size 1)
contents-shrink q item small out_in size_in h =
    window-pred q.buffer q.capacity q.out_pos q.size h.0
    ∙ ap₂ ◌∷◌ (ap (λ i. get_or q.buffer i 0) (ground arith) ∙ h.1) (
        window-wrap q.buffer q.capacity (q.out_pos + 1) (q.size - 1) (omega arith) (omega arith)
        ∙ ap₂ (window q.buffer q.capacity) (sym (advance-wrap q.capacity q.out_pos small out_in))
            (omega (arith, h.0)))

-- A step that is not the increment or the decrement of `size` leaves what the queue holds; the
-- increment appends the pusher's item, and the decrement takes the oldest item, which is the one
-- that the popper read. A push is refused only when `capacity` items are held, and a pop finds
-- nothing only when none is.
pub Step-Effect :
    {s t : State} {e : Event} → Step s e t → Inv s → Effect s.queue.capacity (holds s) e (holds t)
Step-Effect (see_full q d full) v = (refl, length-window q.buffer q.capacity _ q.size ∙ full)
Step-Effect (see_room q d item room) v = refl
Step-Effect (write q d item) v =
    ap (λ i. window (set q.buffer i item) q.capacity (first_of q.capacity q.out_pos d) q.size)
      v.pushing.0
    ∙ window-set_ne q.buffer q.capacity item (first_of q.capacity q.out_pos d) q.size
        (first_of q.capacity q.out_pos d + q.size) (omega arith) (omega (arith, v.pushing.1))
        (omega (arith, v.pushing.1, oldest-lt q.capacity q.out_pos d v.small v.out_in))
Step-Effect (move_in q d item) v = refl
Step-Effect (grow q d item) v = (
  contents-grow q (first_of q.capacity q.out_pos d) item
      (oldest-lt q.capacity q.out_pos d v.small v.out_in) v.pushing v.small,
  omega (
    arith,
    v.pushing.1,
    length-window q.buffer q.capacity (first_of q.capacity q.out_pos d) q.size,
  ),
)
Step-Effect (see_empty q e empty) v = (refl, ap (window q.buffer q.capacity q.out_pos) empty)
Step-Effect (see_some q e full) v = refl
Step-Effect (read q e) v = refl
Step-Effect (shrink q e item) v = contents-shrink q item v.small v.out_in v.size_in v.popping
Step-Effect (move_out q e item) v = refl
