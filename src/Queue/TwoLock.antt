-- ===== src/Queue/TwoLock.antt =====
-- src/mir_queue.c, taken apart: one thread inside `mir_queue_push` (it holds `enq_lock`) and one
-- inside `mir_queue_pop` (it holds `deq_lock`) run between each other's memory accesses, in any
-- order. A step is one access to a shared field; memory is sequentially consistent.
pub mod Steps
pub mod History
use mir_dev.Base.{
  ltb, leb, ◌==◌, if◌then◌else◌, ltb→lt, lt→ltb, leb→le, ==_iff, Bool-cases, Option-cases, ◌>>=◌,
  ◌>>◌, assert, length, get_or, set, replicate, length-append, length-replicate, length-set,
  get_or-set_self, get_or-set_ne, u16_mod, u32_mod, u64_mod, add16, add32, sub32, add64, sub64, ℕ,
  zero, suc, ◌+◌, ◌-◌, ◌*◌, ◌/◌, ◌%◌, ◌^◌, ◌≤◌, ◌<◌, min, max, ◌≡◌, refl, sym, ap, ap₂, subst, ◌∙◌,
  ◌≢◌, ◌↔◌, ◌⊎◌, inl, inr, Bool, true, false, not, ◌&&◌, ◌||◌, Option, none, some, List, [], ◌∷◌,
  ◌++◌, map, append-nil, append_assoc, arith, dec_lt, ℕ_discrete, mod-add-mod, mod-eq_of_lt,
  mod-eq-sub-mod, add-zero,
}
use mir_dev.Queue.{Queue, advance}
use mir_dev.Queue.Window.{
  wrap, window, window-set, window-set_ne, length-window, window-wrap, window-pred,
}
use mir_dev.Queue.Inv.{IsValid, contents, advance-wrap, advance-lt}

-- Where the thread that pushes stands. `item` is its argument.
pub data PushPc : Type 0 where
  -- outside
  push_idle : PushPc
  -- the queue was seen not full; next is the write to the buffer
  push_room : ℕ → PushPc
  -- the buffer is written; next is the update of `in`
  push_written : ℕ → PushPc
  -- `in` is updated; next is the atomic increment of `size`
  push_moved : ℕ → PushPc

-- Where the thread that pops stands.
pub data PopPc : Type 0 where
  pop_idle : PopPc
  -- the queue was seen not empty; next is the read of the buffer
  pop_some : PopPc
  -- the item is read; next is the atomic decrement of `size`
  pop_read : ℕ → PopPc
  -- `size` is decremented; next is the update of `out`
  pop_taken : ℕ → PopPc

pub record State : Type 0 where
  pub queue : Queue
  pub pusher : PushPc
  pub popper : PopPc

-- What a step does as its caller sees it: it takes effect as a push or a pop, or not at all.
pub data Event : Type 0 where
  silent : Event
  refused : Event
  enqueued : ℕ → Event
  found_empty : Event
  dequeued : ℕ → Event

pub data Step : State → Event → State → Type 0 where
  see_full :
      (q : Queue) (d : PopPc)
      → q.size ≡ q.capacity
      → Step
          (record { queue = q; pusher = push_idle; popper = d })
          refused
          (record { queue = q; pusher = push_idle; popper = d })
  see_room :
      (q : Queue) (d : PopPc) (item : ℕ)
      → q.size ≢ q.capacity
      → Step
          (record { queue = q; pusher = push_idle; popper = d })
          silent
          (record { queue = q; pusher = push_room item; popper = d })
  write :
      (q : Queue) (d : PopPc) (item : ℕ)
      → Step
          (record { queue = q; pusher = push_room item; popper = d })
          silent
          (record {
            queue = record q { buffer = set q.buffer q.in_pos item };
            pusher = push_written item;
            popper = d;
          })
  move_in :
      (q : Queue) (d : PopPc) (item : ℕ)
      → Step
          (record { queue = q; pusher = push_written item; popper = d })
          silent
          (record {
            queue = record q { in_pos = advance q.in_pos q.capacity };
            pusher = push_moved item;
            popper = d;
          })
  grow :
      (q : Queue) (d : PopPc) (item : ℕ)
      → Step
          (record { queue = q; pusher = push_moved item; popper = d })
          (enqueued item)
          (record { queue = record q { size = add32 q.size 1 }; pusher = push_idle; popper = d })
  see_empty :
      (q : Queue) (e : PushPc)
      → q.size ≡ 0
      → Step
          (record { queue = q; pusher = e; popper = pop_idle })
          found_empty
          (record { queue = q; pusher = e; popper = pop_idle })
  see_some :
      (q : Queue) (e : PushPc)
      → q.size ≢ 0
      → Step
          (record { queue = q; pusher = e; popper = pop_idle })
          silent
          (record { queue = q; pusher = e; popper = pop_some })
  read :
      (q : Queue) (e : PushPc)
      → Step
          (record { queue = q; pusher = e; popper = pop_some })
          silent
          (record { queue = q; pusher = e; popper = pop_read (get_or q.buffer q.out_pos 0) })
  shrink :
      (q : Queue) (e : PushPc) (item : ℕ)
      → Step
          (record { queue = q; pusher = e; popper = pop_read item })
          (dequeued item)
          (record {
            queue = record q { size = sub32 q.size 1 };
            pusher = e;
            popper = pop_taken item;
          })
  move_out :
      (q : Queue) (e : PushPc) (item : ℕ)
      → Step
          (record { queue = q; pusher = e; popper = pop_taken item })
          silent
          (record {
            queue = record q { out_pos = advance q.out_pos q.capacity };
            pusher = e;
            popper = pop_idle;
          })

-- Where the oldest item is: `out` lags behind `size` between the two last steps of a pop.
abbrev pub first_of : ℕ → ℕ → PopPc → ℕ
first_of capacity out (pop_taken item) = advance out capacity
first_of capacity out pop_idle = out
first_of capacity out pop_some = out
first_of capacity out (pop_read item) = out

abbrev pub oldest : State → ℕ
oldest s = first_of s.queue.capacity s.queue.out_pos s.popper

-- What the queue holds, oldest first
abbrev pub holds : State → List ℕ
holds s = window s.queue.buffer s.queue.capacity (oldest s) s.queue.size

abbrev pub PushInv : Queue → ℕ → PushPc → Type 0
PushInv q first push_idle = q.in_pos ≡ wrap q.capacity (first + q.size)
PushInv q first (push_room item) =
    (q.in_pos ≡ wrap q.capacity (first + q.size)) × (q.size < q.capacity)
PushInv q first (push_written item) =
    (q.in_pos ≡ wrap q.capacity (first + q.size))
    × (q.size < q.capacity)
    × (get_or q.buffer (wrap q.capacity (first + q.size)) 0 ≡ item)
PushInv q first (push_moved item) =
    (q.in_pos ≡ wrap q.capacity (first + q.size + 1))
    × (q.size < q.capacity)
    × (get_or q.buffer (wrap q.capacity (first + q.size)) 0 ≡ item)

abbrev pub PopInv : Queue → PopPc → Type 0
PopInv q pop_idle = Unit {0}
PopInv q pop_some = q.size ≢ 0
PopInv q (pop_read item) = (q.size ≢ 0) × (get_or q.buffer q.out_pos 0 ≡ item)
PopInv q (pop_taken item) = Unit {0}

pub record Inv (s : State) : Type 0 where
  pub storage : s.queue.capacity ≡ length s.queue.buffer
  pub small : s.queue.capacity < u32_mod
  pub out_in : s.queue.out_pos < s.queue.capacity
  pub size_in : s.queue.size ≤ s.queue.capacity
  pub pushing : PushInv s.queue (oldest s) s.pusher
  pub popping : PopInv s.queue s.popper

-- The FIFO's view of an event
abbrev pub Effect : ℕ → List ℕ → Event → List ℕ → Type 0
Effect capacity items silent items' = items' ≡ items
Effect capacity items refused items' = (items' ≡ items) × (length items ≡ capacity)
Effect capacity items (enqueued item) items' =
    (items' ≡ items ++ (item ∷ [])) × (length items < capacity)
Effect capacity items found_empty items' = (items' ≡ items) × (items ≡ [])
Effect capacity items (dequeued item) items' = items ≡ item ∷ items'
