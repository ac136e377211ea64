-- ===== src/Queue.antt =====
-- src/mir_queue.c and src/mir_queue.h: a bounded FIFO of pointers over a circular buffer.
-- A pointer is a number, and NULL is 0. The locks are taken and released inside each function, so
-- one call is one step here; `Queue.TwoLock` takes the calls apart.
pub mod Fifo
pub mod Window
pub mod Tests
pub mod Inv
pub mod Refine
pub mod Bag
pub mod TwoLock
use mir_dev.Base.{
  ℕ, ◌+◌, ◌-◌, ◌<◌, ◌≡◌, Bool, true, false, Option, none, some, List, [], ◌∷◌, leb, ◌==◌,
  if◌then◌else◌, ◌>>=◌, ◌>>◌, assert, not, ltb, replicate, set, get_or, add32, sub32,
}

-- `struct mir_queue_t` without its locks.
pub record Queue : Type 0 where
  pub buffer : List ℕ
  pub capacity : ℕ
  pub size : ℕ
  pub in_pos : ℕ
  pub out_pos : ℕ

-- `QUEUE_FULL` and `QUEUE_EMPTY`
pub is_full : Queue → Bool
is_full q = q.size == q.capacity

pub is_empty : Queue → Bool
is_empty q = q.size == 0

-- `mir_cmalloc_int` clears the buffer.
unfoldable pub create : ℕ → Option Queue
create capacity = do
  assert (ltb 0 capacity)
  some (record {
    buffer = replicate capacity 0;
    capacity = capacity;
    size = 0;
    in_pos = 0;
    out_pos = 0;
  })

-- `pos++; if (pos >= capacity) pos -= capacity;`
abbrev pub advance : ℕ → ℕ → ℕ
advance pos capacity =
    let next = add32 pos 1 in if leb capacity next then sub32 next capacity else next

pub store : Queue → ℕ → Queue
store q item = record q {
  buffer = set q.buffer q.in_pos item;
  in_pos = advance q.in_pos q.capacity;
  size = add32 q.size 1;
}

-- The result is 1 or 0 in the source, `true` or `false` here.
unfoldable pub push : Queue → ℕ → Option (Queue × Bool)
unfolding store is_full
push q item = do
  assert (not (item == 0))
  if is_full q then some (q, false) else some (store q item, true)

pub unload : Queue → Queue
unload q = record q { size = sub32 q.size 1; out_pos = advance q.out_pos q.capacity }

-- `out` is what `*data` holds before the call; an empty queue leaves it.
unfoldable pub pop : Queue → ℕ → Option (Queue × ℕ)
unfolding unload is_empty
pop q out = if is_empty q then some (q, out) else (do
  let item = get_or q.buffer q.out_pos 0
  assert (not (item == 0))
  some (unload q, item))

unfoldable pub size_of : Queue → ℕ
size_of q = q.size
