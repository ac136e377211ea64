-- ===== src/Stack.antt =====
-- src/mir_stack.c and src/mir_stack.h: a bounded LIFO of pointers. The one lock is held for the
-- whole of each call, so a call is one step.
pub mod Refine
pub mod Bag
mod Tests
use mir_dev.Base.{
  ltb, leb, ◌==◌, if◌then◌else◌, ltb→lt, lt→ltb, leb→le, ==_iff, Bool-cases, Option-cases, ◌>>=◌,
  ◌>>◌, assert, length, get_or, set, replicate, length-append, length-replicate, length-set,
  get_or-set_self, get_or-set_ne, u16_mod, u32_mod, u64_mod, add16, add32, sub32, add64, sub64, ℕ,
  zero, suc, ◌+◌, ◌-◌, ◌*◌, ◌/◌, ◌%◌, ◌^◌, ◌≤◌, ◌<◌, min, max, ◌≡◌, refl, sym, ap, ap₂, subst, ◌∙◌,
  ◌≢◌, ◌↔◌, ◌⊎◌, inl, inr, Bool, true, false, not, ◌&&◌, ◌||◌, Option, none, some, List, [], ◌∷◌,
  ◌++◌, map, append-nil, append_assoc, arith, dec_lt, ℕ_discrete, mod-add-mod, mod-eq_of_lt,
  mod-eq-sub-mod, add-zero,
}

-- `struct mir_stack_t` without its lock. `head` is the free location, and the size.
pub record Stack : Type 0 where
  pub buffer : List ℕ
  pub capacity : ℕ
  pub head : ℕ

-- `STACK_FULL` and `STACK_EMPTY`
pub is_full : Stack → Bool
is_full s = s.head == s.capacity

pub is_empty : Stack → Bool
is_empty s = s.head == 0

-- A capacity of 0 is not refused here.
unfoldable pub create : ℕ → Option Stack
create capacity = some (record { buffer = replicate capacity 0; capacity = capacity; head = 0 })

pub store : Stack → ℕ → Stack
store s item = record s { buffer = set s.buffer s.head item; head = add32 s.head 1 }

unfoldable pub push : Stack → ℕ → Option (Stack × Bool)
unfolding store is_full
push s item = do
  assert (not (item == 0))
  if is_full s then some (s, false) else some (store s item, true)

-- `out` is what `*data` holds before the call; an empty stack leaves it.
unfoldable pub pop : Stack → ℕ → Option (Stack × ℕ)
unfolding is_empty
pop s out = if is_empty s then some (s, out) else (do
  let item = get_or s.buffer (sub32 s.head 1) 0
  assert (not (item == 0))
  some (record s { head = sub32 s.head 1 }, item))

unfoldable pub size_of : Stack → ℕ
size_of s = s.head
