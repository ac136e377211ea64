-- ===== src/Dequeue.antt =====
-- src/mir_dequeue.c and src/mir_dequeue.h: the work-stealing deque, each call taken as one step (no
-- thief runs during an owner's call, nor the owner during a thief's). `StgWord` is `unsigned int`,
-- 32 bits; `long` has 64 bits, so `(long)b - (long)t` is the exact difference of two words.
pub mod RoundUp
pub mod Slots
pub mod Inv
pub mod Push
pub mod Pop
pub mod Steal
pub mod Wrap
mod Tests
use Prim.Native.Nat.{bit_and}
use mir_dev.Base.{
  ltb, leb, ◌==◌, if◌then◌else◌, ltb→lt, lt→ltb, leb→le, ==_iff, Bool-cases, Option-cases, ◌>>=◌,
  ◌>>◌, assert, length, get_or, set, replicate, length-append, length-replicate, length-set,
  get_or-set_self, get_or-set_ne, u16_mod, u32_mod, u64_mod, add16, add32, sub32, add64, sub64, ℕ,
  zero, suc, ◌+◌, ◌-◌, ◌*◌, ◌/◌, ◌%◌, ◌^◌, ◌≤◌, ◌<◌, min, max, ◌≡◌, refl, sym, ap, ap₂, subst, ◌∙◌,
  ◌≢◌, ◌↔◌, ◌⊎◌, inl, inr, Bool, true, false, not, ◌&&◌, ◌||◌, Option, none, some, List, [], ◌∷◌,
  ◌++◌, map, append-nil, append_assoc, arith, dec_lt, ℕ_discrete, mod-add-mod, mod-eq_of_lt,
  mod-eq-sub-mod, add-zero,
}

-- `WSDeque`
pub record Dequeue : Type 0 where
  pub size : ℕ
  pub modulo_size : ℕ
  pub top : ℕ
  pub bottom : ℕ
  pub top_bound : ℕ
  pub elements : List ℕ

-- `do { rounded <<= 1; } while (0 != (val >>= 1));`: 32 rounds empty a word.
pub round_loop : ℕ → ℕ → ℕ → Option ℕ
round_loop zero val rounded = none
round_loop (suc fuel) val rounded =
    let rest = round_loop fuel (val / 2) (rounded * 2 % u32_mod) in
    if val / 2 == 0 then some (rounded * 2 % u32_mod) else rest

-- `barf` ends the process.
pub round_up2 : ℕ → Option ℕ
round_up2 val = if val == 0 then none else round_loop 32 val 1

-- `ASSERT_WSDEQUE_INVARIANTS`: the two tests that are not about pointers.
pub check : Dequeue → Option (Unit {0})
check q = do assert (ltb 0 q.size); assert (leb q.top_bound q.top)

pub new : ℕ → Option Dequeue
new size = do
  real_size ← round_up2 size
  let q : Dequeue = record {
    size = real_size;
    modulo_size = sub32 real_size 1;
    top = 0;
    bottom = 0;
    top_bound = 0;
    elements = replicate real_size 0;
  }
  check q
  some q

abbrev pub slot : Dequeue → ℕ → ℕ
slot q i = get_or q.elements (bit_and i q.modulo_size) 0

-- What `popWSDeque` does for the last element: with no thief about, `CASTOP` compares `top` with the
-- value just read from it.
pub pop_last : Dequeue → ℕ → Option (Dequeue × ℕ)
pop_last q t =
    let won : Bool = q.top == t in
    let removed : ℕ = (if won then slot q q.bottom else 0) in
    let q' : Dequeue = record q {
      top = if won then add32 t 1 else q.top;
      bottom = add32 t 1;
      top_bound = add32 t 1;
    } in
    (do check q'; assert (leb q'.top q'.bottom); some (q', removed))

-- NULL, 0, if the deque is empty
pub pop : Dequeue → Option (Dequeue × ℕ)
pop q = do
  check q
  let b = sub32 q.bottom 1
  let t = q.top
  let q' : Dequeue = record q { bottom = b; top_bound = t }
  if ltb b t
      then some (record q' { bottom = t }, 0)
      else if ltb t b
      then some (q', slot q' b)
      else pop_last q' t

-- `stealWSDeque_`: no other thief runs between the read of `top` and the `cas`, so it is won.
unfoldable pub steal_once : Dequeue → Dequeue × ℕ
steal_once q =
    if leb q.bottom q.top then (q, 0) else (record q { top = add32 q.top 1 }, slot q q.top)

-- `dequeElements(q) <= 0`
unfoldable pub looks_empty : Dequeue → Bool
looks_empty q = leb q.bottom q.top

-- `stealWSDeque`, on fuel: it tries again while nothing came and the deque looks not empty.
unfoldable pub steal : ℕ → Dequeue → Option (Dequeue × ℕ)
steal zero q = none
steal (suc fuel) q =
    let (q', stolen) = steal_once q in
    let again = steal fuel q' in
    if (stolen == 0) && not (looks_empty q') then again else some (q', stolen)

-- `(StgInt)w`, raised by 2^31
abbrev pub lift_int : ℕ → ℕ
lift_int w = (w + 2 ^ 31) % u32_mod

-- `(StgInt)b - (StgInt)t >= (StgInt)sz`, the difference taken exactly
abbrev pub seems_full : ℕ → ℕ → ℕ → Bool
seems_full b t sz = leb (lift_int t + lift_int sz) (lift_int b + 2 ^ 31)

pub put : Dequeue → ℕ → Option (Dequeue × Bool)
put q item = do
  let q' : Dequeue = record q {
    elements = set q.elements (bit_and q.bottom q.modulo_size) item;
    bottom = add32 q.bottom 1;
  }
  check q'
  some (q', true)

-- `pushWSDeque`, with `DISCARD_NEW` defined
pub push : Dequeue → ℕ → Option (Dequeue × Bool)
push q item = do
  check q
  let sz = q.modulo_size
  let q' : Dequeue = record q { top_bound = q.top }
  if seems_full q.bottom q.top_bound sz
      then (if leb sz (sub32 q.bottom q.top) then (do check q'; some (q', false)) else put q' item)
      else put q item

-- `discardElements`
pub discard : Dequeue → Dequeue
discard q = record q { top = q.bottom }
