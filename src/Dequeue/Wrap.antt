-- ===== src/Dequeue/Wrap.antt =====
-- Where the deque does not do what its comments say: `bottom` at 0, and `bottom` at its last value.
use Prim.Native.Nat.{bit_and}
use mir_dev.Base.{
  length, get_or, set, get_or-set_self, ℕ, suc, ◌-◌, ◌^◌, ◌<◌, ◌≡◌, refl, true, false, some, arith,
}
use mir_dev.Dequeue.{Dequeue, slot, check, pop, put, push, steal_once, steal, looks_empty}
use mir_dev.Dequeue.Inv.{IsValid}

-- `popWSDeque` on a valid deque whose `bottom` is 0, so on any that was never pushed to, hands out
-- what stands in the array at `(2^32 - 1) & moduloSize`, whatever that is, in place of NULL for an
-- empty deque: `bottom` wraps to 2^32 - 1, and stays there, and the deque looks not empty then.
pub pop_unused :
    (q : Dequeue)
    → IsValid q
    → q.bottom ≡ 0
    → (q' : Dequeue) × (pop q ≡ some (q', slot q (2 ^ 32 - 1)))
      × (looks_empty q' ≡ false)
      × (q'.bottom ≡ 2 ^ 32 - 1)
unfolding pop check looks_empty
pop_unused q v unused = (
  record q { bottom = 2 ^ 32 - 1; top_bound = q.top },
  ground (arith, v),
  ground (arith, v),
  refl,
)

-- On a deque with room in its array, whose `top`, `bottom` and bound on `top` all stand at 2^32 - 1,
-- a push answers true and stores its element, but `bottom` wraps to 0, the deque looks empty, and a
-- thief gets NULL.
pub push_lost :
    (fuel : ℕ) (q : Dequeue) (item : ℕ)
    → 0 < q.size
    → bit_and q.bottom q.modulo_size < length q.elements
    → 0 < q.modulo_size
    → q.modulo_size < 2 ^ 31
    → q.top ≡ 2 ^ 32 - 1
    → q.bottom ≡ 2 ^ 32 - 1
    → q.top_bound ≡ 2 ^ 32 - 1
    → (q' : Dequeue) × (push q item ≡ some (q', true))
      × (q'.bottom ≡ 0)
      × (get_or q'.elements (bit_and q.bottom q.modulo_size) 0 ≡ item)
      × (looks_empty q' ≡ true)
      × (steal (suc fuel) q' ≡ some (q', 0))
unfolding push put check looks_empty steal steal_once
push_lost fuel q item size_pos slot_in mask_pos mask_in t b bound = (
  record q { elements = set q.elements (bit_and q.bottom q.modulo_size) item; bottom = 0 },
  ground arith,
  refl,
  get_or-set_self q.elements (bit_and q.bottom q.modulo_size) item 0 slot_in,
  ground arith,
  ground arith,
)
