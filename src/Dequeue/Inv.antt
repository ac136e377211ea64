-- ===== src/Dequeue/Inv.antt =====
-- What a deque whose counters have not run out holds, and its invariant.

use mir_dev.Base.{
  length, replicate, length-replicate, AllSet, sub32, ℕ, ◌-◌, ◌^◌, ◌≤◌, ◌<◌, ◌≡◌, refl, ap, some,
  List, [], arith,
}
use mir_dev.Dequeue.{Dequeue, check, new}
use mir_dev.Dequeue.RoundUp.{round_up2_lem}
use mir_dev.Dequeue.Slots.{slots, length-slots}

-- From `top`, where thieves take, to `bottom`
abbrev pub contents : Dequeue → List ℕ
contents q = slots q.elements q.modulo_size q.top (q.bottom - q.top)

pub record IsValid (q : Dequeue) : Type 0 where
  pub bits : ℕ
  pub size_is : q.size ≡ 2 ^ bits
  pub mask_is : q.modulo_size ≡ 2 ^ bits - 1
  pub storage : length q.elements ≡ 2 ^ bits
  pub positive : 0 < q.size
  pub fits : q.size ≤ 2 ^ 31
  pub ordered : q.top ≤ q.bottom
  pub bound_in : q.top_bound ≤ q.top
  pub room : q.bottom - q.top < q.size
  pub young : q.bottom < 2 ^ 31
  pub no_null : AllSet (contents q)

pub length-contents : (q : Dequeue) → length (contents q) ≡ q.bottom - q.top
length-contents q = length-slots q.elements q.modulo_size q.top (q.bottom - q.top)

pub check-valid : (q : Dequeue) → 0 < q.size → q.top_bound ≤ q.top → check q ≡ some tt
unfolding check
check-valid q p h = ground arith

-- For a size that is not 0 and below 2^30, `newWSDeque` makes a valid and empty deque with room for
-- at least `size` elements.
pub new-IsValid :
    (size : ℕ)
    → 0 < size
    → size < 2 ^ 30
    → (q : Dequeue) × (new size ≡ some q) × IsValid q × (contents q ≡ []) × (size ≤ q.modulo_size)
unfolding new check
new-IsValid size p h =
    let (k, e, lo, hi) = round_up2_lem size p (omega arith) in
    let q : Dequeue = record {
      size = 2 ^ k;
      modulo_size = sub32 (2 ^ k) 1;
      top = 0;
      bottom = 0;
      top_bound = 0;
      elements = replicate (2 ^ k) 0;
    } in
    (
      q,
      rw e (ground arith),
      record {
        bits = k;
        size_is = refl;
        mask_is = omega arith;
        storage = length-replicate (2 ^ k) 0;
        positive = omega arith;
        fits = omega arith;
        ordered = omega arith;
        bound_in = omega arith;
        room = omega arith;
        young = omega arith;
        no_null = tt;
      },
      refl,
      omega arith,
    )

pub empty_slots : (q : Dequeue) → q.bottom ≤ q.top → contents q ≡ []
empty_slots q h =
    let none_left : q.bottom - q.top ≡ 0 = omega arith in
    ap (slots q.elements q.modulo_size q.top) none_left
