-- ===== src/Dequeue/Tests.antt =====
-- The deque's theorems at concrete deques.

use mir_dev.Base.{
  get_or, ℕ, ◌-◌, ◌^◌, ◌≤◌, ◌≡◌, refl, ◌≢◌, ◌⊎◌, Bool, true, false, some, [], ◌∷◌, ◌++◌, arith,
}
use mir_dev.Dequeue.{Dequeue, round_loop, round_up2, new, push, pop, steal, looks_empty}
use mir_dev.Dequeue.Inv.{IsValid, contents, new-IsValid}
use mir_dev.Dequeue.Push.{spec_push, push_refines_deque}
use mir_dev.Dequeue.Pop.{pop_refines_deque}
use mir_dev.Dequeue.Steal.{steal_refines}
use mir_dev.Dequeue.Wrap.{pop_unused, push_lost}

-- 7, then 8, from position 3 of a four-slot array on
abbrev two : Dequeue
two = record {
  size = 4;
  modulo_size = 3;
  top = 3;
  bottom = 5;
  top_bound = 2;
  elements = 8 ∷ 0 ∷ 0 ∷ 7 ∷ [];
}

two-IsValid : IsValid two
two-IsValid = record {
  bits = 2;
  size_is = refl;
  mask_is = refl;
  storage = refl;
  positive = omega arith;
  fits = omega arith;
  ordered = omega arith;
  bound_in = omega arith;
  room = omega arith;
  young = omega arith;
  no_null = (omega arith, (omega arith, tt));
}

abbrev unused : Dequeue
unused = record {
  size = 2;
  modulo_size = 1;
  top = 0;
  bottom = 0;
  top_bound = 0;
  elements = 0 ∷ 9 ∷ [];
}

unused-IsValid : IsValid unused
unused-IsValid = record {
  bits = 1;
  size_is = refl;
  mask_is = refl;
  storage = refl;
  positive = omega arith;
  fits = omega arith;
  ordered = omega arith;
  bound_in = omega arith;
  room = omega arith;
  young = omega arith;
  no_null = tt;
}

abbrev worn : Dequeue
worn = record unused { top = 2 ^ 32 - 1; bottom = 2 ^ 32 - 1; top_bound = 2 ^ 32 - 1 }

round_up2_eight : round_up2 8 ≡ some 16
unfolding round_up2 round_loop
round_up2_eight = refl

new-IsValid_example :
    (q : Dequeue) × (new 3 ≡ some q) × IsValid q × (contents q ≡ []) × (3 ≤ q.modulo_size)
new-IsValid_example = new-IsValid 3 (omega arith) (omega arith)

push_refines_deque_example :
    (q' : Dequeue) × (done : Bool) × (push two 4 ≡ some (q', done))
    × IsValid q'
    × ((contents q', done) ≡ spec_push 3 (7 ∷ 8 ∷ []) 4)
push_refines_deque_example = push_refines_deque two 4 two-IsValid (omega arith) (omega arith)

pop_refines_deque_example :
    (q' : Dequeue) × (item : ℕ) × (pop two ≡ some (q', item))
    × IsValid q'
    × (((contents two ≡ []) × (contents q' ≡ []) × (item ≡ 0))
        ⊎ ((7 ∷ 8 ∷ [] ≡ contents q' ++ (item ∷ [])) × (item ≢ 0)))
pop_refines_deque_example = pop_refines_deque two two-IsValid (omega arith)

steal_refines_example :
    (q' : Dequeue) × (item : ℕ) × (steal 1 two ≡ some (q', item))
    × IsValid q'
    × (((contents two ≡ []) × (q' ≡ two) × (item ≡ 0))
        ⊎ ((7 ∷ 8 ∷ [] ≡ item ∷ contents q') × (item ≢ 0)))
steal_refines_example = steal_refines 0 two two-IsValid

-- 9 was never pushed.
pop_unused_example :
    (q' : Dequeue) × (pop unused ≡ some (q', 9))
    × (looks_empty q' ≡ false)
    × (q'.bottom ≡ 2 ^ 32 - 1)
pop_unused_example = pop_unused unused unused-IsValid refl

push_lost_example :
    (q' : Dequeue) × (push worn 5 ≡ some (q', true))
    × (q'.bottom ≡ 0)
    × (get_or q'.elements 1 0 ≡ 5)
    × (looks_empty q' ≡ true)
    × (steal 1 q' ≡ some (q', 0))
push_lost_example =
    push_lost 0 worn 5 (omega arith) (omega arith) (omega arith) (omega arith) refl refl refl
