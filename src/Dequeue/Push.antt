-- ===== src/Dequeue/Push.antt =====
-- pushWSDeque of src/mir_dequeue.c: the owner adds at its end of the list.
use Prim.Native.Nat.{bit_and}
use mir_dev.Base.{
  leb, ◌==◌, if◌then◌else◌, Bool-cases, length, set, length-set, AllSet, AllSet-snoc, add32, sub32,
  ℕ, suc, ◌+◌, ◌-◌, ◌^◌, ◌≤◌, ◌<◌, ◌≡◌, refl, sym, ap, subst, ◌∙◌, ◌≢◌, ◌⊎◌, inl, inr, Bool, true,
  false, some, List, [], ◌∷◌, ◌++◌, arith, ℕ_discrete,
}
use mir_dev.Dequeue.{Dequeue, check, put, push, seems_full}
use mir_dev.Dequeue.Slots.{slots, slots-put}
use mir_dev.Dequeue.Inv.{contents, IsValid, length-contents, check-valid}

-- `put` with the bottom advanced
stored : Dequeue → ℕ → Dequeue
stored q item = record q {
  elements = set q.elements (bit_and q.bottom q.modulo_size) item;
  bottom = add32 q.bottom 1;
}

contents-stored :
    (q : Dequeue) (item : ℕ)
    → IsValid q
    → q.bottom - q.top < q.modulo_size
    → contents (stored q item) ≡ contents q ++ (item ∷ [])
unfolding stored
contents-stored q item v room =
    ap (slots (set q.elements (bit_and q.bottom q.modulo_size) item) q.modulo_size q.top) longer
    ∙ slots-put q.elements v.bits q.modulo_size item q.top (q.bottom - q.top) q.bottom v.mask_is
        v.storage (omega (arith, v.ordered)) (omega (arith, v.room, v.size_is))
  where
    longer : add32 q.bottom 1 - q.top ≡ suc (q.bottom - q.top)
    longer = omega (arith, v.young, v.ordered)

stored-IsValid :
    (q : Dequeue) (item : ℕ)
    → IsValid q
    → item ≢ 0
    → q.bottom + 1 < 2 ^ 31
    → q.bottom - q.top < q.modulo_size
    → IsValid (stored q item)
unfolding stored
stored-IsValid q item v item_set young room = record {
  bits = v.bits;
  size_is = v.size_is;
  mask_is = v.mask_is;
  storage = length-set q.elements (bit_and q.bottom q.modulo_size) item ∙ v.storage;
  positive = v.positive;
  fits = v.fits;
  ordered = omega (arith, v.ordered);
  bound_in = v.bound_in;
  room = omega (arith, v.mask_is, v.size_is);
  young = omega arith;
  no_null =
      subst AllSet (sym (contents-stored q item v room))
        (AllSet-snoc (contents q) item v.no_null item_set);
}

seems_full_iff :
    (b t sz : ℕ) → b < 2 ^ 31 → t ≤ b → sz < 2 ^ 31 → seems_full b t sz ≡ leb (t + sz) b
seems_full_iff b t sz p q r = ground arith

-- `topBound` brought up to `top`
abbrev caught_up : Dequeue → Dequeue
caught_up q = record q { top_bound = q.top }

caught_up-IsValid : (q : Dequeue) → IsValid q → IsValid (caught_up q)
caught_up-IsValid q v = record {
  bits = v.bits;
  size_is = v.size_is;
  mask_is = v.mask_is;
  storage = v.storage;
  positive = v.positive;
  fits = v.fits;
  ordered = v.ordered;
  bound_in = omega arith;
  room = v.room;
  young = v.young;
  no_null = v.no_null;
}

put-stored : (q : Dequeue) (item : ℕ) → IsValid q → put q item ≡ some (stored q item, true)
unfolding put stored check
put-stored q item v = ground (arith, v)

push-with_room :
    (q : Dequeue) (item : ℕ)
    → IsValid q
    → q.bottom - q.top < q.modulo_size
    → (push q item ≡ some (stored q item, true))
      ⊎ (push q item ≡ some (stored (caught_up q) item, true))
unfolding push
push-with_room q item v room = elim (Bool-cases (seems_full q.bottom q.top_bound q.modulo_size)) [
  | inl full ↦ inr (
      rw (check-valid q v.positive v.bound_in, full, space)
        (put-stored (caught_up q) item (caught_up-IsValid q v)))
  | inr free ↦ inl (rw (check-valid q v.positive v.bound_in, free) (put-stored q item v))
]
  where
    space : leb q.modulo_size (sub32 q.bottom q.top) ≡ false
    space = ground (arith, v)

push-full :
    (q : Dequeue) (item : ℕ)
    → IsValid q
    → q.bottom - q.top ≡ q.modulo_size
    → push q item ≡ some (caught_up q, false)
unfolding push
push-full q item v full =
    rw
      (
        check-valid q v.positive v.bound_in,
        seems,
        is_full,
        check-valid (caught_up q) v.positive (omega arith),
      )
      refl
  where
    seems : seems_full q.bottom q.top_bound q.modulo_size ≡ true
    seems = ground (arith, v)

    is_full : leb q.modulo_size (sub32 q.bottom q.top) ≡ true
    is_full = ground (arith, v)

-- A list of at most `room` elements, the owner's end last
abbrev pub spec_push : ℕ → List ℕ → ℕ → List ℕ × Bool
spec_push room items item =
    if length items == room then (items, false) else (items ++ (item ∷ []), true)

-- `pushWSDeque` of an element that is not NULL never aborts on a valid deque, as long as `bottom + 1`
-- is below 2^31. It answers false, and leaves the elements, exactly when `size - 1` of them are held;
-- else it answers true and adds the element at the owner's end. The deque stays valid.
pub push_refines_deque :
    (q : Dequeue) (item : ℕ)
    → IsValid q
    → item ≢ 0
    → q.bottom + 1 < 2 ^ 31
    → (q' : Dequeue) × (done : Bool) × (push q item ≡ some (q', done))
      × IsValid q'
      × ((contents q', done) ≡ spec_push q.modulo_size (contents q) item)
push_refines_deque q item v item_set young = elim (ℕ_discrete (q.bottom - q.top) q.modulo_size) [
  | yes full ↦ (
    caught_up q,
    false,
    push-full q item v full,
    caught_up-IsValid q v,
    ground (arith, length-contents q),
  )
  | no space ↦
      let room : q.bottom - q.top < q.modulo_size = omega (arith, v) in
      elim (push-with_room q item v room) [
        | inl e ↦ (
          stored q item,
          true,
          e,
          stored-IsValid q item v item_set young room,
          ground (arith, length-contents q, contents-stored q item v room),
        )
        | inr e ↦ (
          stored (caught_up q) item,
          true,
          e,
          stored-IsValid (caught_up q) item (caught_up-IsValid q v) item_set young room,
          ground (
            arith,
            length-contents q,
            contents-stored (caught_up q) item (caught_up-IsValid q v) room,
          ),
        )
      ]
]
