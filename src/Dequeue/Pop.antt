-- ===== src/Dequeue/Pop.antt =====
-- popWSDeque of src/mir_dequeue.c: the owner takes from its end of the list.

use mir_dev.Base.{
  AllSet, AllSet-init, sub32, ℕ, ◌+◌, ◌-◌, ◌^◌, ◌<◌, ◌≡◌, refl, sym, ap, subst, ◌∙◌, ◌≢◌, ◌⊎◌, inl,
  inr, some, [], ◌∷◌, ◌++◌, arith, dec_lt, ℕ_discrete,
}
use mir_dev.Dequeue.{Dequeue, slot, check, pop, pop_last}
use mir_dev.Dequeue.Slots.{slots, slots-last}
use mir_dev.Dequeue.Inv.{contents, IsValid, check-valid, empty_slots}

-- `top`, `bottom` and `topBound` at one position
abbrev settled : Dequeue → ℕ → Dequeue
settled q t = record q { top = t; bottom = t; top_bound = t }

-- without the owner's last element
abbrev shortened : Dequeue → Dequeue
shortened q = record q { bottom = q.bottom - 1; top_bound = q.top }

settled-IsValid : (q : Dequeue) → IsValid q → (t : ℕ) → t < 2 ^ 31 → IsValid (settled q t)
settled-IsValid q v t young = record {
  bits = v.bits;
  size_is = v.size_is;
  mask_is = v.mask_is;
  storage = v.storage;
  positive = v.positive;
  fits = v.fits;
  ordered = omega arith;
  bound_in = omega arith;
  room = omega (arith, v.positive);
  young = young;
  no_null = subst AllSet (sym (empty_slots (settled q t) (omega arith))) tt;
}

shortened-IsValid :
    (q : Dequeue)
    → IsValid q
    → q.top < q.bottom
    → AllSet (slots q.elements q.modulo_size q.top (q.bottom - q.top - 1))
    → IsValid (shortened q)
shortened-IsValid q v more kept = record {
  bits = v.bits;
  size_is = v.size_is;
  mask_is = v.mask_is;
  storage = v.storage;
  positive = v.positive;
  fits = v.fits;
  ordered = omega arith;
  bound_in = omega arith;
  room = omega (arith, v.room);
  young = omega (arith, v.young);
  no_null =
      let fewer : q.bottom - q.top - 1 ≡ q.bottom - 1 - q.top = omega arith in
      subst (λ (n : ℕ). AllSet (slots q.elements q.modulo_size q.top n)) fewer kept;
}

empty_prefix :
    (q : Dequeue)
    → q.bottom - q.top - 1 ≡ 0
    → slots q.elements q.modulo_size q.top (q.bottom - q.top - 1) ≡ []
empty_prefix q h = ap (slots q.elements q.modulo_size q.top) h

pop-empty :
    (q : Dequeue)
    → IsValid q
    → q.bottom ≢ 0
    → q.bottom ≡ q.top
    → pop q ≡ some (record q { top_bound = q.top; bottom = q.top }, 0)
unfolding pop
pop-empty q v used drained = rw (check-valid q v.positive v.bound_in) (ground (arith, v))

pop_last_lem :
    (q : Dequeue) (b : ℕ)
    → 0 < q.size
    → q.top < 2 ^ 31
    → pop_last (record q { bottom = b; top_bound = q.top }) q.top
      ≡ some (record q { top = q.top + 1; bottom = q.top + 1; top_bound = q.top + 1 }, slot q b)
unfolding pop_last check
pop_last_lem q b p h = ground arith

pop-one :
    (q : Dequeue)
    → IsValid q
    → q.top < q.bottom
    → q.bottom - 1 ≡ q.top
    → pop q ≡ some (settled q (q.top + 1), slot q (q.bottom - 1))
unfolding pop
pop-one q v more last =
    rw (check-valid q v.positive v.bound_in)
      (ground (arith, v, pop_last_lem q (sub32 q.bottom 1) v.positive))

pop-many :
    (q : Dequeue)
    → IsValid q
    → q.top < q.bottom
    → q.bottom - 1 ≢ q.top
    → pop q ≡ some (shortened q, slot q (q.bottom - 1))
unfolding pop
pop-many q v more others =
    let down : sub32 q.bottom 1 ≡ q.bottom - 1 = omega (arith, v.young) in
    rw (check-valid q v.positive v.bound_in, down) (ground arith)

-- `popWSDeque` never aborts on a valid deque whose `bottom` is not 0. On an empty one it returns
-- NULL; else it returns the element at the owner's end and leaves the others. The deque stays valid.
pub pop_refines_deque :
    (q : Dequeue)
    → IsValid q
    → q.bottom ≢ 0
    → (q' : Dequeue) × (item : ℕ) × (pop q ≡ some (q', item))
      × IsValid q'
      × (((contents q ≡ []) × (contents q' ≡ []) × (item ≡ 0))
          ⊎ ((contents q ≡ contents q' ++ (item ∷ [])) × (item ≢ 0)))
pop_refines_deque q v used = elim (dec_lt q.top q.bottom) [
  | no drained ↦ (
    record q { top_bound = q.top; bottom = q.top },
    0,
    pop-empty q v used (omega (arith, v.ordered)),
    settled-IsValid q v q.top (omega (arith, v)),
    inl (empty_slots q (omega arith), empty_slots (settled q q.top) (omega arith), refl),
  )
  | yes more ↦
      let b : ℕ = q.bottom - 1 in
      let split =
        slots-last q.elements q.modulo_size q.top (q.bottom - q.top) b (omega arith)
          (omega arith) in
      let kept =
        AllSet-init (slots q.elements q.modulo_size q.top (q.bottom - q.top - 1)) (slot q b)
          (subst AllSet split v.no_null) in
      elim (ℕ_discrete b q.top) [
        | yes last ↦ (
          settled q (q.top + 1),
          slot q b,
          pop-one q v more last,
          settled-IsValid q v (q.top + 1) (omega (arith, v)),
          inr (
            split
                ∙ ap (λ xs. xs ++ (slot q b ∷ []))
                    (empty_prefix q (omega arith)
                      ∙ sym (empty_slots (settled q (q.top + 1)) (omega arith))),
            kept.1,
          ),
        )
        | no others ↦ (
          shortened q,
          slot q b,
          pop-many q v more others,
          shortened-IsValid q v more kept.0,
          inr (
            split
                ∙ ap (λ (n : ℕ). slots q.elements q.modulo_size q.top n ++ (slot q b ∷ []))
                    (omega arith),
            kept.1,
          ),
        )
      ]
]
