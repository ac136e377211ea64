-- ===== src/Dequeue/Steal.antt =====
-- stealWSDeque of src/mir_dequeue.c: a thief takes from the other end.

use mir_dev.Base.{
  AllSet-cons, add32, ℕ, suc, ◌+◌, ◌-◌, ◌^◌, ◌<◌, ◌≡◌, refl, sym, ap, ◌∙◌, ◌≢◌, ◌⊎◌, inl, inr, some,
  [], ◌∷◌, arith, dec_lt,
}
use mir_dev.Dequeue.{Dequeue, slot, steal_once, steal, looks_empty}
use mir_dev.Dequeue.Slots.{slots, slots-pred}
use mir_dev.Dequeue.Inv.{contents, IsValid, empty_slots}

contents-cons :
    (q : Dequeue)
    → q.top < q.bottom
    → q.top + 1 < 2 ^ 32
    → contents q ≡ slot q q.top ∷ contents (record q { top = add32 q.top 1 })
contents-cons q h w =
    let up : add32 q.top 1 ≡ q.top + 1 = omega arith in
    let less : q.bottom - q.top - 1 ≡ q.bottom - (q.top + 1) = omega arith in
    slots-pred q.elements q.modulo_size q.top (q.bottom - q.top) (omega arith)
    ∙ ap (λ xs. slot q q.top ∷ xs)
        (ap (slots q.elements q.modulo_size (q.top + 1)) less
          ∙ ap (λ (t : ℕ). slots q.elements q.modulo_size t (q.bottom - t)) (sym up))

-- `stealWSDeque` on a valid deque returns at its first try: NULL if the deque is empty, which it
-- leaves as it is, and else the oldest element, leaving the others. The deque stays valid.
pub steal_refines :
    (fuel : ℕ) (q : Dequeue)
    → IsValid q
    → (q' : Dequeue) × (item : ℕ) × (steal (suc fuel) q ≡ some (q', item))
      × IsValid q'
      × (((contents q ≡ []) × (q' ≡ q) × (item ≡ 0))
          ⊎ ((contents q ≡ item ∷ contents q') × (item ≢ 0)))
unfolding steal steal_once looks_empty
steal_refines fuel q v = elim (dec_lt q.top q.bottom) [
  | yes more ↦
      let split = contents-cons q more (omega (arith, v)) in
      let kept =
        AllSet-cons (contents q) (slot q q.top) (contents (record q { top = add32 q.top 1 })) split
          v.no_null in
      (
        record q { top = add32 q.top 1 },
        slot q q.top,
        ground (arith, kept.0),
        record {
          bits = v.bits;
          size_is = v.size_is;
          mask_is = v.mask_is;
          storage = v.storage;
          positive = v.positive;
          fits = v.fits;
          ordered = omega (arith, v);
          bound_in = omega (arith, v);
          room = omega (arith, v);
          young = v.young;
          no_null = kept.1;
        },
        inr (split, kept.0),
      )
  | no drained ↦ (q, 0, ground arith, v, inl (empty_slots q (omega arith), refl, refl))
]
