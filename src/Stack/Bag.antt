-- ===== src/Stack/Bag.antt =====
-- src/mir_stack.c as the scheduling policies see it: what a call adds to the items, or takes.
use mir_dev.Base.{
  length, get_or, AllSet-cons, sub32, count, ℕ, suc, ◌+◌, ◌-◌, ◌≡◌, sym, ◌≢◌, ◌⊎◌, inl, inr, true,
  false, some, [], ◌∷◌, arith, ℕ_discrete,
}
use mir_dev.Stack.{Stack, push, pop, size_of, is_full, is_empty, store}
use mir_dev.Stack.Refine.{
  IsValid, contents, contents-store, below, below-pred, length-below, store-IsValid,
}

pub size_of-length : (s : Stack) → size_of s ≡ length (contents s)
unfolding size_of
size_of-length s = sym (length-below s.buffer s.head)

pub push_bag :
    (s : Stack) (task : ℕ)
    → IsValid s
    → task ≢ 0
    → (push s task ≡ some (s, false))
      ⊎ ((s' : Stack) × (push s task ≡ some (s', true))
          × IsValid s'
          × ((x : ℕ) → count x (contents s') ≡ count x (contents s) + count x (task ∷ []))
          × (size_of s' ≡ suc (size_of s)))
unfolding push is_full size_of store
push_bag s task v is_task = elim (ℕ_discrete s.head s.capacity) [
  | yes full ↦ inl (ground arith)
  | no room ↦ inr (
    store s task,
    ground arith,
    store-IsValid task v is_task room,
    (λ x. rw (contents-store s task v room) (omega arith)),
    omega (arith, v.head_in, v.small),
  )
]

pub pop_bag :
    (s : Stack) (out : ℕ)
    → IsValid s
    → size_of s ≢ 0
    → (s' : Stack) × (task : ℕ) × (pop s out ≡ some (s', task))
      × (task ≢ 0)
      × IsValid s'
      × ((x : ℕ) → count x (contents s) ≡ count x (contents s') + count x (task ∷ []))
      × (size_of s ≡ suc (size_of s'))
unfolding pop is_empty size_of
pop_bag s out v full =
    let shrink : sub32 s.head 1 ≡ s.head - 1 = omega (arith, v.head_in, v.small) in
    let split = below-pred s.buffer s.head full in
    let kept =
      AllSet-cons (contents s) (get_or s.buffer (s.head - 1) 0) (below s.buffer (s.head - 1)) split
        v.no_null in
    (
      record s { head = sub32 s.head 1 },
      get_or s.buffer (sub32 s.head 1) 0,
      rw shrink (ground (arith, kept)),
      rw shrink kept.0,
      record {
        storage = v.storage;
        small = v.small;
        head_in = omega (arith, v.head_in);
        no_null = rw shrink kept.1;
      },
      (λ x. rw (shrink, split) (omega arith)),
      omega (arith, v.head_in, v.small),
    )
