-- ===== src/Queue/Bag.antt =====
-- src/mir_queue.c as the scheduling policies see it: what a call adds to the items, or takes.
use mir_dev.Base.{
  length, get_or, AllSet-cons, count, count-append, ℕ, suc, ◌+◌, ◌≡◌, sym, ◌≢◌, ◌⊎◌, inl, inr, true,
  false, some, [], ◌∷◌, arith, ℕ_discrete,
}
use mir_dev.Queue.{Queue, push, pop, size_of, is_full, is_empty, store, unload}
use mir_dev.Queue.Inv.{IsValid, contents}
use mir_dev.Queue.Refine.{
  contents-store, store-IsValid, contents-unload, unload-IsValid, length-contents,
}

pub size_of-length : (q : Queue) → size_of q ≡ length (contents q)
unfolding size_of
size_of-length q = sym (length-contents q)

pub push_bag :
    (q : Queue) (task : ℕ)
    → IsValid q
    → task ≢ 0
    → (push q task ≡ some (q, false))
      ⊎ ((q' : Queue) × (push q task ≡ some (q', true))
          × IsValid q'
          × ((x : ℕ) → count x (contents q') ≡ count x (contents q) + count x (task ∷ []))
          × (size_of q' ≡ suc (size_of q)))
unfolding push is_full size_of store
push_bag q task v is_task = elim (ℕ_discrete q.size q.capacity) [
  | yes full ↦ inl (ground arith)
  | no room ↦ inr (
    store q task,
    ground arith,
    store-IsValid task v is_task room,
    (λ x. rw (contents-store task v room) (count-append x (contents q) (task ∷ []))),
    omega (arith, v.size_in, v.small),
  )
]

pub pop_bag :
    (q : Queue) (out : ℕ)
    → IsValid q
    → size_of q ≢ 0
    → (q' : Queue) × (task : ℕ) × (pop q out ≡ some (q', task))
      × (task ≢ 0)
      × IsValid q'
      × ((x : ℕ) → count x (contents q) ≡ count x (contents q') + count x (task ∷ []))
      × (size_of q ≡ suc (size_of q'))
unfolding pop is_empty size_of unload
pop_bag q out v full =
    let kept = AllSet-cons (contents q) _ _ (contents-unload v full) v.no_null in
    (
      unload q,
      get_or q.buffer q.out_pos 0,
      ground (arith, kept),
      kept.0,
      unload-IsValid v full,
      (λ x. rw (contents-unload v full) (omega arith)),
      omega (arith, v.size_in, v.small),
    )
