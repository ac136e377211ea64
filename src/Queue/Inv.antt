-- ===== src/Queue/Inv.antt =====
-- The representation invariant of `struct mir_queue_t`, and what a valid queue holds.
use mir_dev.Base.{
  length, replicate, length-replicate, AllSet, u32_mod, ℕ, ◌+◌, ◌≤◌, ◌<◌, ◌≡◌, refl, ap, subst,
  none, some, List, [], arith, dec_lt,
}
use mir_dev.Queue.{Queue, create, advance}
use mir_dev.Queue.Window.{wrap, window}

-- Oldest first
abbrev pub contents : Queue → List ℕ
contents q = window q.buffer q.capacity q.out_pos q.size

pub record IsValid (q : Queue) : Type 0 where
  pub storage : q.capacity ≡ length q.buffer
  pub small : q.capacity < u32_mod
  pub out_in : q.out_pos < q.capacity
  pub size_in : q.size ≤ q.capacity
  pub in_at : q.in_pos ≡ wrap q.capacity (q.out_pos + q.size)
  pub no_null : AllSet (contents q)

-- `advance` is the step round the ring, and its addition does not wrap.
pub advance-wrap : (room i : ℕ) → room < u32_mod → i < room → advance i room ≡ wrap room (i + 1)
advance-wrap room i p q = ground arith

pub advance-lt : (room i : ℕ) → room < u32_mod → i < room → advance i room < room
advance-lt room i p q = ground arith

-- What `create` makes is valid and empty.
pub create-IsValid :
    (capacity : ℕ)
    → 0 < capacity
    → capacity < u32_mod
    → (q : Queue) × (create capacity ≡ some q)
      × IsValid q
      × (q.capacity ≡ capacity)
      × (contents q ≡ [])
unfolding create
create-IsValid capacity p small = (
  record { buffer = replicate capacity 0; capacity = capacity; size = 0; in_pos = 0; out_pos = 0 },
  ground arith,
  record {
    storage = omega (arith, length-replicate {A = ℕ} capacity 0);
    small = small;
    out_in = p;
    size_in = omega arith;
    in_at = ground arith;
    no_null = tt;
  },
  refl,
  refl,
)

create-zero : create 0 ≡ none
unfolding create
create-zero = refl

-- What `create` returns is valid and empty.
pub created-IsValid :
    (capacity : ℕ) (q : Queue)
    → create capacity ≡ some q
    → capacity < u32_mod
    → IsValid q × (q.capacity ≡ capacity) × (contents q ≡ [])
created-IsValid capacity q e small = elim (dec_lt 0 capacity) [
  | yes p ↦
      let (q', e', v, c, none_yet) = create-IsValid capacity p small in
      let same : q' ≡ q = cc in
      subst (λ r. IsValid r × (r.capacity ≡ capacity) × (contents r ≡ [])) same (v, c, none_yet)
  | no z ↦
      let zero_room : capacity ≡ 0 = omega arith in absurd (cc (create-zero, ap create zero_room))
]
