-- ===== src/Stack/Refine.antt =====
-- src/mir_stack.c against a bounded list of items, top first.
use mir_dev.Base.{
  ◌==◌, if◌then◌else◌, length, get_or, set, replicate, length-replicate, length-set,
  get_or-set_self, get_or-set_ne, AllSet, AllSet-cons, u32_mod, add32, sub32, ℕ, zero, suc, ◌-◌,
  ◌≤◌, ◌<◌, ◌≡◌, refl, sym, ap, ap₂, subst, ◌∙◌, ◌≢◌, Bool, true, false, some, List, [], ◌∷◌, arith,
  ℕ_discrete,
}
use mir_dev.Stack.{Stack, is_full, is_empty, create, store, push, pop}

-- The slots below `n`, the topmost first
abbrev pub below : List ℕ → ℕ → List ℕ
below buf zero = []
below buf (suc n) = get_or buf n 0 ∷ below buf n

abbrev pub contents : Stack → List ℕ
contents s = below s.buffer s.head

pub record IsValid (s : Stack) : Type 0 where
  pub storage : s.capacity ≡ length s.buffer
  pub small : s.capacity < u32_mod
  pub head_in : s.head ≤ s.capacity
  pub no_null : AllSet (contents s)

-- What a bounded stack promises
abbrev pub spec_push : ℕ → List ℕ → ℕ → List ℕ × Bool
spec_push capacity items item =
    if length items == capacity then (items, false) else (item ∷ items, true)

abbrev pub spec_pop : List ℕ → ℕ → List ℕ × ℕ
spec_pop [] out = ([], out)
spec_pop (item ∷ items) out = (items, item)

pub length-below : (buf : List ℕ) (n : ℕ) → length (below buf n) ≡ n
length-below buf zero = refl
length-below buf (suc n) = ap suc (length-below buf n)

below-set : (buf : List ℕ) (x i n : ℕ) → n ≤ i → below (set buf i x) n ≡ below buf n
below-set buf x i zero p = refl
below-set buf x i (suc n) p =
    ap₂ ◌∷◌ (get_or-set_ne buf i n x 0 (omega arith)) (below-set buf x i n (omega arith))

pub below-pred :
    (buf : List ℕ) (n : ℕ) → n ≢ 0 → below buf n ≡ get_or buf (n - 1) 0 ∷ below buf (n - 1)
below-pred buf zero p = absurd (p refl)
below-pred buf (suc n) p = let e : suc n - 1 ≡ n = omega arith in rw e

pub contents-store :
    (s : Stack) (item : ℕ)
    → IsValid s
    → s.head ≢ s.capacity
    → contents (store s item) ≡ item ∷ contents s
unfolding store
contents-store s item v room =
    ap (below (set s.buffer s.head item)) grow
    ∙ ap₂ ◌∷◌ (get_or-set_self s.buffer s.head item 0 (omega (arith, v.head_in, v.storage)))
        (below-set s.buffer item s.head s.head (omega arith))
  where
    grow : add32 s.head 1 ≡ suc s.head
    grow = omega (arith, v.small, v.head_in)

pub store-IsValid :
    {s : Stack} (item : ℕ) → IsValid s → item ≢ 0 → s.head ≢ s.capacity → IsValid (store s item)
unfolding store
store-IsValid {s} item v item_set room = record {
  storage = v.storage ∙ sym (length-set s.buffer s.head item);
  small = v.small;
  head_in = omega (arith, v.head_in, v.small);
  no_null = subst AllSet (sym (contents-store s item v room)) (item_set, v.no_null);
}

-- What `mir_stack_create` returns for a capacity that fits 32 bits is valid and empty; unlike a
-- queue's, a stack's capacity may be 0.
pub create-IsValid :
    (capacity : ℕ)
    → capacity < u32_mod
    → (s : Stack) × (create capacity ≡ some s) × IsValid s × (contents s ≡ [])
unfolding create
create-IsValid capacity small = (
  record { buffer = replicate capacity 0; capacity = capacity; head = 0 },
  refl,
  record {
    storage = sym (length-replicate {A = ℕ} capacity 0);
    small = small;
    head_in = omega arith;
    no_null = tt;
  },
  refl,
)

-- `mir_stack_push` never aborts on a valid stack and a pointer that is not NULL: a full stack is
-- left as it is and 0 returned, and else the pointer is put on top and 1 returned. The stack stays
-- valid.
pub push_refines_stack :
    (s : Stack) (item : ℕ)
    → IsValid s
    → item ≢ 0
    → (s' : Stack) × (done : Bool) × (push s item ≡ some (s', done))
      × IsValid s'
      × ((contents s', done) ≡ spec_push s.capacity (contents s) item)
unfolding push is_full store
push_refines_stack s item v item_set = elim (ℕ_discrete s.head s.capacity) [
  | yes full ↦ (s, false, ground arith, v, ground (arith, length-below s.buffer s.head))
  | no room ↦ (
    store s item,
    true,
    ground arith,
    store-IsValid item v item_set room,
    ground (arith, length-below s.buffer s.head, contents-store s item v room),
  )
]

-- `mir_stack_pop` never aborts on a valid stack: an empty stack is left as it is, and so is
-- `*data`; else the topmost item goes to `*data` and the others stay. The stack stays valid.
pub pop_refines_stack :
    (s : Stack) (out : ℕ)
    → IsValid s
    → (s' : Stack) × (item : ℕ) × (pop s out ≡ some (s', item))
      × IsValid s'
      × ((contents s', item) ≡ spec_pop (contents s) out)
unfolding pop is_empty
pop_refines_stack s out v = elim (ℕ_discrete s.head 0) [
  | yes empty ↦ (s, out, ground arith, v, ground (arith, ap (below s.buffer) empty))
  | no full ↦
      let shrink : sub32 s.head 1 ≡ s.head - 1 = omega (arith, v.head_in, v.small) in
      let split = below-pred s.buffer s.head full in
      let kept =
        AllSet-cons (contents s) (get_or s.buffer (s.head - 1) 0) (below s.buffer (s.head - 1))
          split v.no_null in
      (
        record s { head = sub32 s.head 1 },
        get_or s.buffer (sub32 s.head 1) 0,
        rw shrink (ground (arith, kept)),
        record {
          storage = v.storage;
          small = v.small;
          head_in = omega (arith, v.head_in);
          no_null = rw shrink kept.1;
        },
        rw shrink (rw split refl),
      )
]
