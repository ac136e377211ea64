-- ===== src/Dequeue/Slots.antt =====
-- The elements of a deque, from `top` on, as a list: positions go up for ever, and `&` with
-- `moduloSize` brings them into the array.
use Prim.Native.Nat.{bit_and}
use mir_dev.Base.{
  length, get_or, set, get_or-set_self, get_or-set_ne, ℕ, zero, suc, ◌+◌, ◌-◌, ◌/◌, ◌%◌, ◌^◌, ◌≤◌,
  ◌<◌, ◌≡◌, refl, sym, ap, ap₂, subst, ◌∙◌, ◌≢◌, List, [], ◌∷◌, ◌++◌, arith, dec_lt,
}
use mir_dev.Base.Bits.{bit_and-mask}
use native.Mathlib.Nat.{mod-lt, div-add-mod, mul-le-mul_left, mul-add, one-le-pow}

module _ (buf : List ℕ) (mask : ℕ) where
  -- `n` elements from position `t` on
  abbrev pub slots : ℕ → ℕ → List ℕ
  slots t zero = []
  slots t (suc n) = get_or buf (bit_and t mask) 0 ∷ slots (t + 1) n

  pub length-slots : (t n : ℕ) → length (slots t n) ≡ n
  length-slots t zero = refl
  length-slots t (suc n) = ap suc (length-slots (t + 1) n)

  pub slots-pred :
      (t n : ℕ) → n ≢ 0 → slots t n ≡ get_or buf (bit_and t mask) 0 ∷ slots (t + 1) (n - 1)
  slots-pred t zero p = absurd (p refl)
  slots-pred t (suc n) p = ap (λ k. slots t (suc k)) (omega arith)

  pub slots-snoc :
      (t n j : ℕ) → j ≡ t + n → slots t (suc n) ≡ slots t n ++ (get_or buf (bit_and j mask) 0 ∷ [])
  slots-snoc t zero j e = let e' : t ≡ j = omega arith in rw e'
  slots-snoc t (suc n) j e =
      ap (λ xs. get_or buf (bit_and t mask) 0 ∷ xs) (slots-snoc (t + 1) n j (omega arith))

-- Two positions less than the size apart share no slot.
mod-ne : (s i j : ℕ) → 0 < s → i < j → j < i + s → j % s ≢ i % s
mod-ne s i j pos p q e = elim (dec_lt (i / s) (j / s)) [
  | yes above ↦ omega (
    arith,
    div-add-mod i s,
    div-add-mod j s,
    mul-le-mul_left {m = i / s + 1} {n = j / s} s (omega arith),
    mul-add s (i / s) 1,
  )
  | no level ↦ omega (
    arith,
    div-add-mod i s,
    div-add-mod j s,
    mul-le-mul_left {m = j / s} {n = i / s} s (omega arith),
  )
]

pub mask-ne : (k i j : ℕ) → i < j → j < i + 2 ^ k → bit_and j (2 ^ k - 1) ≢ bit_and i (2 ^ k - 1)
mask-ne k i j p q e =
    mod-ne (2 ^ k) i j (one-le-pow k 2 (omega arith)) p q
      (sym (bit_and-mask k j) ∙ (e ∙ bit_and-mask k i))

pub mask-lt : (k i : ℕ) → bit_and i (2 ^ k - 1) < 2 ^ k
mask-lt k i = rw (bit_and-mask k i) (mod-lt i (one-le-pow k 2 (omega arith)))

-- A write outside the occupied slots is not seen in them.
pub slots-set_ne :
    (buf : List ℕ) (k x t n j : ℕ)
    → t + n ≤ j
    → j < t + 2 ^ k
    → slots (set buf (bit_and j (2 ^ k - 1)) x) (2 ^ k - 1) t n ≡ slots buf (2 ^ k - 1) t n
slots-set_ne buf k x t zero j p q = refl
slots-set_ne buf k x t (suc n) j p q =
    ap₂ ◌∷◌
      (get_or-set_ne buf (bit_and j (2 ^ k - 1)) (bit_and t (2 ^ k - 1)) x 0
        (mask-ne k t j (omega arith) q))
      (slots-set_ne buf k x (t + 1) n j (omega arith) (omega arith))

-- A write at the first free position extends the occupied slots.
pub slots-set :
    (buf : List ℕ) (k x t n j : ℕ)
    → length buf ≡ 2 ^ k
    → j ≡ t + n
    → n < 2 ^ k
    → slots (set buf (bit_and j (2 ^ k - 1)) x) (2 ^ k - 1) t (suc n)
      ≡ slots buf (2 ^ k - 1) t n ++ (x ∷ [])
slots-set buf k x t n j s e p =
    slots-snoc (set buf (bit_and j (2 ^ k - 1)) x) (2 ^ k - 1) t n j e
    ∙ ap₂ (λ xs y. xs ++ (y ∷ [])) (slots-set_ne buf k x t n j (omega arith) (omega arith))
        (get_or-set_self buf (bit_and j (2 ^ k - 1)) x 0 (omega (arith, mask-lt k j)))

-- The same for a mask that is known by an equation
pub slots-put :
    (buf : List ℕ) (k mask x t n j : ℕ)
    → mask ≡ 2 ^ k - 1
    → length buf ≡ 2 ^ k
    → j ≡ t + n
    → n < 2 ^ k
    → slots (set buf (bit_and j mask) x) mask t (suc n) ≡ slots buf mask t n ++ (x ∷ [])
slots-put buf k mask x t n j m s e p =
    subst (λ m'. slots (set buf (bit_and j m') x) m' t (suc n) ≡ slots buf m' t n ++ (x ∷ []))
      (sym m) (slots-set buf k x t n j s e p)

-- The last element
pub slots-last :
    (buf : List ℕ) (mask t n j : ℕ)
    → n ≢ 0
    → j + 1 ≡ t + n
    → slots buf mask t n ≡ slots buf mask t (n - 1) ++ (get_or buf (bit_and j mask) 0 ∷ [])
slots-last buf mask t zero j p e = absurd (p refl)
slots-last buf mask t (suc n) j p e =
    let down : suc n - 1 ≡ n = omega arith in rw down (slots-snoc buf mask t n j (omega arith))
