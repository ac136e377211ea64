-- ===== src/Base/Bits.antt =====
-- `&` with a mask of low ones, at variables: the remainder by a power of two.
use Prim.Native.Nat.{
  ℕ, zero, suc, ◌+◌, ◌-◌, ◌*◌, ◌/◌, ◌%◌, ◌^◌, ◌≤◌, ◌<◌, min, bit_and, digits, bit_and-bitwise,
}
use mathlib.Core.Path.{◌≡◌, refl, sym, ap, ◌∙◌}
use native.Mathlib.Omega.{arith}
use native.Mathlib.Nat.{pow-suc, one-le-pow, mod-lt, div-add-mod'}

-- The native operation stands for a recursion on binary digits, on `steps` of fuel.
abbrev and_from : ℕ → ℕ → ℕ → ℕ
and_from steps a b = digits (λ _. zero) min steps a b

and_from_enough : (m n a b : ℕ) → a ≤ m → a ≤ n → and_from m a b ≡ and_from n a b
and_from_enough zero zero a b p q = refl
and_from_enough zero (suc n) zero b p q = refl
and_from_enough zero (suc n) (suc a) b p q = elim p [ ]
and_from_enough (suc m) zero zero b p q = refl
and_from_enough (suc m) zero (suc a) b p q = elim q [ ]
and_from_enough (suc m) (suc n) zero b p q = refl
and_from_enough (suc m) (suc n) (suc a) b p q =
    omega (arith, and_from_enough m n (suc a / 2) (b / 2) (omega arith) (omega arith))

pub zero-bit_and : (b : ℕ) → bit_and 0 b ≡ 0
zero-bit_and b = bit_and-bitwise 0 b

-- The lowest digit, and the others
pub bit_and-halves : (a b : ℕ) → bit_and a b ≡ bit_and (a / 2) (b / 2) * 2 + min (a % 2) (b % 2)
bit_and-halves zero b = omega (arith, zero-bit_and b, zero-bit_and (b / 2))
bit_and-halves (suc a) b = omega (
  arith,
  bit_and-bitwise (suc a) b,
  bit_and-bitwise (suc a / 2) (b / 2),
  and_from_enough a (suc a / 2) (suc a / 2) (b / 2) (omega arith) (omega arith),
)

bit_and-zero_upto : (n a : ℕ) → a ≤ n → bit_and a 0 ≡ 0
bit_and-zero_upto zero zero p = refl
bit_and-zero_upto zero (suc a) p = elim p [ ]
bit_and-zero_upto (suc n) zero p = refl
bit_and-zero_upto (suc n) (suc a) p =
    omega (arith, bit_and-halves (suc a) 0, bit_and-zero_upto n (suc a / 2) (omega arith))

-- `P` is the power of two, so that the arithmetic stays linear in it.
mask_step :
    (q P r : ℕ)
    → 0 < P
    → r < 2 * P
    → ((2 * (q * P) + r) / 2 ≡ q * P + r / 2)
      × ((2 * P - 1) / 2 ≡ P - 1)
      × (r / 2 < P)
      × ((2 * (q * P) + r) % 2 ≡ r % 2)
      × ((2 * P - 1) % 2 ≡ 1)
mask_step q P r p h = omega arith

bit_and_low : (k q r : ℕ) → r < 2 ^ k → bit_and (q * 2 ^ k + r) (2 ^ k - 1) ≡ r
bit_and_low zero q r h =
    bit_and-zero_upto (q * 2 ^ 0 + r) (q * 2 ^ 0 + r) (omega arith) ∙ omega arith
bit_and_low (suc k) q r h =
    let wide : 2 ^ suc k ≡ 2 * 2 ^ k = omega (arith, pow-suc 2 k) in
    let many : q * 2 ^ suc k ≡ 2 * (q * 2 ^ k) =
      omega (arith, ap (λ (t : ℕ). q * t) (pow-suc 2 k)) in
    let s = mask_step q (2 ^ k) r (one-le-pow k 2 (omega arith)) (omega arith) in
    rw (many, wide, bit_and-halves, s.0, s.1, bit_and_low k q (r / 2) s.2, s.3, s.4) (omega arith)

-- `n & (2^k - 1)` is `n % 2^k`.
pub bit_and-mask : (k n : ℕ) → bit_and n (2 ^ k - 1) ≡ n % 2 ^ k
bit_and-mask k n =
    ap (λ (m : ℕ). bit_and m (2 ^ k - 1)) (sym (div-add-mod' n (2 ^ k)))
    ∙ bit_and_low k (n / 2 ^ k) (n % 2 ^ k) (mod-lt n (one-le-pow k 2 (omega arith)))
