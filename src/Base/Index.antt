-- ===== src/Base/Index.antt =====
-- Arrays of structs: an access out of bounds is a fault; totals over an array.
use Prim.Native.Nat.{ℕ, zero, suc, ◌+◌, ◌≤◌, ◌<◌}
use mathlib.Core.Path.{◌≡◌, refl, sym, ap, subst}
use mathlib.Core.Logic.{◌≢◌, ◌⊎◌, inl, inr}
use mathlib.Core.Option.{Option, none, some}
use mathlib.Core.List.{List, [], ◌∷◌, ◌++◌}
use native.Mathlib.Omega.{arith}
use mir_dev.Base.Lists.{length, set, All}

module _ {ℓ} {A : Type ℓ} where
  abbrev pub nth : List A → ℕ → Option A
  nth [] i = none
  nth (x ∷ xs) zero = some x
  nth (x ∷ xs) (suc i) = nth xs i

  abbrev pub update : List A → ℕ → (A → A) → List A
  update [] i f = []
  update (x ∷ xs) zero f = f x ∷ xs
  update (x ∷ xs) (suc i) f = x ∷ update xs i f

  abbrev pub total : (A → ℕ) → List A → ℕ
  total f [] = 0
  total f (x ∷ xs) = f x + total f xs

module _ {ℓ} {A : Type ℓ} where
  pub length-update : (xs : List A) (i : ℕ) (f : A → A) → length (update xs i f) ≡ length xs
  length-update [] i f = refl
  length-update (x ∷ xs) zero f = refl
  length-update (x ∷ xs) (suc i) f = ap suc (length-update xs i f)

  pub nth-lt : (xs : List A) (i : ℕ) → i < length xs → (x : A) × (nth xs i ≡ some x)
  nth-lt [] i p = absurd (omega arith)
  nth-lt (x ∷ xs) zero p = (x, refl)
  nth-lt (x ∷ xs) (suc i) p = nth-lt xs i (omega arith)

  pub nth-bound : (xs : List A) (i : ℕ) (x : A) → nth xs i ≡ some x → i < length xs
  nth-bound [] i x e = ground arith
  nth-bound (y ∷ ys) zero x e = omega arith
  nth-bound (y ∷ ys) (suc i) x e = let r = nth-bound ys i x e in omega arith

  pub nth-update_self :
      (xs : List A) (i : ℕ) (x : A) (f : A → A)
      → nth xs i ≡ some x
      → nth (update xs i f) i ≡ some (f x)
  nth-update_self [] i x f e = ground arith
  nth-update_self (y ∷ ys) zero x f e = let g : y ≡ x = cc in ap (λ z. some (f z)) g
  nth-update_self (y ∷ ys) (suc i) x f e = nth-update_self ys i x f e

  pub nth-update_ne : (xs : List A) (i j : ℕ) (f : A → A) → i ≢ j → nth (update xs i f) j ≡ nth xs j
  nth-update_ne [] i j f p = refl
  nth-update_ne (x ∷ xs) zero zero f p = absurd (p refl)
  nth-update_ne (x ∷ xs) zero (suc j) f p = refl
  nth-update_ne (x ∷ xs) (suc i) zero f p = refl
  nth-update_ne (x ∷ xs) (suc i) (suc j) f p = nth-update_ne xs i j f (λ e. p (ap suc e))

  pub nth-update_absent :
      (xs : List A) (i j : ℕ) (f : A → A) → nth xs j ≡ none → nth (update xs i f) j ≡ none
  nth-update_absent [] i j f e = refl
  nth-update_absent (x ∷ xs) zero zero f e = absurd (ground arith)
  nth-update_absent (x ∷ xs) zero (suc j) f e = e
  nth-update_absent (x ∷ xs) (suc i) zero f e = e
  nth-update_absent (x ∷ xs) (suc i) (suc j) f e = nth-update_absent xs i j f e

  pub nth-append_left :
      (xs ys : List A) (i : ℕ) (x : A) → nth xs i ≡ some x → nth (xs ++ ys) i ≡ some x
  nth-append_left [] ys i x e = ground arith
  nth-append_left (y ∷ xs) ys zero x e = e
  nth-append_left (y ∷ xs) ys (suc i) x e = nth-append_left xs ys i x e

  pub nth-append_last : (xs : List A) (y : A) → nth (xs ++ (y ∷ [])) (length xs) ≡ some y
  nth-append_last [] y = refl
  nth-append_last (x ∷ xs) y = nth-append_last xs y

  pub nth-append_cases :
      (xs : List A) (y : A) (i : ℕ) (t : A)
      → nth (xs ++ (y ∷ [])) i ≡ some t
      → (nth xs i ≡ some t) ⊎ ((i ≡ length xs) × (t ≡ y))
  nth-append_cases [] y zero t e = inr (refl, cc)
  nth-append_cases [] y (suc i) t e = absurd (ground arith)
  nth-append_cases (x ∷ xs) y zero t e = inl e
  nth-append_cases (x ∷ xs) y (suc i) t e = elim (nth-append_cases xs y i t e) [
    | inl f ↦ inl f
    | inr (f, g) ↦ inr (ap suc f, g)
  ]

  pub nth-update_cases :
      (xs : List A) (j : ℕ) (f : A → A) (i : ℕ) (t : A)
      → nth (update xs j f) i ≡ some t
      → ((i ≡ j) × (u : A) × (nth xs i ≡ some u) × (t ≡ f u)) ⊎ ((i ≢ j) × (nth xs i ≡ some t))
  nth-update_cases [] j f i t e = absurd (ground arith)
  nth-update_cases (x ∷ xs) zero f zero t e = inl (refl, x, refl, cc)
  nth-update_cases (x ∷ xs) zero f (suc i) t e = inr ((λ h. absurd (omega arith)), e)
  nth-update_cases (x ∷ xs) (suc j) f zero t e = inr ((λ h. absurd (omega arith)), e)
  nth-update_cases (x ∷ xs) (suc j) f (suc i) t e = elim (nth-update_cases xs j f i t e) [
    | inl (h, u, g, k) ↦ inl (ap suc h, u, g, k)
    | inr (h, g) ↦ inr ((λ k. h (omega arith)), g)
  ]

  pub nth-set_self : (xs : List A) (i : ℕ) (v : A) → i < length xs → nth (set xs i v) i ≡ some v
  nth-set_self [] i v p = absurd (omega arith)
  nth-set_self (x ∷ xs) zero v p = refl
  nth-set_self (x ∷ xs) (suc i) v p = nth-set_self xs i v (omega arith)

  pub set_same : (xs : List A) (i : ℕ) (x : A) → nth xs i ≡ some x → set xs i x ≡ xs
  set_same [] i x e = refl
  set_same (y ∷ ys) zero x e = let g : y ≡ x = cc in ap (λ z. z ∷ ys) (sym g)
  set_same (y ∷ ys) (suc i) x e = ap (λ zs. y ∷ zs) (set_same ys i x e)

  pub nth-set_ne : (xs : List A) (i j : ℕ) (v : A) → i ≢ j → nth (set xs i v) j ≡ nth xs j
  nth-set_ne [] i j v p = refl
  nth-set_ne (x ∷ xs) zero zero v p = absurd (p refl)
  nth-set_ne (x ∷ xs) zero (suc j) v p = refl
  nth-set_ne (x ∷ xs) (suc i) zero v p = refl
  nth-set_ne (x ∷ xs) (suc i) (suc j) v p = nth-set_ne xs i j v (λ e. p (ap suc e))

  pub total-set :
      (f : A → ℕ) (xs : List A) (i : ℕ) (x v : A)
      → nth xs i ≡ some x
      → total f (set xs i v) + f x ≡ total f xs + f v
  total-set f [] i x v e = ground arith
  total-set f (y ∷ ys) zero x v e = let g : y ≡ x = cc in let h = ap f g in omega arith
  total-set f (y ∷ ys) (suc i) x v e = let r = total-set f ys i x v e in omega arith

  pub total-update :
      (f : A → ℕ) (xs : List A) (i : ℕ) (x : A) (g : A → A)
      → nth xs i ≡ some x
      → total f (update xs i g) + f x ≡ total f xs + f (g x)
  total-update f [] i x g e = ground arith
  total-update f (y ∷ ys) zero x g e =
      let same : y ≡ x = cc in let h = ap f same in let k = ap (λ z. f (g z)) same in omega arith
  total-update f (y ∷ ys) (suc i) x g e = let r = total-update f ys i x g e in omega arith

  pub le-total : (f : A → ℕ) (xs : List A) (i : ℕ) (x : A) → nth xs i ≡ some x → f x ≤ total f xs
  le-total f [] i x e = ground arith
  le-total f (y ∷ ys) zero x e = let same : y ≡ x = cc in let h = ap f same in omega arith
  le-total f (y ∷ ys) (suc i) x e = let r = le-total f ys i x e in omega arith

module _ {ℓ κ} {A : Type ℓ} (P : A → Type κ) where
  pub All-nth : (xs : List A) (i : ℕ) (x : A) → All P xs → nth xs i ≡ some x → P x
  All-nth [] i x h e = ground arith
  All-nth (y ∷ ys) zero x h e = let g : y ≡ x = cc in subst P g h.0
  All-nth (y ∷ ys) (suc i) x h e = All-nth ys i x h.1 e

  pub All-set : (xs : List A) (i : ℕ) (v : A) → All P xs → P v → All P (set xs i v)
  All-set [] i v h p = h
  All-set (y ∷ ys) zero v h p = (p, h.1)
  All-set (y ∷ ys) (suc i) v h p = (h.0, All-set ys i v h.1 p)

  pub All-intro : (xs : List A) → ((i : ℕ) (x : A) → nth xs i ≡ some x → P x) → All P xs
  All-intro [] h = tt
  All-intro (x ∷ xs) h = (h 0 x refl, All-intro xs (λ i y e. h (suc i) y e))
