-- ===== src/Queue/Window.antt =====
-- The occupied part of a circular buffer, read in order.
use mir_dev.Base.{
  ℕ, zero, suc, ◌+◌, ◌-◌, ◌*◌, ◌≤◌, ◌<◌, ◌≡◌, refl, ap, ap₂, ◌≢◌, List, [], ◌∷◌, ◌++◌, arith, leb,
  if◌then◌else◌, length, get_or, set, get_or-set_self, get_or-set_ne, ◌∙◌, subst, sym, dec_lt,
}

-- Positions run from the first occupied slot on, past the end of the buffer; `wrap` folds them.
abbrev pub wrap : ℕ → ℕ → ℕ
wrap room i = if leb room i then i - room else i

-- `n` slots from position `h` on
abbrev pub window : List ℕ → ℕ → ℕ → ℕ → List ℕ
window buf room h zero = []
window buf room h (suc n) = get_or buf (wrap room h) 0 ∷ window buf room (h + 1) n

pub length-window : (buf : List ℕ) (room h n : ℕ) → length (window buf room h n) ≡ n
length-window buf room h zero = refl
length-window buf room h (suc n) = ap suc (length-window buf room (h + 1) n)

pub window-pred :
    (buf : List ℕ) (room h n : ℕ)
    → n ≢ 0
    → window buf room h n ≡ get_or buf (wrap room h) 0 ∷ window buf room (h + 1) (n - 1)
window-pred buf room h zero p = absurd (p refl)
window-pred buf room h (suc n) p = ap (λ k. window buf room h (suc k)) (omega arith)

fold_first : (room h : ℕ) → h < room → wrap room (room + h) ≡ wrap room h
fold_first room h p = ground arith

-- A window that starts past the end starts at the front.
pub window_fold :
    (buf : List ℕ) (room h k n : ℕ)
    → k ≡ room + h
    → h + n ≤ room
    → window buf room k n ≡ window buf room h n
window_fold buf room h k zero e p = refl
window_fold buf room h k (suc n) e p =
    ap₂ ◌∷◌ (rw e (ap (λ i. get_or buf i 0) (fold_first room h (omega arith))))
      (window_fold buf room (h + 1) (k + 1) n (omega arith) (omega arith))

wrap-ne : (room h j : ℕ) → h < j → j < h + room → j < 2 * room → wrap room j ≢ wrap room h
wrap-ne room h j p q r = ground arith

-- A write outside the window is not seen in it.
pub window-set_ne :
    (buf : List ℕ) (room x h n j : ℕ)
    → h + n ≤ j
    → j < h + room
    → j < 2 * room
    → window (set buf (wrap room j) x) room h n ≡ window buf room h n
window-set_ne buf room x h zero j p q r = refl
window-set_ne buf room x h (suc n) j p q r =
    ap₂ ◌∷◌ (get_or-set_ne buf (wrap room j) (wrap room h) x 0 (wrap-ne room h j (omega arith) q r))
      (window-set_ne buf room x (h + 1) n j (omega arith) (omega arith) r)

-- A window one slot longer ends with that slot.
pub window-snoc :
    (buf : List ℕ) (room h n j : ℕ)
    → j ≡ h + n
    → window buf room h (suc n) ≡ window buf room h n ++ (get_or buf (wrap room j) 0 ∷ [])
window-snoc buf room h zero j e = let e' : h ≡ j = omega arith in rw e'
window-snoc buf room h (suc n) j e =
    ap (λ xs. get_or buf (wrap room h) 0 ∷ xs) (window-snoc buf room (h + 1) n j (omega arith))

wrap-lt : (room j : ℕ) → j < 2 * room → wrap room j < room
wrap-lt room j p = ground arith

-- Writing just past a window extends it by what is written.
pub window-set :
    (buf : List ℕ) (room x h n i : ℕ)
    → room ≡ length buf
    → i ≡ wrap room (h + n)
    → h < room
    → n < room
    → window (set buf i x) room h (suc n) ≡ window buf room h n ++ (x ∷ [])
window-set buf room x h n i s e p q =
    subst (λ k. window (set buf k x) room h (suc n) ≡ window buf room h n ++ (x ∷ [])) (sym e)
      (window-snoc (set buf (wrap room (h + n)) x) room h n (h + n) refl
        ∙ ap₂ (λ xs y. xs ++ (y ∷ []))
            (window-set_ne buf room x h n (h + n) (omega arith) (omega arith) (omega arith))
            (get_or-set_self buf (wrap room (h + n)) x 0
              (omega (arith, wrap-lt room (h + n) (omega arith)))))

-- A window that starts at the end of the buffer, or before, may start at the folded position.
pub window-wrap :
    (buf : List ℕ) (room h n : ℕ)
    → h ≤ room
    → n ≤ room
    → window buf room h n ≡ window buf room (wrap room h) n
window-wrap buf room h n p q = elim (dec_lt h room) [
  | yes below ↦ let e : wrap room h ≡ h = ground arith in rw e
  | no top ↦
      let e : wrap room h ≡ 0 = ground arith in
      rw e (window_fold buf room 0 h n (omega arith) (omega arith))
]
