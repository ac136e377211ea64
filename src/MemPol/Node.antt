-- ===== src/MemPol/Node.antt =====
-- src/mir_mem_pol.c: the loop of `advance_node`, and the round of the nodes.
use mir_dev.Base.{
  ltb, if◌then◌else◌, lt→ltb, Bool-cases, All, u16_mod, add16, ℕ, zero, suc, ◌+◌, ◌-◌, ◌%◌, ◌≤◌,
  ◌<◌, ◌≡◌, refl, sym, subst, ◌∙◌, inl, inr, true, false, some, List, [], ◌∷◌, arith, dec_lt,
  ℕ_discrete, mod-eq_of_lt,
}
use native.Mathlib.Nat.{mod_self}
use mir_dev.MemPol.Alloc.{has, advance}

-- The node after `d` steps
abbrev pub step_on : ℕ → ℕ → ℕ → ℕ
step_on n node d = if ltb (node + d) n then node + d else node + d - n

-- The nodes of the first `d` steps, the last first
abbrev pub steps : ℕ → ℕ → ℕ → List ℕ
steps n node zero = []
steps n node (suc d) = step_on n node (suc d) ∷ steps n node d

wraps : (n x : ℕ) → x < n → n < u16_mod → add16 x 1 % n ≡ (if ltb (x + 1) n then x + 1 else 0)
wraps n x p small = elim (dec_lt (x + 1) n) [
  | yes q ↦
      let t = lt→ltb (x + 1) n q in
      let e : add16 x 1 ≡ x + 1 = omega arith in rw (e, t) (mod-eq_of_lt q)
  | no q ↦
      let t : ltb (x + 1) n ≡ false = ground arith in
      let e : add16 x 1 ≡ n = omega arith in rw (e, t) (mod_self n)
]

next :
    (n node d : ℕ)
    → node < n
    → d < n
    → n < u16_mod
    → add16 (step_on n node d) 1 % n ≡ step_on n node (suc d)
next n node d p q small = wraps n (step_on n node d) (ground arith) small ∙ ground arith

back : ℕ → ℕ → ℕ → ℕ
back n node m = if ltb node m then m - node else m + n - node

step_on-back :
    (n node m : ℕ)
    → node < n
    → m < n
    → (0 < back n node m) × (back n node m ≤ n) × (step_on n node (back n node m) ≡ m)
unfolding back
step_on-back n node m p q = ground arith

-- No worker is on any of these nodes.
abbrev pub Unused : List ℕ → List ℕ → Type 0
Unused worker_nodes = All (λ x. has x worker_nodes ≡ false)

off_at :
    (ws : List ℕ) (n node d j : ℕ)
    → 0 < j
    → j ≤ d
    → Unused ws (steps n node d)
    → has (step_on n node j) ws ≡ false
off_at ws n node zero j p q h = absurd (omega arith)
off_at ws n node (suc d) j p q h = elim (ℕ_discrete j (suc d)) [
  | yes e ↦ subst (λ j. has (step_on n node j) ws ≡ false) (sym e) h.0
  | no e ↦ off_at ws n node d j p (omega arith) h.1
]

module _ (n node used : ℕ) (ws : List ℕ) (start : node < n) (small : n < u16_mod)
    (in_range : used < n) (on : has used ws ≡ true) where
  advance_from :
      (fuel d : ℕ)
      → fuel + d ≡ n
      → Unused ws (steps n node d)
      → (k : ℕ) × (k < n)
        × (advance n fuel ws (step_on n node d) ≡ some (step_on n node (suc k)))
        × (has (step_on n node (suc k)) ws ≡ true)
        × Unused ws (steps n node k)
  unfolding advance
  advance_from zero d f h =
      let (p, q, e) = step_on-back n node used start in_range in
      let off = off_at ws n node d (back n node used) p (omega arith) h in
      absurd (ground (arith, e, off, on))
  advance_from (suc fuel) d f h =
      let t = next n node d start (omega arith) small in
      elim (Bool-cases (has (step_on n node (suc d)) ws)) [
        | inl yes_here ↦ (d, omega arith, rw (t, yes_here) refl, yes_here, h)
        | inr not_here ↦
            let (k, q, e, o, u) = advance_from fuel (suc d) (omega arith) (not_here, h) in
            (k, q, rw (t, not_here) e, o, u)
      ]

  -- From a node below their number n < 2^16, with a worker on some node: `advance_node` ends, at
  -- the first node after it in the round of the n nodes that a worker is on, which may be the same.
  pub advance_next :
      (k : ℕ) × (k < n)
      × (advance n n ws node ≡ some (step_on n node (suc k)))
      × (has (step_on n node (suc k)) ws ≡ true)
      × Unused ws (steps n node k)
  advance_next =
      let (k, q, e, o, u) = advance_from n 0 (omega arith) tt in
      let here : step_on n node 0 ≡ node = ground arith in
      (k, q, subst (λ x. advance n n ws x ≡ some (step_on n node (suc k))) here e, o, u)
