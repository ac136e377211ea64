-- ===== src/Sched/Policy/Name.antt =====
-- src/scheduling/mir_sched_pol.c: the names and the policies that are found by them.
use mir_dev.Base.{
  ◌==◌, if◌then◌else◌, ℕ, ◌≡◌, refl, sym, ap, ap₂, subst, ◌∙◌, ◌↔◌, ◌⊎◌, inl, inr, Bool, true,
  false, ◌&&◌, Option, none, some, List, [], ◌∷◌, ◌++◌, arith, ℕ_discrete,
}
use mir_dev.Sched.Policy.{
  Policy, policy_central, policy_ws, policy_numa, policy_central_stack, policy_ws_de,
  policy_ws_de_node, central_text, stack_text, ws_text, de_text, node_text, numa_text, name_of,
  same_text, get_by_name,
}

same_text-eq : (xs ys : List ℕ) → same_text xs ys ≡ true → xs ≡ ys
same_text-eq [] [] e = refl
same_text-eq [] (y ∷ ys) e = absurd (ground arith)
same_text-eq (x ∷ xs) [] e = absurd (ground arith)
same_text-eq (x ∷ xs) (y ∷ ys) e = elim (ℕ_discrete x y) [
  | yes same ↦
      let b : (x == y) ≡ true = ground arith in
      ap₂ ◌∷◌ same (same_text-eq xs ys (sym (rw b refl) ∙ e))
  | no other ↦
      let b : (x == y) ≡ false = ground arith in
      let f : same_text (x ∷ xs) (y ∷ ys) ≡ false = rw b refl in absurd (ground (arith, sym e ∙ f))
]

named :
    (P : Policy → Type 0) (p q : Policy) (b : Bool) {rest : Option Policy}
    → (b ≡ true → P q)
    → (if b then some q else rest) ≡ some p
    → P p ⊎ (rest ≡ some p)
named P p q true f e = let same : q ≡ p = cc in inl (subst P same (f refl))
named P p q false f e = inr e

and_both : (a b : Bool) → (a && b) ≡ true → (a ≡ true) × (b ≡ true)
and_both true b e = (refl, e)
and_both false b e = absurd (ground arith)

abbrev is_numa : Policy → Bool
is_numa policy_numa = true
is_numa _ = false

-- A policy that may be found by the name
abbrev Named : Bool → List ℕ → Policy → Type 0
Named mem_pol name p = (name ≡ name_of p) × ((p ≡ policy_numa) → mem_pol ≡ true)

abbrev late : List ℕ → Option Policy
late name =
    if same_text name (central_text ++ stack_text)
    then some policy_central_stack
    else if same_text name (ws_text ++ de_text)
    then some policy_ws_de
    else if same_text name (ws_text ++ (de_text ++ node_text))
    then some policy_ws_de_node
    else none

found_late :
    (mem_pol : Bool) (name : List ℕ) (p : Policy)
    → ((q : Policy) → is_numa q ≡ false → same_text name (name_of q) ≡ true → Named mem_pol name q)
    → late name ≡ some p
    → Named mem_pol name p
found_late mem_pol name p text e =
    let P = Named mem_pol name in
    elim (named P p policy_central_stack (same_text name (central_text ++ stack_text))
      (text policy_central_stack refl) e) [
        | inl h ↦ h
        | inr e1 ↦
            elim (named P p policy_ws_de (same_text name (ws_text ++ de_text))
              (text policy_ws_de refl) e1) [
                | inl h ↦ h
                | inr e2 ↦
                    elim (named P p policy_ws_de_node
                      (same_text name (ws_text ++ (de_text ++ node_text)))
                      (text policy_ws_de_node refl) e2) [
                        | inl h ↦ h
                        | inr e3 ↦ absurd (ground arith)
                      ]
              ]
      ]

found :
    (mem_pol : Bool) (name : List ℕ) (p : Policy)
    → get_by_name mem_pol name ≡ some p
    → Named mem_pol name p
unfolding get_by_name
found mem_pol name p e =
    let P = Named mem_pol name in
    let text : (q : Policy) → is_numa q ≡ false → same_text name (name_of q) ≡ true → P q =
      λ q other t. (
        same_text-eq name (name_of q) t,
        λ is. let clash = ap is_numa is in absurd (ground arith),
      ) in
    let numa : (mem_pol && same_text name numa_text) ≡ true → P policy_numa = λ t.
      let (on, same) = and_both mem_pol (same_text name numa_text) t in
      (same_text-eq name numa_text same, λ is. on) in
    elim (named P p policy_central (same_text name central_text) (text policy_central refl) e) [
      | inl h ↦ h
      | inr e1 ↦ elim (named P p policy_ws (same_text name ws_text) (text policy_ws refl) e1) [
        | inl h ↦ h
        | inr e2 ↦ elim (named P p policy_numa (mem_pol && same_text name numa_text) numa e2) [
          | inl h ↦ h
          | inr e3 ↦ found_late mem_pol name p text e3
        ]
      ]
    ]

finds :
    (mem_pol : Bool) (p : Policy)
    → ((p ≡ policy_numa) → mem_pol ≡ true)
    → get_by_name mem_pol (name_of p) ≡ some p
unfolding get_by_name
finds true policy_central h = refl
finds true policy_ws h = refl
finds true policy_numa h = refl
finds true policy_central_stack h = refl
finds true policy_ws_de h = refl
finds true policy_ws_de_node h = refl
finds false policy_central h = refl
finds false policy_ws h = refl
finds false policy_numa h = let no = h refl in absurd (ground arith)
finds false policy_central_stack h = refl
finds false policy_ws_de h = refl
finds false policy_ws_de_node h = refl

-- `mir_sched_pol_get_by_name` finds a policy by a name just if that is the policy's own, and finds
-- `policy_numa` only in the build with MIR_MEM_POL_ENABLE.
pub get_by_name-name_of :
    (mem_pol : Bool) (name : List ℕ) (p : Policy)
    → (get_by_name mem_pol name ≡ some p)
      ↔ ((name ≡ name_of p) × ((p ≡ policy_numa) → mem_pol ≡ true))
get_by_name-name_of mem_pol name p =
    (found mem_pol name p, λ (h : Named mem_pol name p). rw h.0 (finds mem_pol p h.1))
