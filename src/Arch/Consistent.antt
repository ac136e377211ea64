-- ===== src/Arch/Consistent.antt =====
-- src/arch/: the machine descriptions against what the runtime relies on.
use mir_dev.Base.{
  ltb, All, all_below, all_below_lem, ℕ, ◌+◌, ◌*◌, ◌/◌, ◌<◌, ◌≡◌, refl, ap, ◌∙◌, Bool, true, false,
  ◌&&◌, Option, none, some, List, [], ◌∷◌, arith, count, sym,
}
use mir_dev.Arch.{look_up, IsConsistent}
use mir_dev.Arch.Gothmog as G
use mir_dev.Arch.Gothmog.{gothmog}
use mir_dev.Arch.Tilepro64 as T
use mir_dev.Arch.Tilepro64.{tilepro64}
use mir_dev.Arch.OneNode as O
use mir_dev.Arch.OneNode.{firenze, adk}

abbrev is_some : Option ℕ → Bool
is_some none = false
is_some (some x) = true

is_some_lem : (o : Option ℕ) → is_some o ≡ true → (x : ℕ) × (o ≡ some x)
is_some_lem none h = ground arith
is_some_lem (some x) h = (x, refl)

abbrev all_lt : ℕ → List ℕ → Bool
all_lt n [] = true
all_lt n (x ∷ xs) = ltb x n && all_lt n xs

all_lt_lem : (n : ℕ) (xs : List ℕ) → all_lt n xs ≡ true → All (λ m. m < n) xs
all_lt_lem n [] h = tt
all_lt_lem n (x ∷ xs) h = (ground arith, all_lt_lem n xs (ground arith))

-- The cores 6n to 6n+5 are those of node n.
gothmog_node : (c : ℕ) → c < 48 → G.node_of c ≡ some (c / 6)
unfolding G.node_of
gothmog_node c p = ground arith

gothmog_cpus : (n : ℕ) → n < 8 → G.cpus_of n ≡ some (G.six_from (6 * n))
unfolding G.cpus_of
gothmog_cpus n p = ground arith

gothmog_own : (n : ℕ) → n < 8 → All (λ c. (G.node_of c ≡ some n) × (c < 48)) (G.six_from (6 * n))
gothmog_own n p =
    let own : (i : ℕ) → i < 6 → (G.node_of (6 * n + i) ≡ some n) × (6 * n + i < 48) =
      λ i q. (gothmog_node (6 * n + i) (omega arith) ∙ ap some (omega arith), omega arith) in
    (
      (gothmog_node (6 * n) (omega arith) ∙ ap some (omega arith), omega arith),
      (
        own 1 (omega arith),
        (
          own 2 (omega arith),
          (own 3 (omega arith), (own 4 (omega arith), (own 5 (omega arith), tt))),
        ),
      ),
    )

gothmog_all : (n c : ℕ) → n < 8 → c < 48 → G.node_of c ≡ some n → count c (G.six_from (6 * n)) ≡ 1
gothmog_all n c p q e =
    let f : some (c / 6) ≡ some n = sym (gothmog_node c q) ∙ e in
    let g : c / 6 ≡ n = ground arith in ground arith

gothmog_near : (n d : ℕ) → all_lt 8 (G.vicinity_of n d) ≡ true
unfolding G.vicinity_of G.near_one G.near_two G.near_three
gothmog_near n d = ground arith

gothmog_known : (c : ℕ) → c < 48 → is_some (G.sys_cpu_of c) ≡ true
unfolding G.sys_cpu_of look_up all_below
gothmog_known c = all_below_lem 48 (λ c. is_some (G.sys_cpu_of c)) c refl

pub gothmog-IsConsistent : IsConsistent gothmog
unfolding G.comm_cost_of
gothmog-IsConsistent = record {
  some_node = omega arith;
  cpu_known = λ c p. is_some_lem (G.sys_cpu_of c) (gothmog_known c p);
  node_in = λ c p. (c / 6, gothmog_node c p, omega arith);
  own_cpus = λ n p.
      (G.six_from (6 * n), gothmog_cpus n p, gothmog_own n p, λ c q e. gothmog_all n c p q e);
  near = λ n d. all_lt_lem 8 (G.vicinity_of n d) (gothmog_near n d);
  cost_comm = λ n m. ground arith;
  local_cheapest = λ n m p q. ground arith;
}

tilepro64-IsConsistent : IsConsistent tilepro64
unfolding T.comm_cost_of T.hops T.sys_cpu_of T.node_of T.cpus_of T.vicinity_of
tilepro64-IsConsistent = record {
  some_node = omega arith;
  cpu_known = λ c p. (c, refl);
  node_in = λ c p. (c, ground arith, p);
  own_cpus = λ n p. (n ∷ [], ground arith, ((ground arith, p), tt), λ c q e. ground arith);
  near = λ n d. tt;
  cost_comm = λ n m. ground arith;
  local_cheapest = λ n m p q. ground arith;
}

pub firenze-IsConsistent : IsConsistent firenze
unfolding O.sys_cpu_of_firenze O.node_of_firenze O.cpus_of_firenze O.vicinity_of_firenze
    O.comm_cost_of_firenze look_up all_below
firenze-IsConsistent = record {
  some_node = omega arith;
  cpu_known = λ c p.
      is_some_lem (O.sys_cpu_of_firenze c)
        (all_below_lem 2 (λ c. is_some (O.sys_cpu_of_firenze c)) c refl p);
  node_in = λ c p. (0, ground arith, omega arith);
  own_cpus = λ n p. (
    0 ∷ 1 ∷ [],
    ground arith,
    ((ground arith, omega arith), ((ground arith, omega arith), tt)),
    λ c q e. ground arith,
  );
  near = λ n d. tt;
  cost_comm = λ n m. refl;
  local_cheapest = λ n m p q. omega arith;
}

adk-IsConsistent : IsConsistent adk
unfolding O.sys_cpu_of_adk O.node_of_adk O.cpus_of_adk O.vicinity_of_adk O.comm_cost_of_adk look_up
    all_below
adk-IsConsistent = record {
  some_node = omega arith;
  cpu_known = λ c p.
      is_some_lem (O.sys_cpu_of_adk c)
        (all_below_lem 4 (λ c. is_some (O.sys_cpu_of_adk c)) c refl p);
  node_in = λ c p. (0, ground arith, omega arith);
  own_cpus = λ n p. (
    0 ∷ 1 ∷ 2 ∷ 3 ∷ [],
    ground arith,
    (
      (ground arith, omega arith),
      (
        (ground arith, omega arith),
        ((ground arith, omega arith), ((ground arith, omega arith), tt)),
      ),
    ),
    λ c q e. ground arith,
  );
  near = λ n d. tt;
  cost_comm = λ n m. refl;
  local_cheapest = λ n m p q. omega arith;
}

-- The descriptions of Gothmog, the TILEPro64, Firenze and ADK keep what the runtime relies on: at
-- least one node; each core below the number of cores has a system number and is on a node below
-- the number of nodes; each node lists exactly the cores that are on it, each once; neighbours are
-- nodes; the cost between nodes is the same both ways, and none is below the cost of the node's own memory.
pub machines-IsConsistent : All IsConsistent (gothmog ∷ tilepro64 ∷ firenze ∷ adk ∷ [])
machines-IsConsistent =
    (gothmog-IsConsistent, (tilepro64-IsConsistent, (firenze-IsConsistent, (adk-IsConsistent, tt))))
