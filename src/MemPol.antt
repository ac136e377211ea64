-- ===== src/MemPol.antt =====
-- src/mir_mem_pol.c, first part: blocks with headers, and how they are spread over the nodes. What
-- libnuma and the system answer is a parameter.
pub mod Dist
pub mod Alloc
pub mod Pages
pub mod Cost
pub mod Node
pub mod Round
mod Tests
use mir_dev.Base.{
  ltb, leb, ◌==◌, if◌then◌else◌, ltb→lt, lt→ltb, leb→le, ==_iff, Bool-cases, Option-cases, ◌>>=◌,
  ◌>>◌, assert, length, get_or, set, replicate, length-append, length-replicate, length-set,
  get_or-set_self, get_or-set_ne, AllSet, AllSet-snoc, AllSet-init, AllSet-cons, All, u16_mod,
  u32_mod, u64_mod, add16, add32, sub32, add64, sub64, all_below, all_below_lem, count,
  count-append, nth, update, total, length-update, nth-lt, nth-bound, nth-set_self, set_same,
  nth-set_ne, total-set, All-nth, All-set, All-intro, ℕ, zero, suc, ◌+◌, ◌-◌, ◌*◌, ◌/◌, ◌%◌, ◌^◌,
  ◌≤◌, ◌<◌, min, max, ◌≡◌, refl, sym, ap, ap₂, subst, ◌∙◌, ◌≢◌, ◌↔◌, ◌⊎◌, inl, inr, Bool, true,
  false, not, ◌&&◌, ◌||◌, Option, none, some, List, [], ◌∷◌, ◌++◌, map, append-nil, append_assoc,
  arith, dec_lt, ℕ_discrete, mod-add-mod, mod-eq_of_lt, mod-eq-sub-mod, add-zero,
}

-- `struct mem_header_t`. A NULL cache is `none`.
pub record Header : Type 0 where
  pub magic : ℕ
  pub sz : ℕ
  pub nodeid : ℕ
  pub node_cache : Option (List ℕ)

-- What stands before an address, for the addresses that were handed out
abbrev pub Headers : Type 0
Headers = List (ℕ × Header)

abbrev pub header_at : Headers → ℕ → Option Header
header_at [] addr = none
header_at ((a, h) ∷ hs) addr = if a == addr then some h else header_at hs addr

-- The header, if its magic number is the runtime's; other memory is taken to hold another number.
unfoldable pub get_mem_header : ℕ → Headers → ℕ → Option (Option Header)
get_mem_header init_time hs addr = do
  assert (not (addr == 0))
  some (elim (header_at hs addr) [
    | none ↦ none
    | some h ↦ if h.magic == init_time then some h else none
  ])

-- `system` is what `get_mempolicy` tells of the page of an address.
unfoldable pub get_node_from_system : (ℕ → ℕ) → ℕ → ℕ → Option ℕ
get_node_from_system system num_nodes addr = do
  assert (not (addr == 0))
  assert (ltb (system addr) num_nodes)
  some (system addr)

-- The node cache of a block that was allocated with the policy `fine` is asked first.
unfoldable pub get_node_of : (ℕ → ℕ) → ℕ → Headers → ℕ → ℕ → ℕ → Option ℕ
get_node_of system num_nodes hs page_size addr base_addr = do
  assert (not (addr == 0))
  if base_addr == 0
      then get_node_from_system system num_nodes addr
      else elim (header_at hs base_addr) [
        | none ↦ get_node_from_system system num_nodes addr
        | some h ↦ elim h.node_cache [
          | none ↦ get_node_from_system system num_nodes addr
          | some cache ↦ nth cache ((addr - base_addr) / page_size)
        ]
      ]
