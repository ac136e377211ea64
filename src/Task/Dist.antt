-- ===== src/Task/Dist.antt =====
-- src/mir_task.c: how many bytes of a task's data footprints are on each node.
pub mod Bytes
mod Tests
use mir_dev.Base.{
  ltb, leb, ◌==◌, if◌then◌else◌, ltb→lt, lt→ltb, leb→le, ==_iff, Bool-cases, Option-cases, ◌>>=◌,
  ◌>>◌, assert, length, get_or, set, replicate, length-append, length_zero, length-replicate,
  length-set, get_or-set_self, get_or-set_ne, AllSet, AllSet-snoc, AllSet-init, AllSet-cons, All,
  u16_mod, u32_mod, u64_mod, add16, add32, sub32, add64, sub64, all_below, all_below_lem, count,
  count-append, nth, update, total, length-update, nth-lt, nth-bound, nth-update_self,
  nth-update_ne, nth-update_absent, nth-append_left, nth-append_last, nth-append_cases,
  nth-update_cases, nth-set_self, set_same, nth-set_ne, total-set, total-update, le-total, All-nth,
  All-set, All-intro, ℕ, zero, suc, ◌+◌, ◌-◌, ◌*◌, ◌/◌, ◌%◌, ◌^◌, ◌≤◌, ◌<◌, min, max, ◌≡◌, refl,
  sym, ap, ap₂, subst, ◌∙◌, ◌≢◌, ◌↔◌, ◌⊎◌, inl, inr, Bool, true, false, not, ◌&&◌, ◌||◌, Option,
  none, some, List, [], ◌∷◌, ◌++◌, map, append-nil, append_assoc, arith, dec_lt, ℕ_discrete,
  mod-add-mod, mod-eq_of_lt, mod-eq-sub-mod, add-zero,
}
use mir_dev.MemPol.{Headers}
use mir_dev.MemPol.Dist as MemDist
use mir_dev.MemPol.Dist.{get_mem_node_dist}
use mir_dev.Task.{Footprint, Task}

-- The size of a row, and the address of the row `brow`, in words of 64 bits
abbrev pub row_bytes : Footprint → ℕ
row_bytes f = add64 (sub64 f.last f.start) 1 * f.kind % u64_mod

abbrev pub row_base : Footprint → ℕ → ℕ
row_base f brow = add64 f.base (brow * f.row_sz * f.kind % u64_mod)

-- The other arguments are those of `get_mem_node_dist`.
module _ (init_time : ℕ) (hs : Headers) (system : ℕ → ℕ) (num_nodes page_size : ℕ) where
  abbrev pub add_row : Footprint → List ℕ → ℕ → Option (List ℕ)
  add_row f dist base =
      get_mem_node_dist init_time hs system num_nodes page_size dist base (row_bytes f) f.part_of

  -- The loop over the rows, on fuel
  unfoldable pub row_loop : Footprint → ℕ → List ℕ → ℕ → Option (List ℕ)
  row_loop f zero dist brow = none
  row_loop f (suc fuel) dist brow =
      if ltb f.last brow
      then some dist
      else (do dist' ← add_row f dist (row_base f brow); row_loop f fuel dist' (add64 brow 1))

  -- `mir_data_footprint_get_mem_node_dist`: a footprint is a square of rows, or one row.
  unfoldable pub footprint_dist : Footprint → List ℕ → Option (List ℕ)
  footprint_dist f dist =
      let rows = row_loop f (f.last + 2) dist 0 in
      if ltb 1 f.row_sz then rows else add_row f dist f.base

  unfoldable pub footprints_loop : ℕ → List Footprint → List ℕ → Option (List ℕ)
  footprints_loop access [] dist = some dist
  footprints_loop access (f ∷ fs) dist = do
    dist' ← if f.data_access == access then footprint_dist f dist else some dist
    footprints_loop access fs dist'

  -- `mir_task_get_mem_node_dist`: the task, which keeps the distribution, and the distribution or
  -- NULL
  unfoldable pub task_dist : Task → ℕ → Option (Task × Option (List ℕ))
  task_dist t access = if length t.data_footprints == 0 then some (t, none) else (do
    kept ← nth t.dist_by_access_type access
    elim kept [
      | some dist ↦ some (t, some dist)
      | none ↦ do
        dist ← footprints_loop access t.data_footprints (MemDist.create num_nodes)
        some (
          record t { dist_by_access_type = set t.dist_by_access_type access (some dist) },
          some dist,
        )
    ])
