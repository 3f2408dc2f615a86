-- ===== src/Radix/ServiceSamples.antt =====
-- A history with a lock and an eviction, and the theorems on evictions at it.
use mathlib.Core.Option
use sglang_mlx.Prelude.{
  ℕ, ◌+◌, ◌<◌, some, List, [], ◌∷◌, ◌≡◌, refl, pos, ◌+ℤ◌, ◌-ℤ◌, ◌⊎◌, count, false,
}
use sglang_mlx.Allocator.{TokenPoolAllocator, free}
use sglang_mlx.Radix.Tree.{
  key_match, upper_half, update_leaf_status, is_evictable_leaf, discard, add_once, contains,
  has_live_child, append_child,
}
use sglang_mlx.Radix.Walk.{match_tree, insert_tree, add_leaf, leaf_node}
use sglang_mlx.Radix.Policy.{get_priority, ltb_rank}
use sglang_mlx.Radix.Lock.{climb_tree, inc_node}
use sglang_mlx.Radix.Weights.{sum_children}
use sglang_mlx.Radix.Measures.{holds, locked}
use sglang_mlx.Radix.Cache.{
  RadixCache, reset, match_prefix, insert, inc_lock_ref, climb, nodes_children, evictable_size,
  protected_size,
}
use sglang_mlx.Radix.Evict.{
  entry, heappop, find_children, leaf_entries, remove_child, detach_tree, delete_leaf, evict_one,
  evict_loop, evicting, evict,
}
use sglang_mlx.Radix.History.{stores, locks, step}
use sglang_mlx.Radix.Evict.Laws.{IsKept, Eviction, evict_lem, locked-loose}
use sglang_mlx.Radix.Evict.Promises.{evict-slots, evict-locked, evict-sizes, evict-bounded, longer}
use sglang_mlx.Radix.Service.{
  Action, calls, evicts, serve, act, evicted_from, IsPlaced, serve-IsKept,
}
use sglang_mlx.Radix.Samples.{one_leaf}

-- What a run of the actions looks into.
actions : Unit {0}
unfolding match_prefix insert reset insert_tree match_tree add_leaf key_match upper_half climb
    climb_tree inc_lock_ref step inc_node ◌-ℤ◌ ◌+ℤ◌ update_leaf_status is_evictable_leaf discard
    find_children add_once contains has_live_child leaf_node evict evict_loop evict_one delete_leaf
    detach_tree remove_child leaf_entries heappop entry evicting ltb_rank get_priority free
    nodes_children serve act append_child
actions = tt

abbrev pool : TokenPoolAllocator
pool = record { pool_size = 9; free_slots = 1 ∷ [] }

abbrev fresh : RadixCache
fresh = record one_leaf { allocator = some pool }

-- Two entries that share two tokens; the node of the second and the shared one are locked.
abbrev two_entries : List Action
two_entries =
    calls (stores (1 ∷ 2 ∷ 3 ∷ []) (7 ∷ 8 ∷ 9 ∷ []) (pos 0))
    ∷ calls (stores (1 ∷ 2 ∷ 4 ∷ []) (7 ∷ 8 ∷ 5 ∷ []) (pos 0))
    ∷ calls (locks 5)
    ∷ []

in_use : RadixCache
unfolding actions
in_use = Option.get_or (serve (reset fresh) two_entries) fresh

served : serve (reset fresh) two_entries ≡ some in_use
unfolding actions in_use
served = refl

-- Of the two tokens that are asked for only one is unlocked.
after : RadixCache
unfolding in_use
after = Option.get_or (evicted_from (evict in_use 2)) in_use

evict_two : evict in_use 2 ≡ some (1, after)
unfolding actions in_use after
evict_two = refl

in_use-IsKept : IsKept in_use
in_use-IsKept = (serve-IsKept fresh in_use two_entries (refl, (refl, (tt, tt))) served).0

enabled : in_use.disable ≡ false
unfolding actions in_use
enabled = refl

with_pool : in_use.allocator ≡ some pool
unfolding actions in_use
with_pool = refl

at_most_two : sum_children (longer 2) in_use.children ≡ 0
unfolding actions in_use sum_children longer
at_most_two = refl

-- The entries, and an eviction before and after them.
abbrev around : List Action
around = evicts 3 ∷ calls (stores (1 ∷ 2 ∷ []) (7 ∷ 8 ∷ []) (pos 0)) ∷ evicts 1 ∷ two_entries

in_turn : RadixCache
unfolding actions
in_turn = Option.get_or (serve (reset fresh) around) fresh

served_around : serve (reset fresh) around ≡ some in_turn
unfolding actions in_turn
served_around = refl

serve-IsKept_example :
    IsKept in_turn
    × ((action : Action)
        → IsPlaced in_turn action
        → (e : RadixCache) × (act in_turn action ≡ some e))
serve-IsKept_example =
    serve-IsKept fresh in_turn around (tt, (refl, (tt, (refl, (refl, (tt, tt)))))) served_around

evict_lem_example :
    (k : ℕ) × (d : RadixCache) × (evict in_use 2 ≡ some (k, d)) × Eviction 2 in_use k d
evict_lem_example = evict_lem in_use 2 in_use-IsKept enabled

evict-slots_example :
    (b : TokenPoolAllocator) × (after.allocator ≡ some b)
    × (b.pool_size ≡ pool.pool_size)
    × (count 9 b.free_slots + sum_children (holds 9) after.children
        ≡ count 9 pool.free_slots + sum_children (holds 9) in_use.children)
evict-slots_example = evict-slots in_use after pool 2 1 9 in_use-IsKept enabled with_pool evict_two

evict-locked_example : sum_children locked after.children ≡ sum_children locked in_use.children
evict-locked_example =
    evict-locked in_use after 2 1 locked in_use-IsKept enabled locked-loose evict_two

evict-sizes_example :
    (evictable_size after +ℤ pos 1 ≡ evictable_size in_use)
    × (protected_size after ≡ protected_size in_use)
evict-sizes_example = evict-sizes in_use after 2 1 in_use-IsKept enabled evict_two

evict-bounded_example : (◌≡◌ {A = ℕ} 1 0) ⊎ (1 < 2 + 2)
evict-bounded_example = evict-bounded in_use after 2 1 2 in_use-IsKept enabled at_most_two evict_two
