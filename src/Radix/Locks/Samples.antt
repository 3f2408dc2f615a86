-- ===== src/Radix/Locks/Samples.antt =====
-- A client that locks two of three cached tokens, an eviction, and the theorems at this history.
use mathlib.Core.Option
use sglang_mlx.Prelude.{negsuc, some, [], ◌∷◌, ◌≡◌, refl, pos, ◌+ℤ◌, ◌-ℤ◌, length, subst}
use sglang_mlx.Allocator.{TokenPoolAllocator, free}
use sglang_mlx.Radix.Tree.{
  key_match, upper_half, update_leaf_status, is_evictable_leaf, discard, add_once, contains,
  has_live_child, append_child, split_node,
}
use sglang_mlx.Radix.Walk.{match_tree, insert_tree, add_leaf, leaf_node}
use sglang_mlx.Radix.Policy.{get_priority, ltb_rank}
use sglang_mlx.Radix.Lock.{climb_tree, inc_node, dec_node}
use sglang_mlx.Radix.Cache.{
  RadixCache, reset, match_prefix, insert, inc_lock_ref, dec_lock_ref, climb, nodes_children,
  evictable_size, protected_size,
}
use sglang_mlx.Radix.Evict.{
  entry, heappop, find_children, leaf_entries, remove_child, detach_tree, delete_leaf, evict_one,
  evict_loop, evicting, evict,
}
use sglang_mlx.Radix.Locks.Calls.{left_by}
use sglang_mlx.Radix.Service.{evicted_from}
use sglang_mlx.Radix.Samples.{one_leaf}
use sglang_mlx.Radix.Locks.Clients.{
  Lock, Clients, nodes, lock_at, Reach, here, next, stores, takes, releases, evicts,
}
use sglang_mlx.Radix.Locks.History.{Reach-match_prefix}
use sglang_mlx.Radix.Locks.Sizes.{guarded_children, idle_children, Reach-sizes}

-- What a run of the calls looks into.
runs : Unit {0}
unfolding match_prefix insert reset insert_tree match_tree add_leaf key_match upper_half climb
    climb_tree inc_lock_ref dec_lock_ref inc_node dec_node ◌-ℤ◌ ◌+ℤ◌ update_leaf_status
    is_evictable_leaf discard find_children add_once contains has_live_child leaf_node evict
    evict_loop evict_one delete_leaf detach_tree remove_child leaf_entries heappop entry evicting
    ltb_rank get_priority free nodes_children append_child split_node
runs = tt

abbrev pool : TokenPoolAllocator
pool = record { pool_size = 9; free_slots = 1 ∷ [] }

abbrev fresh : RadixCache
fresh = record one_leaf { allocator = some pool }

abbrev empty : Clients
empty = record { cache = reset fresh; locks = [] }

stored : RadixCache
stored =
    (insert (reset fresh)
      (record { key = 1 ∷ 2 ∷ 3 ∷ []; value = some (7 ∷ 8 ∷ 9 ∷ []); priority = pos 0 })).1

-- The lock of the first two tokens.
abbrev two : Lock
two = record { node = 4; key = 1 ∷ 2 ∷ []; slots = 7 ∷ 8 ∷ [] }

locked : RadixCache
locked =
    let (found, d) = match_prefix stored (1 ∷ 2 ∷ []) in left_by d (inc_lock_ref d found.last_node)

lock_two :
    let (found, d) = match_prefix stored (1 ∷ 2 ∷ []) in
    (inc_lock_ref d found.last_node ≡ some (negsuc 1, locked)) × (lock_at found (1 ∷ 2 ∷ []) ≡ two)
unfolding runs locked stored
lock_two = (refl, refl)

-- Three tokens are asked for, and only one is not locked.
left : RadixCache
unfolding locked
left = Option.get_or (evicted_from (evict locked 3)) locked

evict_three : evict locked 3 ≡ some (1, left)
unfolding runs locked left stored
evict_three = refl

served : Reach empty (record { cache = left; locks = two ∷ [] })
unfolding stored insert
served =
    next
      (subst (λ x. Reach empty (record { cache = locked; locks = x ∷ [] })) lock_two.1
        (next (next here (stores (reset fresh) [] (1 ∷ 2 ∷ 3 ∷ []) (7 ∷ 8 ∷ 9 ∷ []) (pos 0) refl))
          (takes stored locked [] (1 ∷ 2 ∷ []) (negsuc 1) lock_two.0)))
      (evicts locked left (two ∷ []) 3 1 evict_three)

Reach-match_prefix_example :
    ((match_prefix left two.key).0.device_indices ≡ two.slots) × (length two.slots ≡ length two.key)
Reach-match_prefix_example = Reach-match_prefix fresh left [] [] two refl served

released : RadixCache
unfolding left
released = left_by left (dec_lock_ref left 4)

unlock_two : dec_lock_ref left 4 ≡ some (pos 2, released)
unfolding runs left locked stored released
unlock_two = refl

freed : Reach empty (record { cache = released; locks = [] })
freed = next served (releases left released [] [] two (pos 2) unlock_two)

cleared : RadixCache
unfolding released
cleared = Option.get_or (evicted_from (evict released 5)) released

evict_five : evict released 5 ≡ some (2, cleared)
unfolding runs released left locked stored cleared
evict_five = refl

-- Nothing is locked any more.
Reach-sizes_example :
    (protected_size released ≡ pos (guarded_children (nodes []) released.children))
    × (evictable_size released ≡ pos (idle_children (nodes []) released.children))
Reach-sizes_example = Reach-sizes fresh (record { cache = released; locks = [] }) refl freed
