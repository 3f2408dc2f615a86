-- ===== src/Radix/EvictSamples.antt =====
-- Runs of `evict`, and the theorem on `heappop` at a heap.
use sglang_mlx.Prelude.{some, List, [], ◌∷◌, ◌≡◌, refl, pos, ◌-ℤ◌}
use sglang_mlx.Allocator.{free}
use sglang_mlx.Radix.Tree.{
  TreeNode, tree, nil, child, update_leaf_status, is_evictable_leaf, discard, add_once, contains,
  has_live_child,
}
use sglang_mlx.Radix.Policy.{lru, get_priority, ltb_rank}
use sglang_mlx.Radix.Cache.{RadixCache, set_allocator, nodes_children}
use sglang_mlx.Radix.Evict.{
  Entry, entry, heappop, find_children, leaf_entries, remove_child, detach_tree, delete_leaf,
  evict_one, evict_loop, evicting, evict,
}
use sglang_mlx.Radix.Samples.{one_leaf, leaf}

-- What a run of `evict` looks into.
evictions : Unit {0}
unfolding evict evict_loop evict_one delete_leaf detach_tree remove_child leaf_entries find_children
    heappop entry evicting ltb_rank get_priority update_leaf_status is_evictable_leaf discard
    add_once contains has_live_child free set_allocator nodes_children ◌-ℤ◌
evictions = tt

-- The tokens 1 2 3 with a tail 4 that was used at time 5, and the tokens 8 9, used at time 2.
abbrev parent : TreeNode
parent = record leaf { last_access_time = 5 }

abbrev tail : TreeNode
tail = record leaf { id = 2; key = 4 ∷ []; value = some (5 ∷ []); last_access_time = 5 }

abbrev old : TreeNode
old = record leaf { id = 3; key = 8 ∷ 9 ∷ []; value = some (1 ∷ 2 ∷ []); last_access_time = 2 }

abbrev two_leaves : RadixCache
two_leaves = record one_leaf {
  children = child 1 (tree parent (child 4 (tree tail nil) nil)) (child 8 (tree old nil) nil);
  allocator = some (record { pool_size = 9; free_slots = [] });
  evictable_size_ = pos 6;
  evictable_leaves = 2 ∷ 3 ∷ [];
}

-- One token is asked for: the older leaf goes with both of its slots.
evict_oldest :
    evict two_leaves 1
    ≡ some (
      2,
      record two_leaves {
        children = child 1 (tree parent (child 4 (tree tail nil) nil)) nil;
        allocator = some (record { pool_size = 9; free_slots = 1 ∷ 2 ∷ [] });
        evictable_size_ = pos 4;
        evictable_leaves = 2 ∷ [];
      },
    )
unfolding evictions
evict_oldest = refl

-- With enough asked for, a parent that became a leaf follows its child.
evict_all :
    evict two_leaves 6
    ≡ some (
      6,
      record two_leaves {
        children = nil;
        allocator = some (record { pool_size = 9; free_slots = 1 ∷ 2 ∷ 5 ∷ 7 ∷ 8 ∷ 9 ∷ [] });
        evictable_size_ = pos 0;
        evictable_leaves = [];
      },
    )
unfolding evictions
evict_all = refl

abbrev heap : List Entry
heap = entry lru tail ∷ entry lru old ∷ entry lru parent ∷ []
