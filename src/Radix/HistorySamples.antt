-- ===== src/Radix/HistorySamples.antt =====
-- Runs of the cache on histories of calls, and the theorems on them at these runs.
use mathlib.Core.Option
use sglang_mlx.Prelude.{ℕ, some, List, [], ◌∷◌, ◌≡◌, refl, pos, ℤ, ◌+ℤ◌, ◌-ℤ◌, negsuc}
use sglang_mlx.Radix.Tree.{
  TreeNode, key_match, upper_half, update_leaf_status, is_evictable_leaf, discard, add_once,
  contains, has_live_child,
}
use sglang_mlx.Radix.Walk.{match_tree, insert_tree, add_leaf, leaf_node}
use sglang_mlx.Radix.Policy.{lru, lfu, ltb_entry}
use sglang_mlx.Radix.Lock.{climb_tree, inc_node}
use sglang_mlx.Radix.Cache.{
  RadixCache, reset, match_prefix, insert, inc_lock_ref, dec_lock_ref, climb, total_size,
  evictable_size, protected_size,
}
use sglang_mlx.Radix.Evict.{find_children, entry}
use sglang_mlx.Radix.History.{Call, matches, stores, run, step}
use sglang_mlx.Radix.TotalSize.{total_size-run}
use sglang_mlx.Radix.Frequency.{lfu-lru}
use sglang_mlx.Radix.Undo.{dec-inc_lock_ref}
use sglang_mlx.Radix.Samples.{
  one_leaf, one_leaf-IsBalanced, leaf, calls, called, run_calls, locked_leaf,
}

-- What a run of the calls looks into.
history : Unit {0}
unfolding match_prefix insert reset insert_tree match_tree add_leaf key_match upper_half climb
    climb_tree inc_lock_ref run step inc_node ◌-ℤ◌ ◌+ℤ◌ update_leaf_status is_evictable_leaf discard
    find_children add_once contains has_live_child leaf_node
history = tt

abbrev twice : List Call
twice =
    stores (1 ∷ 2 ∷ []) (5 ∷ 6 ∷ []) (pos 0)
    ∷ stores (3 ∷ []) (7 ∷ []) (pos 0)
    ∷ matches (1 ∷ 2 ∷ [])
    ∷ []

-- The two nodes that these calls leave.
abbrev first : TreeNode
first = record leaf {
  id = 3;
  key = 1 ∷ 2 ∷ [];
  value = some (5 ∷ 6 ∷ []);
  last_access_time = 12;
  creation_time = 8;
}

abbrev second : TreeNode
second = record leaf {
  id = 4;
  key = 3 ∷ [];
  value = some (7 ∷ []);
  last_access_time = 10;
  creation_time = 11;
}

left : RadixCache
unfolding history
left = Option.get_or (run (reset one_leaf) twice) one_leaf

run_twice : run (reset one_leaf) twice ≡ some left
unfolding history left
run_twice = refl

two_leaves : left.evictable_leaves ≡ 4 ∷ 3 ∷ []
unfolding history left
two_leaves = refl

find_first : find_children 3 left.children ≡ some first
unfolding history left
find_first = refl

find_second : find_children 4 left.children ≡ some second
unfolding history left
find_second = refl

inc_leaf : inc_lock_ref one_leaf 1 ≡ some (negsuc 2, locked_leaf)
unfolding history
inc_leaf = refl

total_size-run_example :
    (n : ℕ) × (total_size called ≡ some n)
    × (evictable_size called +ℤ protected_size called ≡ pos n)
total_size-run_example =
    total_size-run one_leaf called calls (refl, (tt, (tt, (refl, tt)))) run_calls

lfu-lru_example :
    ltb_entry (entry lfu second) (entry lfu first) ≡ ltb_entry (entry lru second) (entry lru first)
lfu-lru_example = lfu-lru one_leaf left twice 4 3 second first run_twice find_second find_first

dec-inc_lock_ref_example :
    (e : RadixCache) × (back : ℤ) × (dec_lock_ref locked_leaf 1 ≡ some (back, e))
    × (e.children ≡ one_leaf.children)
    × (e.evictable_size_ ≡ one_leaf.evictable_size_)
    × (e.protected_size_ ≡ one_leaf.protected_size_)
    × (negsuc 2 +ℤ back ≡ pos 0)
dec-inc_lock_ref_example =
    dec-inc_lock_ref one_leaf locked_leaf 1 (negsuc 2) one_leaf-IsBalanced inc_leaf
