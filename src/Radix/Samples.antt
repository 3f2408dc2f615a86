-- ===== src/Radix/Samples.antt =====
-- Runs of the cache on small inputs, among them the `__main__` block of radix_cache.py and a test
-- of tests/test_radix_cache.py, and the theorems at such inputs.
use mathlib.Core.Option
use sglang_mlx.Prelude.{
  ℕ, ◌+◌, false, none, some, List, [], ◌∷◌, ◌++◌, ◌≡◌, refl, length, drop, pos, ◌+ℤ◌, ◌-ℤ◌, ok,
  raise, value_error, negsuc,
}
use sglang_mlx.Radix.Tree.{
  TreeNode, tree, nil, child, Supply, key_match, upper_half, update_leaf_status, is_evictable_leaf,
  discard,
}
use sglang_mlx.Radix.Walk.{match_tree, insert_tree, add_leaf}
use sglang_mlx.Radix.Policy.{lru, fifo, choose_strategy}
use sglang_mlx.Radix.Lock.{climb_tree, inc_node}
use sglang_mlx.Radix.View.{has_child, overlay}
use sglang_mlx.Radix.Cache.{
  RadixCache, InsertParams, reset, match_prefix, insert, inc_lock_ref, climb, total_size,
}
use sglang_mlx.Radix.Refine.{cached, IsWellFormed, match_prefix-cached, cached-insert}
use sglang_mlx.Radix.InsertPrefix.{match_prefix-insert}
use sglang_mlx.Radix.History.{Call, matches, stores, locks, run, step, answers, match_prefix-run}
use sglang_mlx.Radix.Measures.{unlocked, locked}
use sglang_mlx.Radix.Weights.{sum_children}
use sglang_mlx.Radix.Print.{Line, show, pretty_print, sum_lines, pretty_print-nodes}
use sglang_mlx.Radix.Balance.{IsBalanced, run-IsBalanced}

-- What a run of the calls looks into.
program : Unit {0}
unfolding match_prefix insert reset insert_tree match_tree add_leaf key_match upper_half climb
    climb_tree inc_lock_ref total_size run step inc_node ◌-ℤ◌ ◌+ℤ◌ update_leaf_status
    is_evictable_leaf discard
program = tt

fifo_any_case : choose_strategy "FiFo" ≡ ok fifo
unfolding choose_strategy
fifo_any_case = refl

unknown_policy : choose_strategy "random" ≡ raise value_error
unfolding choose_strategy
unknown_policy = refl

abbrev pub start : Supply
start = record { counter = 0; ticks = 0; clock = λ n. n }

abbrev pub root : TreeNode
root = record {
  id = 0;
  key = [];
  value = some [];
  lock_ref = pos 1;
  last_access_time = 0;
  creation_time = 1;
  hit_count = 0;
  priority = pos 0;
}

-- The tokens 1 2 3 with the slots 7 8 9, unlocked.
abbrev pub leaf : TreeNode
leaf = record root { id = 1; key = 1 ∷ 2 ∷ 3 ∷ []; value = some (7 ∷ 8 ∷ 9 ∷ []); lock_ref = pos 0 }

abbrev pub one_leaf : RadixCache
one_leaf = record {
  disable = false;
  page_size = 1;
  eviction_strategy = lru;
  allocator = none;
  root = root;
  children = child 1 (tree leaf nil) nil;
  evictable_size_ = pos 3;
  protected_size_ = pos 0;
  evictable_leaves = 1 ∷ [];
  supply = record start { counter = 2; ticks = 4 };
}

pub one_leaf-IsWellFormed : IsWellFormed one_leaf
unfolding has_child
one_leaf-IsWellFormed =
    ((record { first = refl; indices = 7 ∷ 8 ∷ 9 ∷ []; held = refl; paired = refl }, tt), refl, tt)

pub one_leaf-IsBalanced : IsBalanced one_leaf
unfolding sum_children unlocked locked
one_leaf-IsBalanced = record { free = refl; taken = refl }

-- The entry of a request that shares two tokens.
abbrev entry : InsertParams
entry = record { key = 1 ∷ 2 ∷ 4 ∷ []; value = some (7 ∷ 8 ∷ 5 ∷ []); priority = pos 0 }

abbrev pub calls : List Call
calls =
    stores (1 ∷ 2 ∷ 3 ∷ []) (7 ∷ 8 ∷ 9 ∷ []) (pos 0)
    ∷ locks 3
    ∷ matches (1 ∷ 2 ∷ [])
    ∷ stores (1 ∷ 2 ∷ 4 ∷ []) (7 ∷ 8 ∷ 5 ∷ []) (pos 0)
    ∷ []

abbrev token_stores : List Call
token_stores =
    stores (1 ∷ 2 ∷ 3 ∷ []) (1 ∷ 2 ∷ 3 ∷ []) (pos 0)
    ∷ stores (1 ∷ 2 ∷ 3 ∷ []) (1 ∷ 2 ∷ 3 ∷ []) (pos 0)
    ∷ stores (1 ∷ 2 ∷ 4 ∷ 5 ∷ []) (1 ∷ 2 ∷ 4 ∷ 5 ∷ []) (pos 0)
    ∷ stores (1 ∷ 2 ∷ 4 ∷ 5 ∷ 6 ∷ 7 ∷ []) (1 ∷ 2 ∷ 4 ∷ 5 ∷ 6 ∷ 7 ∷ []) (pos 0)
    ∷ stores (8 ∷ 9 ∷ 10 ∷ 11 ∷ 12 ∷ []) (8 ∷ 9 ∷ 10 ∷ 11 ∷ 12 ∷ []) (pos 0)
    ∷ []

main_cache : RadixCache
unfolding program
main_cache = Option.get_or (run (reset one_leaf) token_stores) one_leaf

main_match : (match_prefix main_cache (1 ∷ 2 ∷ 3 ∷ 13 ∷ 14 ∷ [])).0.device_indices ≡ 1 ∷ 2 ∷ 3 ∷ []
unfolding program main_cache
main_match = refl

main_total : total_size main_cache ≡ some 12
unfolding program main_cache
main_total = refl

-- Node 3 is in the tree when it is locked.
pub called : RadixCache
unfolding program
called = Option.get_or (run (reset one_leaf) calls) one_leaf

pub run_calls : run (reset one_leaf) calls ≡ some called
unfolding program called
run_calls = refl

-- No node has the id 1 after a `reset`, which begins with the next id.
stale_lock : run (reset one_leaf) (locks 1 ∷ []) ≡ none
unfolding program
stale_lock = refl

match_prefix-run_example :
    (match_prefix called (1 ∷ 2 ∷ 4 ∷ [])).0.device_indices
    ≡ answers (λ _. []) calls (1 ∷ 2 ∷ 4 ∷ [])
match_prefix-run_example =
    match_prefix-run one_leaf called calls (1 ∷ 2 ∷ 4 ∷ []) refl (refl, (tt, (tt, (refl, tt))))
      run_calls

match_prefix-cached_example :
    (match_prefix one_leaf (1 ∷ 2 ∷ 5 ∷ [])).0.device_indices ≡ cached one_leaf (1 ∷ 2 ∷ 5 ∷ [])
match_prefix-cached_example =
    match_prefix-cached one_leaf (1 ∷ 2 ∷ 5 ∷ []) one_leaf-IsWellFormed refl

cached-insert_example :
    IsWellFormed (insert one_leaf entry).1
    × ((q : List ℕ)
        → cached (insert one_leaf entry).1 q
          ≡ overlay (1 ∷ 2 ∷ 4 ∷ []) (7 ∷ 8 ∷ 5 ∷ []) (cached one_leaf q) q)
cached-insert_example = cached-insert one_leaf entry one_leaf-IsWellFormed refl refl

match_prefix-insert_example :
    ((match_prefix (insert one_leaf entry).1 entry.key).0.device_indices
      ≡ cached one_leaf entry.key ++ drop (insert one_leaf entry).0 (7 ∷ 8 ∷ 5 ∷ []))
    × (length (match_prefix (insert one_leaf entry).1 entry.key).0.device_indices ≡ 3)
match_prefix-insert_example = match_prefix-insert one_leaf entry one_leaf-IsWellFormed refl refl

abbrev pub locked_leaf : RadixCache
locked_leaf = record one_leaf {
  children = child 1 (tree (record leaf { lock_ref = pos 1 }) nil) nil;
  evictable_size_ = pos 0;
  protected_size_ = pos 3;
  evictable_leaves = [];
}

inc_leaf : climb inc_node one_leaf 1 ≡ some (negsuc 2, locked_leaf)
unfolding program
inc_leaf = refl

run-IsBalanced_example : IsBalanced called
run-IsBalanced_example = run-IsBalanced one_leaf called calls run_calls

pretty_print-nodes_example :
    (lines : List Line) × (n : ℕ) × (pretty_print one_leaf ≡ some (lines, n))
    × (total_size one_leaf ≡ some n)
    × (sum_lines (λ x. x.key_length) lines
        ≡ (show one_leaf.root).key_length
          + sum_children (λ h. (show h).key_length) one_leaf.children)
pretty_print-nodes_example = pretty_print-nodes one_leaf (λ x. x.key_length) one_leaf-IsWellFormed
