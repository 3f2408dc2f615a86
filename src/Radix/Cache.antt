-- ===== src/Radix/Cache.antt =====
-- `RadixCache` of radix_cache.py, with the parameter types of base_prefix_cache.py and
-- cache_init_params.py: the state, and the public calls but `evict`.
use Prim.Native.String.{String}
use mathlib.Core.Option
use sglang_mlx.Prelude.{
  ℕ, zero, suc, ◌+◌, Bool, true, false, Option, none, some, List, [], ◌∷◌, ◌==◌, ◌||◌, length,
  if◌then◌else◌, ℤ, pos, negsuc, ◌+ℤ◌, Result, ok, ◌>>=◌,
}
use sglang_mlx.Allocator.{TokenPoolAllocator}
use sglang_mlx.Radix.Tree.{
  TreeNode, Tree, tree, Children, nil, child, Supply, monotonic, tick, new_node, after_new, slots,
  evicted,
}
use sglang_mlx.Radix.Walk.{raised, join, match_children, insert_children}
use sglang_mlx.Radix.Policy.{Strategy, choose_strategy}
use sglang_mlx.Radix.Lock.{Body, Books, climb_children, inc_node, dec_node}

pub record CacheInitParams : Type 0 where
  pub disable : Bool
  pub page_size : ℕ
  pub eviction_policy : String

pub record InsertParams : Type 0 where
  pub key : List ℕ
  pub value : Option (List ℕ)
  pub priority : ℤ

pub record MatchResult : Type 0 where
  pub device_indices : List ℕ
  pub last_node : ℕ

-- `root` is the header of `root_node` and `children` its dictionary. `supply` stands for the class
-- attribute `TreeNode.counter` and the clock.
pub record RadixCache : Type 0 where
  pub disable : Bool
  pub page_size : ℕ
  pub eviction_strategy : Strategy
  pub allocator : Option TokenPoolAllocator
  pub root : TreeNode
  pub children : Children
  pub evictable_size_ : ℤ
  pub protected_size_ : ℤ
  pub evictable_leaves : List ℕ
  pub supply : Supply

-- `-sys.maxsize` on a 64-bit build.
abbrev pub lowest_priority : ℤ
lowest_priority = negsuc 9223372036854775806

-- The root that `reset` builds.
unfoldable pub root_node : Supply → TreeNode
unfolding new_node
root_node s = record (new_node s lowest_priority) { value = some []; lock_ref = pos 1 }

-- `reset`.
unfoldable pub reset : RadixCache → RadixCache
unfolding root_node
reset c = record c {
  root = root_node c.supply;
  children = nil;
  evictable_size_ = pos 0;
  protected_size_ = pos 0;
  evictable_leaves = [];
  supply = after_new c.supply;
}

-- `RadixCache(params)`.
unfoldable pub new_cache : CacheInitParams → Supply → Result RadixCache
unfolding reset
new_cache params s = do
  strategy ← choose_strategy params.eviction_policy
  ok (
      reset (record {
        disable = params.disable;
        page_size = params.page_size;
        eviction_strategy = strategy;
        allocator = none;
        root = root_node s;
        children = nil;
        evictable_size_ = pos 0;
        protected_size_ = pos 0;
        evictable_leaves = [];
        supply = s;
      }))

-- `set_allocator`.
unfoldable pub set_allocator : RadixCache → TokenPoolAllocator → RadixCache
set_allocator c a = record c { allocator = some a }

abbrev pub is_empty : List ℕ → Bool
is_empty [] = true
is_empty (x ∷ xs) = false

-- `match_prefix`, with `_match_prefix_helper` at the root.
unfoldable pub match_prefix : RadixCache → List ℕ → MatchResult × RadixCache
match_prefix c key =
    let now = monotonic c.supply in
    let walk = match_children c.root.id c.children key now (tick c.supply) in
    if c.disable || is_empty key
    then (record { device_indices = []; last_node = c.root.id }, c)
    else (
      record { device_indices = join walk.values; last_node = walk.last_node },
      record c {
        root = record c.root { last_access_time = now };
        children = walk.out;
        supply = walk.supply;
      },
    )

-- `value`, or the key where there is none.
abbrev pub stored_value : InsertParams → List ℕ
stored_value params = Option.get_or params.value params.key

-- The root after the first lines of `_insert_helper`.
abbrev pub touched_root : RadixCache → ℤ → TreeNode
touched_root c p = raised (record c.root { last_access_time = monotonic c.supply }) p

-- `insert`, with `_insert_helper` at the root: the length of the prefix that was there.
unfoldable pub insert : RadixCache → InsertParams → ℕ × RadixCache
insert c params =
    let root = touched_root c params.priority in
    let walk =
      insert_children root c.children c.children params.key (stored_value params) params.priority
        (monotonic c.supply) (tick c.supply) c.evictable_leaves in
    if c.disable
    then (0, c)
    else if is_empty params.key
    then (0, record c { root = root; supply = tick c.supply })
    else (
      walk.prefix_len,
      record c {
        root = root;
        children = walk.out;
        evictable_size_ = c.evictable_size_ +ℤ pos walk.added;
        evictable_leaves = walk.leaves;
        supply = walk.supply;
      },
    )

abbrev pub books : RadixCache → Books
books c = record {
  evictable_size_ = c.evictable_size_;
  protected_size_ = c.protected_size_;
  evictable_leaves = c.evictable_leaves;
  delta = pos 0;
}

-- The cache with the children and the books that a loop left.
abbrev pub placed : RadixCache → Children → Books → RadixCache
placed c f b = record c {
  children = f;
  evictable_size_ = b.evictable_size_;
  protected_size_ = b.protected_size_;
  evictable_leaves = b.evictable_leaves;
}

-- The cache after a climb that found its node; without one the call is outside of the model.
abbrev pub after_climb : RadixCache → Option (Children × Books) → Option (ℤ × RadixCache)
after_climb c none = none
after_climb c (some (f, b)) = some (b.delta, placed c f b)

-- The two loops over a node and its ancestors below the root, for the root and the nodes of the tree.
-- The source also climbs from a node that was evicted or stood before a `reset`, along the parent
-- pointers that it kept. Such a node is not part of this state: `none` says that the call is outside
-- of the model, and nothing is said of it.
unfoldable pub climb : Body → RadixCache → ℕ → Option (ℤ × RadixCache)
climb body c node =
    if c.disable || c.root.id == node
    then some (pos 0, c)
    else after_climb c (climb_children body node c.children (books c))

unfoldable pub inc_lock_ref : RadixCache → ℕ → Option (ℤ × RadixCache)
unfolding climb
inc_lock_ref = climb inc_node

unfoldable pub dec_lock_ref : RadixCache → ℕ → Option (ℤ × RadixCache)
unfolding climb
dec_lock_ref = climb dec_node

unfoldable pub evictable_size : RadixCache → ℤ
evictable_size c = c.evictable_size_

unfoldable pub protected_size : RadixCache → ℤ
protected_size c = c.protected_size_

-- `stack.append(child)` for each child that is not evicted; the head of the list is the top.
unfoldable pub push_children : Children → List Tree → List Tree
push_children nil stack = stack
push_children (child c (tree h g) f) stack =
    push_children f (if evicted h then stack else tree h g ∷ stack)

-- The loop of `_total_size_helper`.
unfoldable pub total_size_loop : ℕ → List Tree → ℕ → Option ℕ
unfolding push_children
total_size_loop fuel [] total = some total
total_size_loop zero (t ∷ stack) total = none
total_size_loop (suc fuel) (tree h f ∷ stack) total =
    total_size_loop fuel (push_children f stack) (total + length (slots h.value))

-- A node count, which bounds the rounds of that loop.
unfoldable mutual
  pub nodes_children : Children → ℕ
  nodes_children nil = 0
  nodes_children (child c t f) = nodes_tree t + nodes_children f

  pub nodes_tree : Tree → ℕ
  nodes_tree (tree h f) = suc (nodes_children f)

-- `total_size`.
unfoldable pub total_size : RadixCache → Option ℕ
unfolding total_size_loop nodes_tree
total_size c = let t = tree c.root c.children in total_size_loop (nodes_tree t) (t ∷ []) 0
